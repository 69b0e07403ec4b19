-- ===== src/Prelude/Maps.antt =====
-- `HashMap` as a list of entries. The order of the entries stands for the order in which the
-- source iterates, which Rust leaves open: what is proved holds for every order.

use mathlib.Core.Path.{◌≡◌, refl}
use mathlib.Core.Logic.{◌≢◌}
use mathlib.Core.Bool.{Bool}
use mathlib.Core.Option.{Option, none, some}
use mathlib.Core.List.{List, [], ◌∷◌, map}
use native.Mathlib.Omega.{arith}
use bpmninja.Prelude.Tests.{if◌then◌else◌, is_some}
use bpmninja.Prelude.Lists.{select}
use bpmninja.Prelude.Equality.{Eq, ◌==◌}

abbrev pub Map : Type 0 → Type 0 → Type 0
Map K V = List (K × V)

abbrev pub keys : {K V : Type 0} → Map K V → List K
keys m = map (λ e. e.0) m

abbrev pub values : {K V : Type 0} → Map K V → List V
values m = map (λ e. e.1) m

-- What `retain` leaves of an entry, by a test on the value.
abbrev pub kept : {V : Type 0} → (V → Bool) → Option V → Option V
kept p none = none
kept p (some v) = if p v then some v else none

module _ {K V : Type 0} ⦃e : Eq K⦄ where
  unfoldable pub get : K → Map K V → Option V
  get k [] = none
  get k ((j, v) ∷ m) = if j == k then some v else get k m

  abbrev pub contains_key : K → Map K V → Bool
  contains_key k m = is_some (get k m)

  unfoldable pub insert : K → V → Map K V → Map K V
  insert k v [] = (k, v) ∷ []
  insert k v ((j, w) ∷ m) = if j == k then (k, v) ∷ m else (j, w) ∷ insert k v m

  unfoldable pub remove : K → Map K V → Map K V
  remove k [] = []
  remove k ((j, w) ∷ m) = if j == k then remove k m else (j, w) ∷ remove k m

  -- `m.extend(n)`: the entries of `n` one after the other, so those of `n` win.
  unfoldable pub extend : Map K V → Map K V → Map K V
  extend m [] = m
  extend m ((k, v) ∷ n) = extend (insert k v m) n

  pub get-insert :
      (k j : K) (v : V) (m : Map K V) → get j (insert k v m) ≡ (if k == j then some v else get j m)
  unfolding get insert
  get-insert k j v [] = refl
  get-insert k j v ((i, w) ∷ m) =
      ground (arith, e.agrees k j, e.agrees i k, e.agrees i j, get-insert k j v m)

  pub get-remove : (k j : K) (m : Map K V) → get j (remove k m) ≡ (if k == j then none else get j m)
  unfolding get remove
  get-remove k j [] = ground arith
  get-remove k j ((i, w) ∷ m) =
      ground (arith, e.agrees k j, e.agrees i k, e.agrees i j, get-remove k j m)

  pub get-insert_self : (k : K) (v : V) (m : Map K V) → get k (insert k v m) ≡ some v
  get-insert_self k v m = ground (arith, get-insert k k v m, e.agrees k k)

  pub get-insert_other : (k j : K) (v : V) (m : Map K V) → k ≢ j → get j (insert k v m) ≡ get j m
  get-insert_other k j v m h = ground (arith, get-insert k j v m, e.agrees k j)

  -- The value that the last entry for a key gives.
  unfoldable pub get_last : K → Map K V → Option V
  get_last k [] = none
  get_last k ((j, v) ∷ n) = elim (get_last k n) [
    | none ↦ if j == k then some v else none
    | some w ↦ some w
  ]

  pub get-extend :
      (j : K) (m n : Map K V)
      → get j (extend m n) ≡ elim (get_last j n) [ none ↦ get j m | some v ↦ some v ]
  unfolding extend get_last
  get-extend j m [] = refl
  get-extend j m ((k, v) ∷ n) = ground (arith, get-insert k j v m, get-extend j (insert k v m) n)

  -- What a `HashMap` is: no key stands twice.
  abbrev pub HasDistinctKeys : Map K V → Type 0
  HasDistinctKeys [] = Unit
  HasDistinctKeys ((k, v) ∷ m) = (get k m ≡ none) × HasDistinctKeys m

  get-select-none :
      (k : K) (p : V → Bool) (m : Map K V) → get k m ≡ none → get k (select (λ e. p e.1) m) ≡ none
  unfolding get
  get-select-none k p [] absent = refl
  get-select-none k p ((i, v) ∷ m) absent = ground (arith, get-select-none k p m)

  pub get-select :
      (k : K) (p : V → Bool) (m : Map K V)
      → HasDistinctKeys m
      → get k (select (λ e. p e.1) m) ≡ kept p (get k m)
  unfolding get
  get-select k p [] distinct = refl
  get-select k p ((i, v) ∷ m) distinct =
      ground (arith, e.agrees i k, get-select k p m distinct.1, get-select-none i p m distinct.0)

  pub ruleset map_laws = (get-insert, get-remove)
