-- ===== src/Engine/Incidents/Update.antt =====
-- What `iter_mut().find(…)` and the update of the incident found do to the list.
use bpmninja.Prelude.{
  ℕ, zero, suc, ◌+◌, ◌≤◌, ◌≡◌, refl, ap, ◌⊎◌, inl, inr, Bool, true, false, none, some, List, [],
  ◌∷◌, ◌++◌, option_eq, nat_eq, string_eq, ltb, length, select, All, arith, Bool-cases,
  Option-cases,
}
use bpmninja.Domain.Error.{Uuid}
use bpmninja.Domain.Incident.{Incident, max_incidents_per_instance, kind_eq}
use bpmninja.Engine.Incidents.{update_first, trim_rounds, victim, remove_at}

-- The first entry that passes the test is replaced.
pub record Updated (p : Incident → Bool) (f : Incident → Incident) (is : List Incident) (id : Uuid)
    (after : List Incident) : Type 0 where
  pub front : List Incident
  pub back : List Incident
  pub hit : Incident
  pub place : is ≡ front ++ hit ∷ back
  pub skipped : All (λ i. p i ≡ false) front
  pub passes : p hit ≡ true
  pub named : hit.id ≡ id
  pub result : after ≡ front ++ f hit ∷ back

module _ (p : Incident → Bool) (f : Incident → Incident) where
  pub update_cases :
      (is : List Incident)
      → ((update_first p f is ≡ none) × All (λ i. p i ≡ false) is)
        ⊎ ((id : Uuid) × (after : List Incident) × (update_first p f is ≡ some (id, after))
            × Updated p f is id after)
  unfolding update_first
  update_cases [] = inl (refl, tt)
  update_cases (i ∷ is) = elim (Bool-cases (p i)) [
    | inl yes? ↦ inr (
      i.id,
      f i ∷ is,
      ground arith,
      record {
        front = [];
        back = is;
        hit = i;
        place = refl;
        skipped = tt;
        passes = yes?;
        named = refl;
        result = refl;
      },
    )
    | inr none_here ↦ elim (update_cases is) [
      | inl (e, rest) ↦ inl (ground (arith, e), (none_here, rest))
      | inr (id, after, e, u) ↦ inr (
        id,
        i ∷ after,
        ground (arith, e),
        record {
          front = i ∷ u.front;
          back = u.back;
          hit = u.hit;
          place = ap (λ l. i ∷ l) u.place;
          skipped = (none_here, u.skipped);
          passes = u.passes;
          named = u.named;
          result = ap (λ l. i ∷ l) u.result;
        },
      )
    ]
  ]

unfoldable pub count : (Incident → Bool) → List Incident → ℕ
count p is = length (select p is)

pub count-append :
    (p : Incident → Bool) (xs ys : List Incident) → count p (xs ++ ys) ≡ count p xs + count p ys
unfolding count
count-append p [] ys = omega arith
count-append p (x ∷ xs) ys = ground (arith, count-append p xs ys)

count-remove_at-le :
    (p : Incident → Bool) (k : ℕ) (is : List Incident) → count p (remove_at k is) ≤ count p is
unfolding count remove_at
count-remove_at-le p k [] = omega arith
count-remove_at-le p zero (i ∷ is) = ground arith
count-remove_at-le p (suc k) (i ∷ is) = ground (arith, count-remove_at-le p k is)

pub count-trim_rounds-le :
    (p : Incident → Bool) (fuel : ℕ) (is : List Incident)
    → count p (trim_rounds fuel is) ≤ count p is
unfolding trim_rounds
count-trim_rounds-le p zero is = omega arith
count-trim_rounds-le p (suc fuel) is =
    elim (Bool-cases (ltb max_incidents_per_instance (length is))) [
      | inr within ↦ ground arith
      | inl over ↦ elim (Option-cases (victim is)) [
        | inl e ↦ ground (arith, e, over)
        | inr (k, e) ↦ ground (
          arith,
          e,
          over,
          count-trim_rounds-le p fuel (remove_at k is),
          count-remove_at-le p k is,
        )
      ]
    ]
