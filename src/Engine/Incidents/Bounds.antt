-- ===== src/Engine/Incidents/Bounds.antt =====
-- The incident list and the audit log stay within their limits, and trimming spares open incidents.
use bpmninja.Prelude.{
  leb, ℕ, zero, suc, ◌+◌, ◌≤◌, ◌<◌, ◌≡◌, ◌≢◌, refl, ap, ◌∙◌, ◌⊎◌, inl, inr, Bool, true, false,
  Option, none, some, List, [], ◌∷◌, is_some, ltb, ltb→lt, length, get_elem?, select, All, arith,
  Bool-cases,
}
use bpmninja.Domain.Incident.{Incident, max_incidents_per_instance}
use bpmninja.Engine.Incidents.{
  is_open, oldest, consider, victim, remove_at, trim_rounds, trim_incidents,
}

abbrev PassesAt : (Incident → Bool) → List Incident → ℕ → Type 0
PassesAt p is k = (i : Incident) × (get_elem? is k ≡ some i) × (p i ≡ true)

-- What the scan gives: the earlier candidate, or an index of the list that passes the test.
abbrev Scanned : (Incident → Bool) → ℕ → Option (ℕ × ℕ) → List Incident → Type 0
Scanned p k best is =
    ((oldest p k best is ≡ none) × (best ≡ none) × All (λ i. p i ≡ false) is)
    ⊎ ((oldest p k best is ≡ best) × (best ≢ none))
    ⊎ ((m at : ℕ) × (oldest p k best is ≡ some (k + m, at)) × PassesAt p is m)

consider_cases :
    (b : Bool) (k c : ℕ) (best : Option (ℕ × ℕ))
    → ((consider b k c best ≡ best) × ((b ≡ false) ⊎ (best ≢ none)))
      ⊎ ((consider b k c best ≡ some (k, c)) × (b ≡ true))
consider_cases false k c best = inl (refl, inl refl)
consider_cases true k c none = inr (refl, refl)
consider_cases true k c (some (j, at)) = elim (Bool-cases (ltb c at)) [
  | inl less ↦ inr (rw less, refl)
  | inr more ↦ inl (rw more, inr (λ e. cc))
]

abbrev slot : ℕ → ℕ → Option (ℕ × ℕ)
slot k at = some (k, at)

later :
    (p : Incident → Bool) (k : ℕ) (i : Incident) (is : List Incident) (m at : ℕ)
    → PassesAt p is m
    → (m' at' : ℕ) × (slot (suc k + m) at ≡ slot (k + m') at') × PassesAt p (i ∷ is) m'
later p k i is m at w = (suc m, at, ap (λ n. slot n at) (omega arith), w)

scan :
    (p : Incident → Bool) (k : ℕ) (best : Option (ℕ × ℕ)) (is : List Incident) → Scanned p k best is
unfolding oldest
scan p k none [] = inl (refl, refl, tt)
scan p k (some b) [] = inr (inl (refl, λ e. cc))
scan p k best (i ∷ is) = elim (consider_cases (p i) k i.created_at best) [
  | inl (same, why) ↦ rw same (elim (scan p (suc k) best is) [
    | inl (e, nothing, rest) ↦ elim why [
      | inl fails ↦ inl (e, nothing, (fails, rest))
      | inr some_best ↦ absurd (some_best nothing)
    ]
    | inr (inl (e, h)) ↦ inr (inl (e, h))
    | inr (inr (m, at, e, w)) ↦
        let (m', at', e', w') = later p k i is m at w in inr (inr (m', at', e ∙ e', w'))
  ])
  | inr (new, hit) ↦ rw new (elim (scan p (suc k) (some (k, i.created_at)) is) [
    | inl (e, nothing, rest) ↦ cc
    | inr (inl (e, h)) ↦
        inr (inr (0, i.created_at, e ∙ ap (λ n. slot n i.created_at) (omega arith), (i, refl, hit)))
    | inr (inr (m, at, e, w)) ↦
        let (m', at', e', w') = later p k i is m at w in inr (inr (m', at', e ∙ e', w'))
  ])
]

empty_of : (is : List Incident) → is ≢ [] → All (λ i. true ≡ false) is → ⊥
empty_of [] h all = h refl
empty_of (i ∷ is) h all = cc (all.0)

-- The entry that is removed lies in the list, and is a resolved one if there is any.
victim_cases :
    (is : List Incident)
    → is ≢ []
    → (k : ℕ) × (victim is ≡ some k)
      × (PassesAt (λ i. is_some i.resolved_at) is k
          ⊎ (PassesAt (λ _. true) is k × All (λ i. is_some i.resolved_at ≡ false) is))
unfolding victim
victim_cases is h = elim (scan (λ i. is_some i.resolved_at) 0 none is) [
  | inr (inr (m, at, e, w)) ↦ (m, ground (arith, e), inl w)
  | inr (inl (e, b)) ↦ absurd (b refl)
  | inl (e, _, all_open) ↦ elim (scan (λ _. true) 0 none is) [
    | inr (inr (m, at, e', w)) ↦ (m, ground (arith, e, e'), inr (w, all_open))
    | inr (inl (_, b)) ↦ absurd (b refl)
    | inl (_, _, none_at_all) ↦ absurd (empty_of is h none_at_all)
  ]
]

length-remove_at :
    (p : Incident → Bool) (k : ℕ) (is : List Incident)
    → PassesAt p is k
    → length is ≡ suc (length (remove_at k is))
unfolding remove_at
length-remove_at p k [] (i, e, h) = cc
length-remove_at p zero (x ∷ is) w = refl
length-remove_at p (suc k) (x ∷ is) w = ap suc (length-remove_at p k is w)

-- Removing a resolved incident keeps the open ones.
open-remove_at :
    (k : ℕ) (is : List Incident)
    → PassesAt (λ i. is_some i.resolved_at) is k
    → select is_open (remove_at k is) ≡ select is_open is
unfolding remove_at
open-remove_at k [] (i, e, h) = cc
open-remove_at zero (x ∷ is) (i, e, h) = ground arith
open-remove_at (suc k) (x ∷ is) w = ground (arith, open-remove_at k is w)

length-open :
    (is : List Incident)
    → All (λ i. is_some i.resolved_at ≡ false) is
    → length (select is_open is) ≡ length is
length-open [] h = refl
length-open (i ∷ is) h = ground (arith, length-open is h.1)

ne_nil : (is : List Incident) → 0 < length is → is ≢ []
ne_nil [] h = elim h [ ]
ne_nil (i ∷ is) h = λ e. cc

trim_rounds-le :
    (fuel : ℕ) (is : List Incident)
    → length is ≤ fuel + max_incidents_per_instance
    → length (trim_rounds fuel is) ≤ max_incidents_per_instance
unfolding trim_rounds
trim_rounds-le zero is h = omega arith
trim_rounds-le (suc fuel) is h = elim (Bool-cases (ltb max_incidents_per_instance (length is))) [
  | inr within ↦ ground arith
  | inl over ↦
      let lt = ltb→lt max_incidents_per_instance (length is) over in
      let (k, e, w) = victim_cases is (ne_nil is (omega arith)) in
      let shorter : length is ≡ suc (length (remove_at k is)) = elim w [
        | inl r ↦ length-remove_at (λ i. is_some i.resolved_at) k is r
        | inr (r, _) ↦ length-remove_at (λ _. true) k is r
      ] in
      ground (arith, e, over, trim_rounds-le fuel (remove_at k is) (omega arith))
]

trim_rounds-open :
    (fuel : ℕ) (is : List Incident)
    → length (select is_open is) ≤ max_incidents_per_instance
    → select is_open (trim_rounds fuel is) ≡ select is_open is
unfolding trim_rounds
trim_rounds-open zero is h = refl
trim_rounds-open (suc fuel) is h = elim (Bool-cases (ltb max_incidents_per_instance (length is))) [
  | inr within ↦ ground arith
  | inl over ↦
      let lt = ltb→lt max_incidents_per_instance (length is) over in
      let (k, e, w) = victim_cases is (ne_nil is (omega arith)) in
      elim w [
        | inl resolved ↦
            let kept = open-remove_at k is resolved in
            let rest = trim_rounds-open fuel (remove_at k is) (omega (arith, ap length kept)) in
            ground (arith, e, over, rest, kept)
        | inr (_, all_open) ↦ absurd (omega (arith, length-open is all_open))
      ]
]

trim_incidents-open :
    (is : List Incident)
    → (max_incidents_per_instance < length (select is_open is))
      ⊎ (select is_open (trim_incidents is) ≡ select is_open is)
unfolding trim_incidents
trim_incidents-open is =
    elim (Bool-cases (leb (length (select is_open is)) max_incidents_per_instance)) [
      | inl few ↦ inr (trim_rounds-open (length is) is (ground arith))
      | inr many ↦ inl (ground arith)
    ]

-- Trimming leaves at most 100 incidents, and drops no open incident unless more than 100 are open.
pub trim_incidents_bound :
    (is : List Incident)
    → (length (trim_incidents is) ≤ max_incidents_per_instance)
      × ((max_incidents_per_instance < length (select is_open is))
          ⊎ (select is_open (trim_incidents is) ≡ select is_open is))
unfolding trim_incidents
trim_incidents_bound is = (trim_rounds-le (length is) is (omega arith), trim_incidents-open is)
