-- ===== src/Engine/Incidents/Dedup.antt =====
-- A repeated disturbance is counted on its open incident, and a new one is recorded.
use bpmninja.Prelude.{
  ℕ, ◌≤◌, String, ◌≡◌, refl, ap, subst, ◌∙◌, ◌⊎◌, inl, inr, Bool, true, false, Option, none, some,
  List, [], ◌∷◌, ◌++◌, option_eq, option_beq_iff, nat_eq, string_eq, length, length-append, select,
  All, arith, Bool-cases,
}
use bpmninja.Domain.Error.{Uuid}
use bpmninja.Domain.Incident.{
  IncidentKind, Incident, max_incidents_per_instance, kind_eq, kind_beq_iff,
}
use bpmninja.Engine.Incidents.{
  is_open, matches, touch, update_first, trim_incidents, fresh_incident, push_or_touch_incident,
}
use bpmninja.Engine.Incidents.Bounds.{trim_incidents_bound}
use bpmninja.Engine.Incidents.Update.{
  Updated, update_cases, count, count-append, count-trim_rounds-le,
}

-- No two open incidents have the same kind, node and task.
abbrev pub IsDeduplicated : List Incident → Type 0
IsDeduplicated is =
    (kind : IncidentKind) (node_id : Option String) (task_id : Option Uuid)
    → length (select (matches kind node_id task_id) is) ≤ 1

none-count : (p : Incident → Bool) (is : List Incident) → All (λ i. p i ≡ false) is → count p is ≡ 0
unfolding count
none-count p [] h = refl
none-count p (i ∷ is) h = ground (arith, none-count p is h.1)

module _ (now : ℕ) (new_id : Uuid) (kind : IncidentKind) (node_id : Option String)
    (task_id : Option Uuid) (message : String) (details : Option String) where
  abbrev new_incident : Incident
  new_incident = fresh_incident now new_id kind node_id task_id message details

  abbrev report : List Incident → Uuid × List Incident
  report is = push_or_touch_incident now new_id kind node_id task_id message details is

  report_hit :
      (is : List Incident) (id : Uuid) (after : List Incident)
      → update_first (matches kind node_id task_id) (touch now message details) is
        ≡ some (id, after)
      → report is ≡ (id, after)
  unfolding push_or_touch_incident
  report_hit is id after e = rw (e, push_or_touch_incident)

  report_miss :
      (is : List Incident)
      → update_first (matches kind node_id task_id) (touch now message details) is ≡ none
      → report is ≡ (new_id, trim_incidents (is ++ new_incident ∷ []))
  unfolding push_or_touch_incident
  report_miss is e = rw (e, push_or_touch_incident)

  select-snoc :
      (is : List Incident)
      → select is_open (is ++ new_incident ∷ []) ≡ select is_open is ++ new_incident ∷ []
  select-snoc [] = refl
  select-snoc (i ∷ is) = ground (arith, select-snoc is)

  -- A disturbance for which an incident is open is counted on the first such incident, in its place,
  -- and that one's identifier is returned. Any other one gives a new incident under the new
  -- identifier, which comes after the open incidents, none of which is lost while fewer than 100
  -- are open.
  push_or_touch_incident_merges :
      (is : List Incident)
      → let (id, after) = report is in
        Updated (matches kind node_id task_id) (touch now message details) is id after
        ⊎ (All (λ i. matches kind node_id task_id i ≡ false) is
            × (id ≡ new_id)
            × ((max_incidents_per_instance ≤ length (select is_open is))
                ⊎ (select is_open after ≡ select is_open is ++ new_incident ∷ [])))
  push_or_touch_incident_merges is =
      elim (update_cases (matches kind node_id task_id) (touch now message details) is) [
        | inr (id, after, e, u) ↦ inl (rw (report_hit is id after e) u)
        | inl (e, nothing) ↦ inr (
          nothing,
          ap (λ r. r.0) (report_miss is e),
          elim (trim_incidents_bound (is ++ new_incident ∷ [])).1 [
            | inl many ↦ inl (
                omega (
                  arith,
                  ap length (select-snoc is),
                  length-append (select is_open is) (new_incident ∷ []),
                ))
            | inr kept ↦
                inr (ap (λ r. select is_open r.1) (report_miss is e) ∙ kept ∙ select-snoc is)
          ],
        )
      ]

  touch-count :
      (p : Incident → Bool) (front back : List Incident) (hit : Incident)
      → p (touch now message details hit) ≡ p hit
      → count p (front ++ touch now message details hit ∷ back) ≡ count p (front ++ hit ∷ back)
  unfolding count
  touch-count p [] back hit e = ground (arith, e)
  touch-count p (i ∷ front) back hit e = ground (arith, touch-count p front back hit e)

  touch-matches :
      (k : IncidentKind) (n : Option String) (t : Option Uuid) (i : Incident)
      → matches k n t (touch now message details i) ≡ matches k n t i
  unfolding touch
  touch-matches k n t i = refl

  same_key :
      (k : IncidentKind) (n : Option String) (t : Option Uuid)
      → matches k n t new_incident ≡ true
      → (kind ≡ k) × (node_id ≡ n) × (task_id ≡ t)
  same_key k n t h =
      ground (arith, kind_beq_iff kind k, option_beq_iff node_id n, option_beq_iff task_id t)

  new-once :
      (is : List Incident)
      → All (λ i. matches kind node_id task_id i ≡ false) is
      → IsDeduplicated is
      → (k : IncidentKind) (n : Option String) (t : Option Uuid)
      → length (select (matches k n t) (trim_incidents (is ++ new_incident ∷ []))) ≤ 1
  unfolding count trim_incidents
  new-once is nothing once k n t =
      let p = matches k n t in
      let all = is ++ new_incident ∷ [] in
      let fewer = count-trim_rounds-le p (length all) all in
      let sum = count-append p is (new_incident ∷ []) in
      elim (Bool-cases (matches k n t new_incident)) [
        | inr other ↦ ground (arith, fewer, sum, other, once k n t)
        | inl same ↦
            let (ek, en, et) = same_key k n t same in
            let absent : count p is ≡ 0 =
              rw (← ek, ← en, ← et) (none-count (matches kind node_id task_id) is nothing) in
            ground (arith, fewer, sum, same, absent)
      ]

  -- Whatever is reported, open incidents stay distinct in kind, node and task, and the list stays
  -- within its limit of 100.
  pub push_or_touch_incident-IsDeduplicated :
      (is : List Incident)
      → IsDeduplicated is
      → length is ≤ max_incidents_per_instance
      → IsDeduplicated (report is).1 × (length (report is).1 ≤ max_incidents_per_instance)
  unfolding count
  push_or_touch_incident-IsDeduplicated is once bound =
      elim (update_cases (matches kind node_id task_id) (touch now message details) is) [
        | inr (id, after, e, u) ↦
            let front = u.front in
            rw (report_hit is id after e, u.result)
              (
                λ k n t. omega (
                  arith,
                  touch-count (matches k n t) u.front u.back u.hit (touch-matches k n t u.hit),
                  subst (λ l. length (select (matches k n t) l) ≤ 1) u.place (once k n t),
                ),
                omega (
                  arith,
                  ap length u.place,
                  length-append u.front (u.hit ∷ u.back),
                  length-append u.front (touch now message details u.hit ∷ u.back),
                ),
              )
        | inl (e, nothing) ↦ rw (report_miss is e) (
          λ k n t. new-once is nothing once k n t,
          (trim_incidents_bound (is ++ new_incident ∷ [])).0,
        )
      ]
