-- ===== src/Engine/TopicIndex/Candidates.antt =====
-- `candidate_ids` finds every task that is indexed under a requested topic.
use bpmninja.Prelude.{
  inl, inr, refl, ap, ◌∙◌, String, ◌≡◌, Bool, true, false, List, [], ◌∷◌, eq_iff, nat_beq,
  nat_beq_iff, ◌==◌, string_eq, any, any-append, arith, Bool-cases,
}
use bpmninja.Domain.Error.{Uuid}
use bpmninja.Engine.TopicIndex.{
  TopicIndex, member, tasks_of, fresh_ids, candidates_from, candidate_ids,
}
use bpmninja.Engine.TopicIndex.Consistent.{indexed}

abbrev pub offers : Uuid → List (String × Uuid) → Bool
offers id cs = any (λ c. nat_beq c.1 id) cs

fresh_ids-offers :
    (topic : String) (ids seen : List Uuid) (id : Uuid)
    → member id ids ≡ true
    → member id seen ≡ false
    → offers id (fresh_ids topic ids seen).0 ≡ true
unfolding fresh_ids
fresh_ids-offers topic [] seen id here new = cc
fresh_ids-offers topic (x ∷ ids) seen id here new = elim (Bool-cases (nat_beq x id)) [
  | inl same ↦ ground (arith, same, new, ap (λ k. member k seen) ((nat_beq_iff x id).0 same))
  | inr other ↦ elim (Bool-cases (member x seen)) [
    | inl old ↦ ground (arith, old, fresh_ids-offers topic ids seen id (ground arith) new)
    | inr fresh ↦ ground (
      arith,
      fresh,
      other,
      fresh_ids-offers topic ids (x ∷ seen) id (ground arith) (ground arith),
    )
  ]
]

fresh_ids-seen :
    (topic : String) (ids seen : List Uuid) (id : Uuid)
    → offers id (fresh_ids topic ids seen).0 ≡ false
    → member id seen ≡ false
    → member id (fresh_ids topic ids seen).1 ≡ false
unfolding fresh_ids
fresh_ids-seen topic [] seen id none_new new = new
fresh_ids-seen topic (x ∷ ids) seen id none_new new = elim (Bool-cases (member x seen)) [
  | inl old ↦
      ground (arith, old, fresh_ids-seen topic ids seen id (ground (arith, old, none_new)) new)
  | inr fresh ↦ ground (arith, fresh, none_new, new, fresh_ids-seen topic ids (x ∷ seen) id)
]

candidates_from-offers :
    (index : TopicIndex) (topics : List String) (seen : List Uuid) (t : String) (id : Uuid)
    → member id seen ≡ false
    → any (λ topic. topic == t) topics ≡ true
    → indexed t id index ≡ true
    → offers id (candidates_from index topics seen) ≡ true
unfolding candidates_from
candidates_from-offers index [] seen t id new asked there = cc
candidates_from-offers index (topic ∷ topics) seen t id new asked there =
    let out = (fresh_ids topic (tasks_of topic index) seen).0 in
    let seen' = (fresh_ids topic (tasks_of topic index) seen).1 in
    rw (any-append (λ c. nat_beq c.1 id) out (candidates_from index topics seen'))
      (elim (Bool-cases (offers id out)) [
        | inl found ↦ rw found refl
        | inr missed ↦ elim (Bool-cases (topic == t)) [
          | inl same ↦ absurd (
              ground (
                arith,
                missed,
                fresh_ids-offers topic (tasks_of topic index) seen id
                    (ap (λ k. indexed k id index) ((eq_iff topic t).0 same) ∙ there) new,
              ))
          | inr other ↦ rw missed (
              candidates_from-offers index topics seen' t id
                (fresh_ids-seen topic (tasks_of topic index) seen id missed new) (ground arith)
                there)
        ]
      ])

pub candidate_ids-offers :
    (index : TopicIndex) (topics : List String) (t : String) (id : Uuid)
    → any (λ topic. topic == t) topics ≡ true
    → indexed t id index ≡ true
    → offers id (candidate_ids index topics) ≡ true
unfolding candidate_ids
candidate_ids-offers index topics t id asked there =
    candidates_from-offers index topics [] t id refl asked there
