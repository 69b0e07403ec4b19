-- ===== src/Engine/TopicIndex/Consistent.antt =====
-- The topic index agrees with the map of pending tasks.
use bpmninja.Prelude.{
  inl, inr, sym, String, ◌≡◌, refl, ap, Bool, true, false, ◌||◌, ◌&&◌, not, Option, none, some,
  List, [], ◌∷◌, ◌++◌, get, insert, get-insert, get-remove, nat_eq, string_eq, eq_iff, nat_beq,
  nat_beq_iff, ◌==◌, if◌then◌else◌, arith, Bool-cases, Option-cases,
}
use bpmninja.Domain.Error.{Uuid}
use bpmninja.Runtime.Pending.{PendingServiceTask}
use bpmninja.Runtime.State.{Engine}
use bpmninja.Engine.TopicIndex.{
  TopicIndex, member, set_insert, set_remove, tasks_of, index_insert, store_set, index_remove,
  insert_pending_service_task, remove_pending_service_task_if,
}

member-append :
    (id : Uuid) (xs ys : List Uuid) → member id (xs ++ ys) ≡ (member id xs || member id ys)
member-append id [] ys = refl
member-append id (x ∷ xs) ys = ground (arith, member-append id xs ys)

-- A test on a number that the list has.
member-same : (id x : Uuid) (set : List Uuid) → nat_beq x id ≡ true → member x set ≡ member id set
member-same id x set same = ap (λ k. member k set) ((nat_beq_iff x id).0 same)

member-set_insert :
    (id x : Uuid) (set : List Uuid) → member id (set_insert x set) ≡ (nat_beq x id || member id set)
member-set_insert id x set = elim (Bool-cases (member x set)) [
  | inl there ↦ elim (Bool-cases (nat_beq x id)) [
    | inl same ↦ ground (arith, there, same, member-same id x set same)
    | inr other ↦ ground (arith, there, other)
  ]
  | inr absent ↦ ground (arith, absent, member-append id set (x ∷ []))
]

member-set_remove :
    (id x : Uuid) (set : List Uuid)
    → member id (set_remove x set) ≡ (not (nat_beq x id) && member id set)
unfolding set_remove
member-set_remove id x [] = ground arith
member-set_remove id x (y ∷ set) =
    ground (arith, member-set_remove id x set, nat_beq_iff y x, nat_beq_iff x id, nat_beq_iff y id)

-- What the index says of one topic and one task.
abbrev pub indexed : String → Uuid → TopicIndex → Bool
indexed topic id index = member id (tasks_of topic index)

tasks_of-insert :
    (t topic : String) (set : List Uuid) (index : TopicIndex)
    → tasks_of t (insert topic set index) ≡ (if topic == t then set else tasks_of t index)
tasks_of-insert t topic set index = ground (arith, get-insert topic t set index)

tasks_of-store_set :
    (t topic : String) (set : List Uuid) (index : TopicIndex)
    → tasks_of t (store_set topic set index) ≡ (if topic == t then set else tasks_of t index)
tasks_of-store_set t topic [] index = ground (arith, get-remove topic t index)
tasks_of-store_set t topic (x ∷ set) index = tasks_of-insert t topic (x ∷ set) index

tasks_of-same :
    (t topic : String) (index : TopicIndex)
    → (topic == t) ≡ true
    → tasks_of topic index ≡ tasks_of t index
tasks_of-same t topic index same = ap (λ k. tasks_of k index) ((eq_iff topic t).0 same)

indexed-insert :
    (t : String) (i : Uuid) (topic : String) (id : Uuid) (index : TopicIndex)
    → indexed t i (index_insert topic id index)
      ≡ ((topic == t && nat_beq id i) || indexed t i index)
unfolding index_insert
indexed-insert t i topic id index = elim (Bool-cases (topic == t)) [
  | inl same ↦
      rw
        (
          tasks_of-insert t topic (set_insert id (tasks_of topic index)) index,
          same,
          tasks_of-same t topic index same,
        )
        (member-set_insert i id (tasks_of t index))
  | inr other ↦
      rw (tasks_of-insert t topic (set_insert id (tasks_of topic index)) index, other) refl
]

tasks_of-index_remove :
    (t topic : String) (id : Uuid) (index : TopicIndex)
    → tasks_of t (index_remove topic id index)
      ≡ (if topic == t then set_remove id (tasks_of topic index) else tasks_of t index)
unfolding index_remove set_remove
tasks_of-index_remove t topic id index = elim (Option-cases (get topic index)) [
  | inl missing ↦ ground (arith, missing, tasks_of-same t topic index)
  | inr (set, found) ↦
      rw (found, index_remove)
        (rw (tasks_of-store_set t topic (set_remove id set) index) (rw (found, tasks_of) refl))
]

pub indexed-remove :
    (t : String) (i : Uuid) (topic : String) (id : Uuid) (index : TopicIndex)
    → indexed t i (index_remove topic id index)
      ≡ (not (topic == t && nat_beq id i) && indexed t i index)
indexed-remove t i topic id index = elim (Bool-cases (topic == t)) [
  | inl same ↦
      rw (tasks_of-index_remove t topic id index, same, tasks_of-same t topic index same)
        (member-set_remove i id (tasks_of t index))
  | inr other ↦ rw (tasks_of-index_remove t topic id index, other) refl
]

module _ {V : Type 0} where
  unfoldable pub has_topic : String → Option (PendingServiceTask V) → Bool
  has_topic t none = false
  has_topic t (some task) = task.topic == t

  -- The index has a task under its own topic and under no other, it has no entry without a task,
  -- and a task stands under its own identifier.
  unfoldable pub IsConsistent : Engine V → Type 0
  unfolding has_topic
  IsConsistent s =
      ((t : String) (i : Uuid)
        → indexed t i s.service_task_topic_index ≡ has_topic t (get i s.pending_service_tasks))
      × ((i : Uuid) (task : PendingServiceTask V)
          → get i s.pending_service_tasks ≡ some task
          → task.id ≡ i)

  -- Registering a task under a new identifier keeps the index consistent.
  pub insert_pending_service_task-IsConsistent :
      (task : PendingServiceTask V) (s : Engine V)
      → IsConsistent s
      → get task.id s.pending_service_tasks ≡ none
      → IsConsistent (insert_pending_service_task task s)
  unfolding insert_pending_service_task IsConsistent has_topic
  insert_pending_service_task-IsConsistent task s (agree, own) fresh = (
    (λ t i. rw (indexed-insert t i task.topic task.id s.service_task_topic_index) (
        rw (get-insert task.id i task s.pending_service_tasks) (
          rw (agree t i) (elim (Bool-cases (nat_beq task.id i)) [
            | inl same ↦ rw same (ground arith)
            | inr other ↦ rw other (ground arith)
          ])))),
    (λ i found e. ground (
      arith,
      e,
      get-insert task.id i task s.pending_service_tasks,
      own i found,
      nat_beq_iff task.id i,
    )),
  )

  -- Taking a task out, if it passes a test, keeps the index consistent.
  pub remove_pending_service_task_if-IsConsistent :
      (id : Uuid) (f : PendingServiceTask V → Bool) (s : Engine V)
      → IsConsistent s
      → IsConsistent (remove_pending_service_task_if id f s).1
  unfolding remove_pending_service_task_if IsConsistent has_topic
  remove_pending_service_task_if-IsConsistent id f s (agree, own) =
      elim (Option-cases (get id s.pending_service_tasks)) [
        | inl missing ↦ rw (missing, remove_pending_service_task_if) (agree, own)
        | inr (task, found) ↦ elim (Bool-cases (f task)) [
          | inl passes ↦
              rw (found, remove_pending_service_task_if)
                (rw passes (
                  (λ t i. rw (indexed-remove t i task.topic task.id s.service_task_topic_index) (
                      rw (get-remove id i s.pending_service_tasks) (
                        rw (agree t i) (
                          rw (own id task found) (elim (Bool-cases (nat_beq id i)) [
                            | inl same ↦
                                rw
                                  (
                                    same,
                                    sym (
                                        ap (λ k. get k s.pending_service_tasks)
                                          ((nat_beq_iff id i).0 same)),
                                    found,
                                  )
                                  (ground arith)
                            | inr other ↦ rw other (ground arith)
                          ]))))),
                  (λ i kept e.
                      ground (arith, e, get-remove id i s.pending_service_tasks, own i kept)),
                ))
          | inr fails ↦ rw (found, remove_pending_service_task_if) (rw fails (agree, own))
        ]
      ]
