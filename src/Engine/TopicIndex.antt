-- ===== src/Engine/TopicIndex.antt =====
-- engine-core/src/engine/topic_index.rs: which service tasks wait under which topic. A set is a
-- list without repetitions, in the order in which it is iterated.
pub mod Consistent
pub mod Candidates
use bpmninja.Prelude.{
  ℕ, String, Bool, true, false, not, Option, none, some, List, [], ◌∷◌, ◌++◌, Map, map, get, insert,
  remove, nat_eq, string_eq, if◌then◌else◌, nat_beq, any, select,
}
use bpmninja.Domain.Error.{Uuid}
use bpmninja.Runtime.Pending.{PendingServiceTask}
use bpmninja.Runtime.State.{Engine, notify_service_tasks, emit}

abbrev pub TopicIndex : Type 0
TopicIndex = Map String (List Uuid)

abbrev pub member : Uuid → List Uuid → Bool
member id set = any (λ x. nat_beq x id) set

abbrev pub set_insert : Uuid → List Uuid → List Uuid
set_insert id set = if member id set then set else set ++ id ∷ []

unfoldable pub set_remove : Uuid → List Uuid → List Uuid
set_remove id [] = []
set_remove id (x ∷ set) = if nat_beq x id then set_remove id set else x ∷ set_remove id set

abbrev pub tasks_of : String → TopicIndex → List Uuid
tasks_of topic index = elim (get topic index) [ none ↦ [] | some set ↦ set ]

unfoldable pub index_insert : String → Uuid → TopicIndex → TopicIndex
index_insert topic id index = insert topic (set_insert id (tasks_of topic index)) index

-- A topic goes when its set gets empty.
abbrev pub store_set : String → List Uuid → TopicIndex → TopicIndex
store_set topic [] index = remove topic index
store_set topic (x ∷ set) index = insert topic (x ∷ set) index

unfoldable pub index_remove : String → Uuid → TopicIndex → TopicIndex
index_remove topic id index = elim (get topic index) [
  | none ↦ index
  | some set ↦ store_set topic (set_remove id set) index
]

-- The inner loop of `candidate_ids`: the identifiers not seen yet, and all that are seen then.
unfoldable pub fresh_ids : String → List Uuid → List Uuid → List (String × Uuid) × List Uuid
fresh_ids topic [] seen = ([], seen)
fresh_ids topic (id ∷ ids) seen =
    if member id seen
    then fresh_ids topic ids seen
    else (let (out, seen') = fresh_ids topic ids (id ∷ seen) in ((topic, id) ∷ out, seen'))

unfoldable pub candidates_from : TopicIndex → List String → List Uuid → List (String × Uuid)
unfolding fresh_ids
candidates_from index [] seen = []
candidates_from index (topic ∷ topics) seen =
    let (out, seen') = fresh_ids topic (tasks_of topic index) seen in
    out ++ candidates_from index topics seen'

unfoldable pub candidate_ids : TopicIndex → List String → List (String × Uuid)
unfolding candidates_from
candidate_ids index topics = candidates_from index topics []

module _ {V : Type 0} where
  unfoldable pub insert_pending_service_task : PendingServiceTask V → Engine V → Engine V
  unfolding index_insert
  insert_pending_service_task task s = emit notify_service_tasks (record s {
    pending_service_tasks = insert task.id task s.pending_service_tasks;
    service_task_topic_index = index_insert task.topic task.id s.service_task_topic_index;
  })

  -- `remove_pending_service_task` is the case of a test that always passes.
  unfoldable pub remove_pending_service_task_if :
      Uuid → (PendingServiceTask V → Bool) → Engine V → Option (PendingServiceTask V) × Engine V
  unfolding index_remove
  remove_pending_service_task_if task_id f s = elim (get task_id s.pending_service_tasks) [
    | none ↦ (none, s)
    | some task ↦
        if f task
        then (
          some task,
          record s {
            pending_service_tasks = remove task_id s.pending_service_tasks;
            service_task_topic_index = index_remove task.topic task.id s.service_task_topic_index;
          },
        )
        else (none, s)
  ]

  unfoldable pub remove_pending_service_task :
      Uuid → Engine V → Option (PendingServiceTask V) × Engine V
  unfolding remove_pending_service_task_if
  remove_pending_service_task task_id = remove_pending_service_task_if task_id (λ _. true)

  -- The loop that drops the stale entries of the index.
  unfoldable pub remove_stale : List (Uuid × PendingServiceTask V) → TopicIndex → TopicIndex
  unfolding index_remove
  remove_stale [] index = index
  remove_stale ((_, task) ∷ stale) index =
      remove_stale stale (index_remove task.topic task.id index)

  unfoldable pub clear_pending_service_tasks_for_instance : Uuid → Engine V → Engine V
  unfolding remove_stale
  clear_pending_service_tasks_for_instance instance_id s = record s {
    pending_service_tasks =
        select (λ e. not (nat_beq e.1.instance_id instance_id)) s.pending_service_tasks;
    service_task_topic_index =
        remove_stale (select (λ e. nat_beq e.1.instance_id instance_id) s.pending_service_tasks)
          s.service_task_topic_index;
  }
