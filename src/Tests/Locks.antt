-- ===== src/Tests/Locks.antt =====
-- The theorems on complete fetches and on extended locks at concrete inputs.
use bpmninja.Prelude.{String, ◌≡◌, refl, true, [], ◌∷◌, Map, get, insert, nat_eq, string_eq, arith}
use bpmninja.Prelude.Int.{ℤ, pos}
use bpmninja.Engine.TopicIndex.{
  insert_pending_service_task, index_insert, candidate_ids, candidates_from, fresh_ids,
}
use bpmninja.Engine.ServiceTask.{
  ServiceTaskFetchAudience, is_fetchable, fetch_and_lock_inner, fetch_loop, fetch_step,
  lock_time_delta,
}
use bpmninja.Engine.ServiceTask.Complete.{returned, fetch_and_lock_inner_complete}
use bpmninja.Tests.State.{free, one_task, one_task-IsConsistent}

abbrev printing : Map String ℤ
printing = ("print", pos 60) ∷ []

fetch_and_lock_inner_complete_example :
    returned 7
      (fetch_and_lock_inner 40 "w1" 5 printing ServiceTaskFetchAudience.external_worker one_task).0
    ≡ true
unfolding get insert index_insert insert_pending_service_task is_fetchable fetch_and_lock_inner
    fetch_loop fetch_step candidate_ids candidates_from fresh_ids lock_time_delta
fetch_and_lock_inner_complete_example =
    fetch_and_lock_inner_complete 40 "w1" 5 printing ServiceTaskFetchAudience.external_worker
      one_task 7 free one_task-IsConsistent refl refl refl (omega arith)
