-- ===== src/Engine/Waits/Consistent.antt =====
-- Ending the waits of an instance keeps the topic index and the due index in agreement with the
-- pending tasks and timers.
use bpmninja.Prelude.{
  ℕ, ◌≡◌, refl, sym, ◌∙◌, ap, subst, String, Bool, false, not, ◌&&◌, Option, none, some, List, [],
  ◌∷◌, Map, get, nat_eq, string_eq, ◌==◌, nat_beq, nat_beq_iff, kept, get-select, any, select, All,
  arith, Bool-cases, inl, inr,
}
use bpmninja.Domain.Error.{Uuid}
use bpmninja.Runtime.Pending.{PendingServiceTask, PendingTimer}
use bpmninja.Runtime.State.{Engine}
use bpmninja.Engine.TopicIndex.{
  TopicIndex, index_remove, remove_stale, clear_pending_service_tasks_for_instance,
}
use bpmninja.Engine.TopicIndex.Consistent.{indexed, has_topic, IsConsistent, indexed-remove}
use bpmninja.Engine.TimerIndex.{TimerDueIndex, due_remove, unschedule, retain_pending_timers}
use bpmninja.Engine.TimerIndex.Due.{scheduled, expires, IsTimed, scheduled-due_remove}
use bpmninja.Engine.Waits.{drop_waits}
use bpmninja.Engine.Waits.Released.{IsKeyed, HasKeyedWaits}
use bpmninja.Engine.Waits.Dropped.{
  retain_pending_timers_keeps, retain_pending_timers_retained, retain_pending_timers_unscheduled,
}

abbrev holds_of : {A : Type 0} → (A → Bool) → Option A → Bool
holds_of q none = false
holds_of q (some v) = q v

-- A test `q` on the entry of an identifier, when the entries that pass `gone` are dropped.
module _ {A : Type 0} (ident : A → Uuid) (q keep gone : A → Bool) (i : Uuid)
    (split : (v : A) → keep v ≡ not (gone v)) where
  abbrev dropped_here : List (Uuid × A) → Bool
  dropped_here m = any (λ e. q e.1 && nat_beq (ident e.1) i) (select (λ e. gone e.1) m)

  dropped_here-none :
      (m : Map Uuid A) → All (λ e. ident e.1 ≡ e.0) m → get i m ≡ none → dropped_here m ≡ false
  unfolding get
  dropped_here-none [] own absent = refl
  dropped_here-none ((j, v) ∷ m) own absent = ground (arith, own.0, dropped_here-none m own.1)

  kept_none : (m : Map Uuid A) → get i m ≡ none → get i (select (λ e. keep e.1) m) ≡ none
  unfolding get
  kept_none [] absent = refl
  kept_none ((j, v) ∷ m) absent = ground (arith, split v, kept_none m)

  holds_of-select :
      (m : Map Uuid A)
      → IsKeyed ident m
      → holds_of q (get i (select (λ e. keep e.1) m))
        ≡ (not (dropped_here m) && holds_of q (get i m))
  unfolding get
  holds_of-select [] keyed = refl
  holds_of-select ((j, v) ∷ m) ((fresh, distinct), (own, rest)) = elim (Bool-cases (nat_beq j i)) [
    | inl same ↦
        let absent : get i m ≡ none =
          subst (λ k. get k m ≡ none) ((nat_beq_iff j i).0 same) fresh in
        ground (arith, own, same, split v, dropped_here-none m rest absent, kept_none m absent)
    | inr other ↦ ground (arith, own, other, split v, holds_of-select m (distinct, rest))
  ]

kept_was : {A : Type 0} (p : A → Bool) (o : Option A) (v : A) → kept p o ≡ some v → o ≡ some v
kept_was p none v h = cc
kept_was p (some w) v h = elim (Bool-cases (p w)) [
  | inl yes_kept ↦ ground (arith, yes_kept, h)
  | inr no_kept ↦ ground (arith, no_kept, h)
]

-- What the loops over the dropped entries take out of the two indexes.
indexed-remove_stale :
    {V : Type 0} (t : String) (i : Uuid) (stale : List (Uuid × PendingServiceTask V))
    (index : TopicIndex)
    → indexed t i (remove_stale stale index)
      ≡ (not (any (λ e. e.1.topic == t && nat_beq e.1.id i) stale) && indexed t i index)
unfolding remove_stale
indexed-remove_stale t i [] index = ground arith
indexed-remove_stale t i ((j, task) ∷ stale) index =
    indexed-remove_stale t i stale (index_remove task.topic task.id index)
    ∙ rw (indexed-remove t i task.topic task.id index) (ground arith)

scheduled-unschedule :
    (at : ℕ) (i : Uuid) (dropped : List (Uuid × PendingTimer)) (index : TimerDueIndex)
    → scheduled (at, i) (unschedule dropped index) ≡ (
        not (any (λ e. nat_beq e.1.expires_at at && nat_beq e.1.id i) dropped)
        && scheduled (at, i) index)
unfolding unschedule
scheduled-unschedule at i [] index = ground arith
scheduled-unschedule at i ((j, timer) ∷ dropped) index =
    scheduled-unschedule at i dropped (due_remove (timer.expires_at, timer.id) index)
    ∙ rw (scheduled-due_remove at i (timer.expires_at, timer.id) index) (ground arith)

expires-holds_of :
    (at : ℕ) (o : Option PendingTimer)
    → expires at o ≡ holds_of (λ timer. nat_beq timer.expires_at at) o
expires-holds_of at none = refl
expires-holds_of at (some timer) = refl

module _ {V : Type 0} where
  has_topic-holds_of :
      (t : String) (o : Option (PendingServiceTask V))
      → has_topic t o ≡ holds_of (λ task. task.topic == t) o
  unfolding has_topic
  has_topic-holds_of t none = refl
  has_topic-holds_of t (some task) = refl

  -- `IsConsistent`, of the tasks and the index.
  abbrev Agree : Map Uuid (PendingServiceTask V) × TopicIndex → Type 0
  Agree (tasks, index) =
      ((t : String) (i : Uuid) → indexed t i index ≡ has_topic t (get i tasks))
      × ((i : Uuid) (task : PendingServiceTask V) → get i tasks ≡ some task → task.id ≡ i)

  clear-IsConsistent :
      (id : Uuid) (s : Engine V)
      → IsKeyed (λ (t : PendingServiceTask V). t.id) s.pending_service_tasks
      → IsConsistent s
      → IsConsistent (clear_pending_service_tasks_for_instance id s)
  unfolding clear_pending_service_tasks_for_instance IsConsistent
  clear-IsConsistent id s keyed (agree, own) = (
    (λ t i.
        indexed-remove_stale t i (select (λ e. nat_beq e.1.instance_id id) s.pending_service_tasks)
          s.service_task_topic_index
        ∙ ap
            (λ b.
              not (
                dropped_here (λ task. task.id) (λ task. task.topic == t)
                  (λ task. not (nat_beq task.instance_id id)) (λ task. nat_beq task.instance_id id)
                  i (λ task. refl) s.pending_service_tasks)
              && b)
            (agree t i ∙ has_topic-holds_of t (get i s.pending_service_tasks))
        ∙ sym (
            holds_of-select (λ task. task.id) (λ task. task.topic == t)
              (λ task. not (nat_beq task.instance_id id)) (λ task. nat_beq task.instance_id id) i
              (λ task. refl) s.pending_service_tasks keyed)
        ∙ sym (has_topic-holds_of t _)),
    (λ i task found. own i task (
        kept_was (λ task. not (nat_beq task.instance_id id)) _ task
          (sym (
              get-select i (λ task. not (nat_beq task.instance_id id)) s.pending_service_tasks
                keyed.0)
            ∙ found))),
  )

  retain-IsTimed :
      (id : Uuid) (s : Engine V)
      → IsKeyed (λ (t : PendingTimer). t.id) s.pending_timers
      → IsTimed s
      → IsTimed (retain_pending_timers (λ t. not (nat_beq t.instance_id id)) s)
  retain-IsTimed id s keyed (agree, own) = (
    (λ at i.
        ap (λ index. scheduled (at, i) index) (retain_pending_timers_unscheduled keep s)
        ∙ scheduled-unschedule at i (select (λ e. not (keep e.1)) s.pending_timers)
            s.timer_due_index
        ∙ ap
            (λ b.
              not (
                dropped_here (λ t. t.id) (λ t. nat_beq t.expires_at at) keep (λ t. not (keep t)) i
                  twice s.pending_timers)
              && b)
            (agree at i ∙ expires-holds_of at (get i s.pending_timers))
        ∙ sym (
            holds_of-select (λ t. t.id) (λ t. nat_beq t.expires_at at) keep (λ t. not (keep t)) i
              twice s.pending_timers keyed)
        ∙ sym (expires-holds_of at _)
        ∙ ap (λ m. expires at (get i m)) (sym (retain_pending_timers_retained keep s))),
    (λ i timer found. own i timer (
        kept_was keep _ timer (
          sym (get-select i keep s.pending_timers keyed.0)
          ∙ sym (ap (λ m. get i m) (retain_pending_timers_retained keep s))
          ∙ found))),
  )
    where
      keep : PendingTimer → Bool
      keep t = not (nat_beq t.instance_id id)

      twice : (t : PendingTimer) → keep t ≡ not (not (keep t))
      twice t = ground arith

  -- Where every pending map has its entries under their own identifiers, the clean-up of a terminated
  -- or deleted instance keeps the topic index and the due index consistent.
  pub drop_waits-IsConsistent :
      (id : Uuid) (s : Engine V)
      → HasKeyedWaits s
      → IsConsistent s
      → IsTimed s
      → IsConsistent (drop_waits id s) × IsTimed (drop_waits id s)
  unfolding drop_waits clear_pending_service_tasks_for_instance IsConsistent
  drop_waits-IsConsistent id s keyed consistent timed =
      let users = record s {
        pending_user_tasks = select (λ e. not (nat_beq e.1.instance_id id)) s.pending_user_tasks;
      } in
      let services = clear_pending_service_tasks_for_instance id users in
      (
        subst Agree
            (sym (
              retain_pending_timers_keeps
                (λ s. (s.pending_service_tasks, s.service_task_topic_index)) (λ s m i e. refl)
                (λ t. not (nat_beq t.instance_id id)) services))
            (clear-IsConsistent id users keyed.services consistent),
        retain-IsTimed id services keyed.timers timed,
      )
