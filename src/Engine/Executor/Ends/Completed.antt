-- ===== src/Engine/Executor/Ends/Completed.antt =====
-- When the end of a path ends its instance.
use bpmninja.Prelude.{
  ℕ, ◌≡◌, refl, sym, ◌∙◌, ap, ◌⊎◌, inl, inr, true, false, some, List, [], ◌∷◌, get, insert, remove,
  get-insert, get-insert_self, subst, nat_eq, nat_beq, nat_beq_iff, if◌then◌else◌, All, arith,
  Bool-cases,
}
use bpmninja.Domain.Error.{Uuid, ok}
use bpmninja.Domain.Token.{Token}
use bpmninja.Runtime.Instance.{
  ProcessInstance, InstanceState, EventSubscription, every_token_completed,
}
use bpmninja.Runtime.State.{Engine}
use bpmninja.Engine.Incidents.{push_audit_log}
use bpmninja.Engine.Join.{complete_active}
use bpmninja.Engine.Waits.{close_event_scope}
use bpmninja.Engine.Waits.Scope.{closed_with, close_event_scope-Closed}
use bpmninja.Engine.Executor.{
  update_instance, drop_token, finish, log, complete_branch_token, is_finished,
  all_tokens_completed,
}
use bpmninja.Engine.Executor.Instances.{
  get-update_instance, IsFinished, IsCompleted, is_finished_iff,
}
use bpmninja.Engine.Executor.Actions.{Handled}
use bpmninja.Engine.Executor.Ends.{close_completed, complete_rest, complete_token, complete_path}

module _ {V : Type 0} where
  -- Closing a scope leaves the tokens of the instance.
  closed_tokens :
      (subs : List EventSubscription) (inst : ProcessInstance V)
      → ((closed_with subs inst).tokens ≡ inst.tokens)
        × ((closed_with subs inst).active_tokens ≡ inst.active_tokens)
  unfolding push_audit_log
  closed_tokens [] inst = (refl, refl)
  closed_tokens (x ∷ xs) inst = (refl, refl)

  -- The instance without the token that came to its end.
  abbrev pub without_path : (token_id : Uuid) → ProcessInstance V → ProcessInstance V
  without_path token_id inst = record inst {
    tokens = remove token_id inst.tokens;
    active_tokens = complete_active token_id inst.active_tokens;
  }

  -- The token is gone and its branch completed; the instance is completed if that was the last one,
  -- and else it goes on as it was.
  abbrev pub PathEnded : ℕ → Uuid → ProcessInstance V → ProcessInstance V → Type 0
  PathEnded now token_id inst after =
      (after.tokens ≡ remove token_id inst.tokens)
      × (after.active_tokens ≡ complete_active token_id inst.active_tokens)
      × ((IsFinished after
            × (after.state ≡ InstanceState.completed)
            × (after.completed_at ≡ some now))
          ⊎ ((¬ IsFinished after) × (after ≡ without_path token_id inst)))

  abbrev EndsPath :
      ℕ → Uuid → Uuid → ProcessInstance V → List (Token V) → Engine V → Handled V → Type 0
  EndsPath now id token_id inst queue s (result, queue', s') =
      (result ≡ ok tt)
      × (queue' ≡ queue)
      × ((k : Uuid) → nat_beq id k ≡ false → get k s'.instances ≡ get k s.instances)
      × ((after : ProcessInstance V) × (get id s'.instances ≡ some after)
          × PathEnded now token_id inst after)

  module _ (now : ℕ) (id token_id : Uuid) (inst : ProcessInstance V) (s : Engine V)
      (there : get id s.instances ≡ some inst) where
    abbrev without : ProcessInstance V
    without = without_path token_id inst

    abbrev branch_done : ProcessInstance V
    branch_done = record inst { active_tokens = complete_active token_id inst.active_tokens }

    abbrev left : Engine V
    left = record s { instances = insert id without (insert id branch_done s.instances) }

    get-left :
        (k : Uuid)
        → get k left.instances ≡ (if nat_beq id k then some without else get k s.instances)
    get-left k = ground (
      arith,
      get-insert id k without (insert id branch_done s.instances),
      get-insert id k branch_done s.instances,
    )

    left_there : get id left.instances ≡ some without
    left_there = get-left id ∙ ground (arith, nat_beq_iff id id)

    dropped-left :
        update_instance id
          (drop_token token_id)
          (record s { instances = insert id branch_done s.instances })
        ≡ left
    unfolding update_instance
    dropped-left = rw (get-insert_self id branch_done s.instances, update_instance) refl

    branched :
        complete_branch_token s id token_id
        ≡ (ok tt, record s { instances = insert id branch_done s.instances })
    unfolding complete_branch_token
    branched = rw (there, complete_branch_token) refl

    asked : all_tokens_completed left id ≡ ok (is_finished without)
    unfolding all_tokens_completed
    asked = rw (left_there, all_tokens_completed) refl

    complete_path-rest :
        (queue : List (Token V))
        → complete_path now id token_id queue s
          ≡ complete_rest now id queue (ok (is_finished without)) left
    unfolding complete_path
    complete_path-rest queue =
        ap (complete_token now id token_id queue) branched
        ∙ ap (λ d. complete_rest now id queue (all_tokens_completed d id) d) dropped-left
        ∙ ap (λ r. complete_rest now id queue r left) asked

    -- The last token.
    last-EndsPath :
        (queue : List (Token V))
        → is_finished without ≡ true
        → EndsPath now id token_id inst queue s (complete_rest now id queue (ok true) left)
    unfolding close_completed
    last-EndsPath queue last =
        let shut = close_event_scope-Closed id without left left_there in
        let closed = closed_with without.event_subscriptions without in
        let change : ProcessInstance V → ProcessInstance V =
          λ i. log every_token_completed (finish now InstanceState.completed i) in
        let scope = close_event_scope id left in
        let found : get id scope.instances ≡ some closed =
          shut.instances id ∙ ground (arith, nat_beq_iff id id) in
        let (same_tokens, same_active) = closed_tokens without.event_subscriptions without in
        let finished = (is_finished_iff without).0 last in
        (
          refl,
          refl,
          (λ k other.
              get-update_instance id k change closed scope found
              ∙ ground (arith, other, shut.instances k, get-left k)),
          (
            change closed,
            get-update_instance id id change closed scope found ∙ ground (arith, nat_beq_iff id id),
            (
              same_tokens,
              same_active,
              inl (
                (same_tokens ∙ finished.0, subst (All IsCompleted) (sym same_active) finished.1),
                refl,
                refl,
              ),
            ),
          ),
        )

  -- The end of a path of an instance that is there succeeds, leaves the queue and the other instances
  -- alone, takes its token away and completes its branch, and completes the instance if no token is
  -- left and every branch is completed; else the instance is as it was but for that token and branch.
  pub complete_path-PathEnded :
      (now : ℕ) (id token_id : Uuid) (inst : ProcessInstance V) (queue : List (Token V))
      (s : Engine V)
      → get id s.instances ≡ some inst
      → let (result, queue', s') = complete_path now id token_id queue s in
        (result ≡ ok tt)
        × (queue' ≡ queue)
        × ((k : Uuid) → nat_beq id k ≡ false → get k s'.instances ≡ get k s.instances)
        × ((after : ProcessInstance V) × (get id s'.instances ≡ some after)
            × PathEnded now token_id inst after)
  complete_path-PathEnded now id token_id inst queue s there =
      let rest = complete_path-rest now id token_id inst s there queue in
      let without = without_path token_id inst in
      elim (Bool-cases (is_finished without)) [
        | inl last ↦
            subst (EndsPath now id token_id inst queue s)
              (sym (
                rest
                ∙ ap (λ f. complete_rest now id queue (ok f) (left now id token_id inst s there))
                    last))
              (last-EndsPath now id token_id inst s there queue last)
        | inr more ↦
            subst (EndsPath now id token_id inst queue s)
              (sym (
                rest
                ∙ ap (λ f. complete_rest now id queue (ok f) (left now id token_id inst s there))
                    more))
              (
                refl,
                refl,
                (λ k other. get-left now id token_id inst s there k ∙ ground (arith, other)),
                (
                  without,
                  left_there now id token_id inst s there,
                  (
                    refl,
                    refl,
                    inr ((λ finished. cc (more, (is_finished_iff without).1 finished)), refl),
                  ),
                ),
              )
      ]
