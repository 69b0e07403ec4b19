-- ===== src/Engine/Executor/Dispatch/Forking.antt =====
-- What a fork leaves behind.
use bpmninja.Prelude.{
  ℕ, suc, ◌+◌, ◌≡◌, refl, sym, ◌∙◌, ap, subst, String, Bool, false, Option, none, some, List, [],
  ◌∷◌, ◌++◌, append-nil, append_assoc, Map, get, get-insert, get-insert_self, string_eq, nat_eq,
  nat_beq, nat_beq_iff, length, arith,
}
use bpmninja.Domain.Error.{Uuid, EngineResult, ok}
use bpmninja.Domain.Timer.{Calendar}
use bpmninja.Domain.Token.{Token}
use bpmninja.Domain.Graph.{ProcessDefinition}
use bpmninja.Runtime.Instance.{ProcessInstance, InstanceState, ActiveToken, JoinBarrier, NextAction}
use bpmninja.Runtime.State.{Engine}
use bpmninja.Engine.Topology.{find_downstream_join}
use bpmninja.Engine.Join.{
  found_join, with_join, register_barrier, register_join_barrier_if_needed, register_active_token,
  complete_active, put_instance,
}
use bpmninja.Engine.Executor.{update_instance}
use bpmninja.Engine.Executor.Instances.{get-update_instance}
use bpmninja.Engine.Executor.Actions.{Handled, forked, queue_next, queue_forked}
use bpmninja.Engine.Executor.Dispatch.{fork, fork_registered, handle_next_action}

module _ {V : Type 0} where
  -- The active tokens of the branches of a fork, from branch `k` on.
  unfoldable pub branches : String → ℕ → List (Token V) → List (ActiveToken V)
  branches node_id k [] = []
  branches node_id k (t ∷ ts) =
      record { token = t; fork_id = some node_id; branch_index = k; completed = false }
      ∷ branches node_id (suc k) ts

  -- An instance replaces another one, and the other instances stay.
  abbrev pub Becomes : Uuid → ProcessInstance V → Engine V → Engine V → Type 0
  Becomes id inst s s' =
      (get id s'.instances ≡ some inst)
      × ((k : Uuid) → nat_beq id k ≡ false → get k s'.instances ≡ get k s.instances)

  put_instance-Becomes :
      (id : Uuid) (inst : ProcessInstance V) (s : Engine V)
      → Becomes id inst s (put_instance s id inst)
  put_instance-Becomes id inst s = (
    get-insert_self id inst s.instances,
    (λ k other. get-insert id k inst s.instances ∙ ground (arith, other)),
  )

  abbrev Queues : Uuid → ProcessInstance V → List (Token V) → Engine V → Handled V → Type 0
  Queues id inst queue s (result, queue', s') =
      (result ≡ ok tt) × (queue' ≡ queue) × Becomes id inst s s'

  with_active : ProcessInstance V → List (ActiveToken V) → ProcessInstance V
  with_active inst more = record inst { active_tokens = inst.active_tokens ++ more }

  no_more : (inst : ProcessInstance V) → inst ≡ with_active inst []
  unfolding with_active
  no_more inst =
      ap (λ ats. record inst { active_tokens = ats }) (sym (append-nil inst.active_tokens))

  more_after :
      (inst : ProcessInstance V) (node_id : String) (k : ℕ) (t : Token V) (ts : List (Token V))
      → with_active (with_active inst (branches node_id k (t ∷ []))) (branches node_id (suc k) ts)
        ≡ with_active inst (branches node_id k (t ∷ ts))
  unfolding with_active branches
  more_after inst node_id k t ts =
      ap (λ ats. record inst { active_tokens = ats })
        (append_assoc inst.active_tokens (branches node_id k (t ∷ []))
          (branches node_id (suc k) ts))

  register_active_token_done :
      (s : Engine V) (id : Uuid) (node_id : String) (k : ℕ) (t : Token V) (inst : ProcessInstance V)
      → get id s.instances ≡ some inst
      → register_active_token s id node_id k t
        ≡ (ok tt, put_instance s id (with_active inst (branches node_id k (t ∷ []))))
  unfolding register_active_token with_active branches
  register_active_token_done s id node_id k t inst there = rw (there, register_active_token) refl

  queue_forked-Queues :
      (id : Uuid) (node_id : String) (k : ℕ) (ts queue : List (Token V)) (s : Engine V)
      (inst : ProcessInstance V)
      → get id s.instances ≡ some inst
      → Queues id
          (with_active inst (branches node_id k ts))
          (queue ++ ts)
          s
          (queue_forked id node_id k ts queue s)
  unfolding queue_forked branches
  queue_forked-Queues id node_id k [] queue s inst there =
      (refl, sym (append-nil queue), (there ∙ ap some (no_more inst), (λ k other. refl)))
  queue_forked-Queues id node_id k (t ∷ ts) queue s inst there =
      let first = with_active inst (branches node_id k (t ∷ [])) in
      let s' = put_instance s id first in
      let (accepted, queued, (found, others)) =
        queue_forked-Queues id node_id (suc k) ts (queue ++ t ∷ []) s' first
          (put_instance-Becomes id first s).0 in
      subst (Queues id (with_active inst (branches node_id k (t ∷ ts))) (queue ++ t ∷ ts) s)
        (sym (
          ap (queue_next (queue_forked id node_id (suc k) ts) t queue)
            (register_active_token_done s id node_id k t inst there)))
        (
          accepted,
          queued ∙ append_assoc queue (t ∷ []) ts,
          (
            found ∙ ap some (more_after inst node_id k t ts),
            (λ j other. others j other ∙ (put_instance-Becomes id first s).1 j other),
          ),
        )

  registered_done :
      (s : Engine V) (id : Uuid) (gateway_id : String) (inst : ProcessInstance V)
      (def : ProcessDefinition V) (tokens : List (Token V))
      → get id s.instances ≡ some inst
      → get inst.definition_key s.definitions ≡ some def
      → register_join_barrier_if_needed s id gateway_id (length tokens) ≡ (
        ok tt,
        with_join s id inst (length tokens) (found_join (find_downstream_join def gateway_id)),
      )
  unfolding register_join_barrier_if_needed
  registered_done s id gateway_id inst def tokens there known =
      rw (there, register_join_barrier_if_needed) (rw (known, ◌≡◌) refl)

  -- The barriers of an instance once the join of a fork is registered.
  abbrev pub joined : Option String → ℕ → Map String (JoinBarrier V) → Map String (JoinBarrier V)
  joined none count barriers = barriers
  joined (some join_id) count barriers = register_barrier join_id count barriers

  with_join-Becomes :
      (id : Uuid) (inst : ProcessInstance V) (count : ℕ) (join : Option String) (s : Engine V)
      → get id s.instances ≡ some inst
      → Becomes id
          (record inst { join_barriers = joined join count inst.join_barriers })
          s
          (with_join s id inst count join)
  with_join-Becomes id inst count none s there = (there, (λ k other. refl))
  with_join-Becomes id inst count (some join_id) s there =
      put_instance-Becomes id
        (record inst { join_barriers = register_barrier join_id count inst.join_barriers }) s

  -- The instance after a fork.
  abbrev pub fork_of :
      (token_id : Uuid)
      → String
      → List (Token V)
      → Option String
      → ProcessInstance V
      → ProcessInstance V
  fork_of token_id gateway_id tokens join inst = record inst {
    join_barriers = joined join (length tokens) inst.join_barriers;
    active_tokens = complete_active token_id inst.active_tokens ++ branches gateway_id 0 tokens;
    state = InstanceState.parallel_execution (length inst.active_tokens + length tokens);
    current_node = gateway_id;
  }

  forked_same :
      (token_id : Uuid) (gateway_id : String) (tokens : List (Token V)) (join : Option String)
      (inst : ProcessInstance V)
      → with_active
          (record (forked token_id
            (length tokens)
            (record inst { join_barriers = joined join (length tokens) inst.join_barriers })) {
              current_node = gateway_id;
            })
          (branches gateway_id 0 tokens)
        ≡ fork_of token_id gateway_id tokens join inst
  unfolding with_active
  forked_same token_id gateway_id tokens join inst = refl

module _ {V : Type 0} (holds : String → Map String V → Bool) (calendar : Calendar)
    (spawn : Uuid → Uuid → Token V → Engine V → EngineResult Uuid × Engine V) (now : ℕ)
    (new_id : Uuid) (id token_id : Uuid) (gateway_id : String) where
  -- A fork of an instance that is there, with a definition that is registered, succeeds: all its
  -- tokens are queued in order, each is an open branch of the fork under its number, the token that
  -- forked is completed, and the join downstream, if there is one, waits for as many tokens.
  pub handle_next_action-Forks :
      (tokens queue : List (Token V)) (inst : ProcessInstance V) (def : ProcessDefinition V)
      (s : Engine V)
      → get id s.instances ≡ some inst
      → get inst.definition_key s.definitions ≡ some def
      → let join = found_join (find_downstream_join def gateway_id) in
        let (result, queue', s') =
          handle_next_action holds calendar spawn now new_id id token_id gateway_id
            (NextAction.continue_multiple tokens)
            queue
            s in
        (result ≡ ok tt)
        × (queue' ≡ queue ++ tokens)
        × (get id s'.instances ≡ some (fork_of token_id gateway_id tokens join inst))
        × ((k : Uuid) → nat_beq id k ≡ false → get k s'.instances ≡ get k s.instances)
  unfolding handle_next_action fork
  handle_next_action-Forks tokens queue inst def s there known =
      let join = found_join (find_downstream_join def gateway_id) in
      let s1 = with_join s id inst (length tokens) join in
      let waits : ProcessInstance V = record inst {
        join_barriers = joined join (length tokens) inst.join_barriers;
      } in
      let (found, others) = with_join-Becomes id inst (length tokens) join s there in
      let change : ProcessInstance V → ProcessInstance V =
        λ i. record (forked token_id (length tokens) i) { current_node = gateway_id } in
      let s2 = update_instance id change s1 in
      let start : get id s2.instances ≡ some (change waits) =
        get-update_instance id id change waits s1 found ∙ ground (arith, nat_beq_iff id id) in
      let (accepted, queued, (left, rest)) =
        queue_forked-Queues id gateway_id 0 tokens queue s2 (change waits) start in
      subst (Forks join s queue)
        (sym (
          ap (fork_registered holds calendar spawn now new_id id token_id gateway_id tokens queue)
            (registered_done s id gateway_id inst def tokens there known)))
        (
          accepted,
          queued,
          left ∙ ap some (forked_same token_id gateway_id tokens join inst),
          (λ k other.
              rest k other
              ∙ get-update_instance id k change waits s1 found
              ∙ ground (arith, other, others k)),
        )
    where
      Forks : Option String → Engine V → List (Token V) → Handled V → Type 0
      Forks join s queue (result, queue', s') =
          (result ≡ ok tt)
          × (queue' ≡ queue ++ tokens)
          × (get id s'.instances ≡ some (fork_of token_id gateway_id tokens join inst))
          × ((k : Uuid) → nat_beq id k ≡ false → get k s'.instances ≡ get k s.instances)
