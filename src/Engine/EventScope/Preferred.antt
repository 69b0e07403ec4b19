-- ===== src/Engine/EventScope/Preferred.antt =====
-- The handler that `try_activate_event_code` of engine-core/src/engine/event_subprocess.rs prefers.
use bpmninja.Prelude.{
  Among, ◌≡◌, ◌≢◌, refl, ap, ◌∙◌, ◌⊎◌, inl, inr, String, Bool, true, false, Option, none, some,
  List, nat_eq, string_eq, option_eq, option_beq_iff, ◌==◌, eq_iff, All, All-mono, arith,
  Bool-cases,
}
use bpmninja.Domain.Graph.{ProcessDefinition, EventSubProcess, event_subprocess_by_id}
use bpmninja.Runtime.Instance.{EventSubscription}
use bpmninja.Engine.EventScope.{
  Candidate, text_before, expected_code, catching, candidate, sorts_before,
}
use bpmninja.Engine.EventScope.Choice.{code_trigger, NoneCatches, Chosen}

expected-code_trigger :
    (e : Bool) (expected : Option String)
    → expected_code (code_trigger e expected) e ≡ some expected
expected-code_trigger true expected = refl
expected-code_trigger false expected = refl

module _ {V : Type 0} (def : ProcessDefinition V) (thrown : String) (is_escalation : Bool)
    (exclude : Option String) where
  -- The handler of the subscription is not excluded and is for one code, or with `none` for every
  -- code.
  abbrev pub Handles : EventSubscription → EventSubProcess → Option String → Type 0
  Handles subscription handler expected =
      (exclude ≢ some subscription.subprocess_id)
      × (event_subprocess_by_id def subscription.subprocess_id ≡ some handler)
      × (handler.trigger ≡ code_trigger is_escalation expected)

  -- A handler of this very code has an identifier that is least among those of its kind. A handler
  -- of every code has this too, and there is none of this very code.
  abbrev pub Preferred : List EventSubscription → EventSubscription → EventSubProcess → Type 0
  Preferred subscriptions subscription handler =
      Among subscription subscriptions
      × (Handles subscription handler (some thrown)
            × All
                (λ x.
                  (h : EventSubProcess)
                  → Handles x h (some thrown)
                  → text_before h.id handler.id ≡ false)
                subscriptions
          ⊎ Handles subscription handler none
            × All
                (λ x.
                  (h : EventSubProcess)
                  → (¬ Handles x h (some thrown))
                    × (Handles x h none → text_before h.id handler.id ≡ false))
                subscriptions)

  abbrev pub NoneHandles : List EventSubscription → Type 0
  NoneHandles =
      All (λ x. (h : EventSubProcess) → (¬ Handles x h (some thrown)) × (¬ Handles x h none))

  abbrev candidate_of : Bool → EventSubscription → EventSubProcess → Candidate
  candidate_of catches_all subscription handler = record {
    catches_all = catches_all;
    subscription = subscription;
    handler = handler;
  }

  catching-some :
      (x : EventSubscription) (h : EventSubProcess) (expected : Option String)
      → Handles x h expected
      → candidate def thrown is_escalation exclude x ≡ catching x h (some expected) thrown
  unfolding candidate
  catching-some x h expected (allowed, there, is) =
      let allows : (exclude == some x.subprocess_id) ≡ false =
        elim (Bool-cases (exclude == some x.subprocess_id)) [
          | inl same ↦ absurd (allowed ((option_beq_iff exclude (some x.subprocess_id)).0 same))
          | inr other ↦ other
        ] in
      rw (allows, ◌≡◌)
        (rw (there, ◌≡◌)
          (ap (λ trigger. catching x h (expected_code trigger is_escalation) thrown) is
            ∙ ap (λ o. catching x h o thrown) (expected-code_trigger is_escalation expected)))

  candidate_exact :
      (x : EventSubscription) (h : EventSubProcess)
      → Handles x h (some thrown)
      → candidate def thrown is_escalation exclude x ≡ some (candidate_of false x h)
  candidate_exact x h handles =
      catching-some x h (some thrown) handles ∙ rw ((eq_iff thrown thrown).1 refl, ◌≡◌) refl

  candidate_every :
      (x : EventSubscription) (h : EventSubProcess)
      → Handles x h none
      → candidate def thrown is_escalation exclude x ≡ some (candidate_of true x h)
  candidate_every x h handles = catching-some x h none handles

  pub NoneCatches-NoneHandles :
      (subscriptions : List EventSubscription)
      → NoneCatches def thrown is_escalation exclude subscriptions
      → NoneHandles subscriptions
  NoneCatches-NoneHandles subscriptions =
      All-mono
        (λ x nothing h. (
          (λ exact. cc (nothing, candidate_exact x h exact)),
          (λ every. cc (nothing, candidate_every x h every)),
        ))
        subscriptions

  pub Chosen-Preferred :
      (subscriptions : List EventSubscription) (c : Candidate)
      → Chosen def thrown is_escalation exclude subscriptions (some c)
      → Preferred subscriptions c.subscription c.handler
  unfolding sorts_before
  Chosen-Preferred subscriptions c (among, (allowed, there, inl (is, exact)), best) = (
    among,
    inl (
      (allowed, there, is),
      All-mono (λ x least h handles. ground (arith, exact, least _ (candidate_exact x h handles)))
          subscriptions best,
    ),
  )
  Chosen-Preferred subscriptions c (among, (allowed, there, inr (is, every)), best) = (
    among,
    inr (
      (allowed, there, is),
      All-mono
          (λ x least h. (
            (λ handles. absurd (ground (arith, every, least _ (candidate_exact x h handles)))),
            (λ handles. ground (arith, every, least _ (candidate_every x h handles))),
          ))
          subscriptions best,
    ),
  )
