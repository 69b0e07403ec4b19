-- ===== src/Engine/EventScope/Choice.antt =====
-- Which handler catches an error or an escalation.
use bpmninja.Prelude.{
  Among, ◌≡◌, ◌≢◌, refl, sym, ap, ◌∙◌, ◌⊎◌, inl, inr, String, Bool, true, false, Option, none, some,
  List, [], ◌∷◌, string_eq, option_eq, option_beq_iff, ◌==◌, eq_iff, All, Bool-cases, Option-cases,
  subst,
}
use bpmninja.Domain.Element.{EventSubProcessTrigger}
use bpmninja.Domain.Graph.{ProcessDefinition, EventSubProcess, event_subprocess_by_id}
use bpmninja.Runtime.Instance.{EventSubscription}
use bpmninja.Engine.EventScope.{
  Candidate, expected_code, catching, candidate, candidates, push, sorts_before, sorted, first,
}
use bpmninja.Engine.EventScope.Order.{IsFirst, Led, sorted-Led}

abbrev pub code_trigger : (is_escalation : Bool) → Option String → EventSubProcessTrigger
code_trigger true expected = EventSubProcessTrigger.escalation expected
code_trigger false expected = EventSubProcessTrigger.error expected

module _ {V : Type 0} (def : ProcessDefinition V) (thrown : String) (is_escalation : Bool)
    (exclude : Option String) where
  -- The handler of a subscription that is not excluded catches the code, or every code.
  abbrev pub Catches : Candidate → Type 0
  Catches c =
      (exclude ≢ some c.subscription.subprocess_id)
      × (event_subprocess_by_id def c.subscription.subprocess_id ≡ some c.handler)
      × ((c.handler.trigger ≡ code_trigger is_escalation (some thrown)) × (c.catches_all ≡ false)
          ⊎ (c.handler.trigger ≡ code_trigger is_escalation none) × (c.catches_all ≡ true))

  abbrev CatchesFor : EventSubscription → Option Candidate → Type 0
  CatchesFor subscription none = Unit
  CatchesFor subscription (some c) = (c.subscription ≡ subscription) × Catches c

module _ {V : Type 0} (def : ProcessDefinition V) (thrown : String) (exclude : Option String)
    (subscription : EventSubscription) (handler : EventSubProcess)
    (allowed : exclude ≢ some subscription.subprocess_id)
    (there : event_subprocess_by_id def subscription.subprocess_id ≡ some handler) where
  accepted-CatchesFor :
      (e : Bool) (expected : Option String)
      → handler.trigger ≡ code_trigger e expected
      → CatchesFor def thrown e exclude subscription
          (catching subscription handler (some expected) thrown)
  accepted-CatchesFor e none is = (refl, (allowed, there, inr (is, refl)))
  accepted-CatchesFor e (some bound) is = elim (Bool-cases (bound == thrown)) [
    | inl same ↦
        rw (same, CatchesFor)
          (
            refl,
            (
              allowed,
              there,
              inl (is ∙ ap (λ c. code_trigger e (some c)) ((eq_iff bound thrown).0 same), refl),
            ),
          )
    | inr other ↦ rw (other, CatchesFor) tt
  ]

  catching-CatchesFor :
      (trigger : EventSubProcessTrigger) (e : Bool)
      → handler.trigger ≡ trigger
      → CatchesFor def thrown e exclude subscription
          (catching subscription handler (expected_code trigger e) thrown)
  catching-CatchesFor (EventSubProcessTrigger.error expected) false is =
      accepted-CatchesFor false expected is
  catching-CatchesFor (EventSubProcessTrigger.error expected) true is = tt
  catching-CatchesFor (EventSubProcessTrigger.escalation expected) true is =
      accepted-CatchesFor true expected is
  catching-CatchesFor (EventSubProcessTrigger.escalation expected) false is = tt
  catching-CatchesFor (EventSubProcessTrigger.timer _) e is = tt
  catching-CatchesFor (EventSubProcessTrigger.message _) e is = tt
  catching-CatchesFor (EventSubProcessTrigger.signal _) e is = tt

module _ {V : Type 0} (def : ProcessDefinition V) (thrown : String) (is_escalation : Bool)
    (exclude : Option String) where
  candidate-CatchesFor :
      (subscription : EventSubscription)
      → CatchesFor def thrown is_escalation exclude subscription
          (candidate def thrown is_escalation exclude subscription)
  unfolding candidate
  candidate-CatchesFor subscription =
      elim (Bool-cases (exclude == some subscription.subprocess_id)) [
        | inl left_out ↦ rw (left_out, CatchesFor) tt
        | inr allowed ↦
            elim (Option-cases (event_subprocess_by_id def subscription.subprocess_id)) [
              | inl missing ↦ rw (allowed, CatchesFor) (rw (missing, CatchesFor) tt)
              | inr (handler, there) ↦
                  rw (allowed, CatchesFor)
                    (rw (there, CatchesFor)
                      (catching-CatchesFor def thrown exclude subscription handler
                        (λ equal. cc (
                          allowed,
                          (option_beq_iff exclude (some subscription.subprocess_id)).1 equal,
                        ))
                        there handler.trigger is_escalation refl))
            ]
      ]

  -- No candidate of the subscriptions sorts before this one.
  abbrev pub IsBest : Candidate → List EventSubscription → Type 0
  IsBest c = All (λ subscription.
      (d : Candidate)
      → candidate def thrown is_escalation exclude subscription ≡ some d
      → sorts_before d c ≡ false)

  abbrev pub NoneCatches : List EventSubscription → Type 0
  NoneCatches = All (λ subscription. candidate def thrown is_escalation exclude subscription ≡ none)

  push-IsFirst :
      (c : Candidate) (subscription : EventSubscription) (cs : List Candidate)
      (o : Option Candidate)
      → candidate def thrown is_escalation exclude subscription ≡ o
      → IsFirst c (push o cs)
      → ((d : Candidate)
          → candidate def thrown is_escalation exclude subscription ≡ some d
          → sorts_before d c ≡ false)
        × IsFirst c cs
  push-IsFirst c subscription cs none is least = ((λ d found. cc), least)
  push-IsFirst c subscription cs (some own) is (here, rest) = (
    (λ d found. let same : own ≡ d = cc in subst (λ z. sorts_before z c ≡ false) same here),
    rest,
  )

  candidates-IsBest :
      (c : Candidate) (subscriptions : List EventSubscription)
      → IsFirst c (candidates def thrown is_escalation exclude subscriptions)
      → IsBest c subscriptions
  unfolding candidates
  candidates-IsBest c [] h = tt
  candidates-IsBest c (x ∷ xs) h =
      let (own, rest) =
        push-IsFirst c x (candidates def thrown is_escalation exclude xs)
          (candidate def thrown is_escalation exclude x) refl h in
      (own, candidates-IsBest c xs rest)

  push-Among :
      (c : Candidate) (o : Option Candidate) (cs : List Candidate)
      → Among c (push o cs)
      → (o ≡ some c) ⊎ Among c cs
  push-Among c none cs there = inr there
  push-Among c (some own) cs (inl same) = inl (ap some same)
  push-Among c (some own) cs (inr there) = inr there

  -- A candidate is that of a subscription.
  candidates-Among :
      (c : Candidate) (subscriptions : List EventSubscription)
      → Among c (candidates def thrown is_escalation exclude subscriptions)
      → Among c.subscription subscriptions × Catches def thrown is_escalation exclude c
  unfolding candidates
  candidates-Among c [] there = elim there [ ]
  candidates-Among c (x ∷ xs) there =
      elim (push-Among c (candidate def thrown is_escalation exclude x)
        (candidates def thrown is_escalation exclude xs) there) [
          | inl own ↦
              let (same, catches) =
                subst (CatchesFor def thrown is_escalation exclude x) own
                  (candidate-CatchesFor x) in
              (inl (sym same), catches)
          | inr later ↦ let (among, catches) = candidates-Among c xs later in (inr among, catches)
        ]

  candidates_none :
      (subscriptions : List EventSubscription)
      → candidates def thrown is_escalation exclude subscriptions ≡ []
      → NoneCatches subscriptions
  unfolding candidates
  candidates_none [] h = tt
  candidates_none (x ∷ xs) h = elim (Option-cases (candidate def thrown is_escalation exclude x)) [
    | inl none_here ↦ (
      none_here,
      candidates_none xs
          (subst (λ o. push o (candidates def thrown is_escalation exclude xs) ≡ []) none_here h),
    )
    | inr (own, found) ↦ absurd (
        nonempty own _
          (subst (λ o. push o (candidates def thrown is_escalation exclude xs) ≡ []) found h))
  ]
    where
      nonempty : (c : Candidate) (cs : List Candidate) → (c ∷ cs) ≢ []
      nonempty c cs h = cc

  abbrev pub Chosen : List EventSubscription → Option Candidate → Type 0
  Chosen subscriptions none = NoneCatches subscriptions
  Chosen subscriptions (some c) =
      Among c.subscription subscriptions
      × Catches def thrown is_escalation exclude c
      × IsBest c subscriptions

  Led-Chosen :
      (subscriptions : List EventSubscription) (o : Option Candidate)
      → Led (candidates def thrown is_escalation exclude subscriptions) o
      → Chosen subscriptions o
  Led-Chosen subscriptions none h = candidates_none subscriptions h
  Led-Chosen subscriptions (some c) (there, least) =
      let (among, catches) = candidates-Among c subscriptions there in
      (among, catches, candidates-IsBest c subscriptions least)

  -- A thrown code starts the handler of an open subscription that is not excluded and catches that
  -- code or every code; no other such handler sorts before it, where a handler of this very code is
  -- before one of every code, and else the identifiers are compared. Without a choice no
  -- subscription is a candidate.
  pub sorted-Chosen :
      (subscriptions : List EventSubscription)
      → Chosen subscriptions
          (first (sorted (candidates def thrown is_escalation exclude subscriptions)))
  sorted-Chosen subscriptions =
      Led-Chosen subscriptions
        (first (sorted (candidates def thrown is_escalation exclude subscriptions)))
        (sorted-Led (candidates def thrown is_escalation exclude subscriptions))
