-- ===== src/Engine/Gateway/Fork.antt =====
-- How parallel, inclusive and complex gateways wait, continue or fork.
use bpmninja.Prelude.{
  ℕ, suc, String, ◌≡◌, refl, ◌⊎◌, inl, inr, ap, ◌≢◌, Bool, true, false, not, ◌&&◌, ◌||◌, Option,
  List, [], ◌∷◌, Map, map, All, select, arith, Bool-cases,
}
use bpmninja.Domain.Error.{Uuid, ok, err, no_matching_condition}
use bpmninja.Domain.Element.{SequenceFlow}
use bpmninja.Domain.Token.{Token, with_variables}
use bpmninja.Domain.Graph.{ProcessDefinition, next_nodes}
use bpmninja.Runtime.Instance.{NextAction, continue, continue_multiple, wait_for_join}
use bpmninja.Engine.Gateway.{
  Outcome, must_join, fork_tokens, targets_of, split, split_matched, execute_inclusive_gateway,
  execute_complex_gateway, inclusive_targets, complex_targets, is_default, is_unconditional,
  condition_true, or_default,
}

-- The tokens that go on, with their places.
abbrev pub tokens_of : {V : Type 0} → NextAction V → List (Token V)
tokens_of (continue token) = token ∷ []
tokens_of (continue_multiple tokens) = tokens
tokens_of _ = []

abbrev pub places : {V : Type 0} → List (Token V) → List String
places ts = map (λ t. t.current_node) ts

-- One token goes to each target, in order, unmerged and with the given variables.
pub record Splits {V : Type 0} (variables : Map String V) (targets : List String)
    (outcome : Outcome V) : Type 0 where
  pub action : NextAction V
  pub returned : outcome.0 ≡ ok action
  pub one_each : places (tokens_of action) ≡ targets
  pub carries : All (λ t. (t.variables ≡ variables) × (t.is_merged ≡ false)) (tokens_of action)

module _ {V : Type 0} (new_v4 : ℕ → Uuid) where
  places-fork_tokens :
      (i : ℕ) (vars : Map String V) (targets : List String)
      → places (fork_tokens new_v4 i vars targets) ≡ targets
  unfolding fork_tokens with_variables
  places-fork_tokens i vars [] = refl
  places-fork_tokens i vars (t ∷ ts) = ap (λ l. t ∷ l) (places-fork_tokens (suc i) vars ts)

  fork_tokens-All :
      (i : ℕ) (vars : Map String V) (targets : List String)
      → All (λ t. (t.variables ≡ vars) × (t.is_merged ≡ false)) (fork_tokens new_v4 i vars targets)
  unfolding fork_tokens with_variables
  fork_tokens-All i vars [] = tt
  fork_tokens-All i vars (t ∷ ts) = ((refl, refl), fork_tokens-All (suc i) vars ts)

  split-Splits :
      (token : Token V) (targets : List String)
      → token.is_merged ≡ false
      → Splits token.variables targets (split new_v4 token targets)
  unfolding split
  split-Splits token [] h = record {
    action = continue_multiple (fork_tokens new_v4 0 token.variables []);
    returned = refl;
    one_each = places-fork_tokens 0 token.variables [];
    carries = fork_tokens-All 0 token.variables [];
  }
  split-Splits token (target ∷ []) h = record {
    action = continue (record token { current_node = target });
    returned = refl;
    one_each = refl;
    carries = ((refl, h), tt);
  }
  split-Splits token (t ∷ u ∷ ts) h = record {
    action = continue_multiple (fork_tokens new_v4 0 token.variables (t ∷ u ∷ ts));
    returned = refl;
    one_each = places-fork_tokens 0 token.variables (t ∷ u ∷ ts);
    carries = fork_tokens-All 0 token.variables (t ∷ u ∷ ts);
  }

  -- What a gateway with two or more incoming flows does with a token that is not merged yet.
  abbrev pub Waits : ProcessDefinition V → String → Token V → Outcome V → Type 0
  Waits def current_id token outcome =
      (must_join def current_id token ≡ true)
      × (outcome ≡ (ok (wait_for_join current_id token), token))

  -- No target is an error, after which the token no longer counts as merged.
  abbrev pub SplitsOrFails : String → Token V → List String → Outcome V → Type 0
  SplitsOrFails current_id token targets outcome =
      ((targets ≢ []) × Splits token.variables targets outcome)
      ⊎ ((targets ≡ [])
          × (outcome
              ≡ (err (no_matching_condition current_id), record token { is_merged = false })))

  split_matched-SplitsOrFails :
      (current_id : String) (token : Token V) (targets : List String)
      → SplitsOrFails current_id token targets
          (split_matched new_v4 current_id (record token { is_merged = false }) targets)
  unfolding split_matched
  split_matched-SplitsOrFails current_id token [] = inr (refl, refl)
  split_matched-SplitsOrFails current_id token (t ∷ ts) =
      inl (λ e. cc, split-Splits (record token { is_merged = false }) (t ∷ ts) refl)

  module _ (holds : String → Map String V → Bool) where
    -- The flows that an inclusive gateway takes.
    abbrev pub is_enabled : Map String V → SequenceFlow → Bool
    is_enabled variables sf = is_unconditional sf || condition_true holds variables sf

    -- The flows that a complex gateway takes before it falls back on the default.
    abbrev pub is_selected : Map String V → Option String → SequenceFlow → Bool
    is_selected variables default sf =
        (is_unconditional sf && not (is_default default sf)) || condition_true holds variables sf

    inclusive_targets-select :
        (variables : Map String V) (flows : List SequenceFlow)
        → inclusive_targets holds variables flows ≡ targets_of (select (is_enabled variables) flows)
    unfolding inclusive_targets
    inclusive_targets-select variables [] = refl
    inclusive_targets-select variables (sf ∷ flows) =
        ground (arith, inclusive_targets-select variables flows)

    complex_targets-select :
        (variables : Map String V) (default : Option String) (flows : List SequenceFlow)
        → complex_targets holds variables default flows
          ≡ targets_of (select (is_selected variables default) flows)
    unfolding complex_targets
    complex_targets-select variables default [] = refl
    complex_targets-select variables default (sf ∷ flows) =
        ground (arith, complex_targets-select variables default flows)

    -- An inclusive gateway waits like a parallel one; otherwise exactly the flows that are
    -- unconditional or whose condition holds get one token each, and it fails only if there are none.
    pub execute_inclusive_gateway-Splits :
        (def : ProcessDefinition V) (current_id : String) (token : Token V)
        → let outcome = execute_inclusive_gateway holds new_v4 def current_id token in
          let taken = select (is_enabled token.variables) (next_nodes def current_id) in
          Waits def current_id token outcome
          ⊎ ((must_join def current_id token ≡ false)
              × SplitsOrFails current_id token (targets_of taken) outcome)
    unfolding execute_inclusive_gateway
    execute_inclusive_gateway-Splits def current_id token =
        elim (Bool-cases (must_join def current_id token)) [
          | inl join ↦ inl (join, rw join)
          | inr fork ↦ inr (
            fork,
            rw (fork, inclusive_targets-select token.variables (next_nodes def current_id))
                (split_matched-SplitsOrFails current_id token _),
          )
        ]

    -- A complex gateway waits like the others; otherwise the flows whose condition holds and the
    -- unconditional ones that do not lead to the default target get one token each. Without any, the
    -- token goes to the default, and it fails only if there is no default either.
    execute_complex_gateway-Splits :
        (def : ProcessDefinition V) (current_id : String) (token : Token V)
        (default : Option String)
        → let outcome = execute_complex_gateway holds new_v4 def current_id token default in
          let taken = select (is_selected token.variables default) (next_nodes def current_id) in
          Waits def current_id token outcome
          ⊎ ((must_join def current_id token ≡ false)
              × SplitsOrFails current_id token (or_default default (targets_of taken)) outcome)
    unfolding execute_complex_gateway
    execute_complex_gateway-Splits def current_id token default =
        elim (Bool-cases (must_join def current_id token)) [
          | inl join ↦ inl (join, rw join)
          | inr fork ↦ inr (
            fork,
            rw (fork, complex_targets-select token.variables default (next_nodes def current_id))
                (split_matched-SplitsOrFails current_id token _),
          )
        ]
