-- ===== src/Engine/Gateway.antt =====
-- engine-core/src/engine/gateway.rs. A handler returns its result and the token as it leaves it,
-- since it writes to the token before it may fail. `holds` is `evaluate_condition`, and `new_v4 i`
-- is the i-th UUID that the handler draws.
pub mod Exclusive
pub mod Fork
use bpmninja.Prelude.{
  ℕ, suc, String, Bool, true, false, not, ◌&&◌, Option, none, some, List, [], ◌∷◌, ◌++◌, Map, ◌==◌,
  string_eq, if◌then◌else◌, leb, length,
}
use bpmninja.Domain.Error.{Uuid, EngineResult, ok, err, no_matching_condition}
use bpmninja.Domain.Element.{SequenceFlow}
use bpmninja.Domain.Token.{Token, with_variables}
use bpmninja.Domain.Graph.{ProcessDefinition, next_nodes, incoming_flow_count}
use bpmninja.Runtime.Instance.{NextAction, continue, continue_multiple, wait_for_join}

abbrev pub Outcome : Type 0 → Type 0
Outcome V = EngineResult (NextAction V) × Token V

abbrev pub targets_of : List SequenceFlow → List String
targets_of [] = []
targets_of (sf ∷ flows) = sf.target ∷ targets_of flows

abbrev pub is_default : Option String → SequenceFlow → Bool
is_default none sf = false
is_default (some d) sf = sf.target == d

abbrev pub is_unconditional : SequenceFlow → Bool
is_unconditional sf = elim sf.condition [ none ↦ true | some _ ↦ false ]

-- The second loop of the exclusive gateway: unconditional flows, but not one to the default target.
unfoldable pub first_unconditional : Option String → List SequenceFlow → Option String
first_unconditional default [] = none
first_unconditional default (sf ∷ flows) =
    if is_unconditional sf && not (is_default default sf)
    then some sf.target
    else first_unconditional default flows

abbrev pub or_else : Option String → Option String → Option String
or_else none o = o
or_else (some target) o = some target

abbrev pub or_default : Option String → List String → List String
or_default (some default) [] = default ∷ []
or_default default targets = targets

module _ {V : Type 0} where
  -- `token.current_node = target; Ok(Continue(token.clone()))`
  abbrev pub move_to : Token V → String → Outcome V
  move_to token target =
      let moved = record token { current_node = target } in (ok (continue moved), moved)

  -- `targets.map(|t| Token::with_variables(&t, token.variables.clone()))`
  unfoldable pub fork_tokens : (ℕ → Uuid) → ℕ → Map String V → List String → List (Token V)
  fork_tokens new_v4 i variables [] = []
  fork_tokens new_v4 i variables (target ∷ targets) =
      with_variables (new_v4 i) target variables ∷ fork_tokens new_v4 (suc i) variables targets

  -- Continue on a single target, fork on more.
  unfoldable pub split : (ℕ → Uuid) → Token V → List String → Outcome V
  split new_v4 token (target ∷ []) = move_to token target
  split new_v4 token targets =
      (ok (continue_multiple (fork_tokens new_v4 0 token.variables targets)), token)

  -- `is_empty()` is an error, otherwise continue or fork.
  unfoldable pub split_matched : (ℕ → Uuid) → String → Token V → List String → Outcome V
  unfolding split
  split_matched new_v4 current_id token [] = (err (no_matching_condition current_id), token)
  split_matched new_v4 current_id token (target ∷ targets) = split new_v4 token (target ∷ targets)

  -- `incoming_count >= 2 && !token.is_merged`
  abbrev pub must_join : ProcessDefinition V → String → Token V → Bool
  must_join def current_id token = leb 2 (incoming_flow_count def current_id) && not token.is_merged

  unfoldable pub execute_parallel_gateway :
      (ℕ → Uuid) → ProcessDefinition V → String → Token V → Outcome V
  unfolding split
  execute_parallel_gateway new_v4 def current_id token =
      let unmerged = record token { is_merged = false } in
      if must_join def current_id token
      then (ok (wait_for_join current_id token), token)
      else split new_v4 unmerged (targets_of (next_nodes def current_id))

module _ {V : Type 0} (holds : String → Map String V → Bool) where
  abbrev pub condition_true : Map String V → SequenceFlow → Bool
  condition_true variables sf = elim sf.condition [
    | none ↦ false
    | some cond ↦ holds cond variables
  ]

  -- The first loop of the exclusive gateway.
  unfoldable pub first_true : Map String V → List SequenceFlow → Option String
  first_true variables [] = none
  first_true variables (sf ∷ flows) =
      if condition_true variables sf then some sf.target else first_true variables flows

  unfoldable pub chosen_target : Map String V → Option String → List SequenceFlow → Option String
  unfolding first_true first_unconditional
  chosen_target variables default flows =
      or_else (or_else (first_true variables flows) (first_unconditional default flows)) default

  unfoldable pub execute_exclusive_gateway :
      ProcessDefinition V → String → Token V → Option String → Outcome V
  unfolding chosen_target
  execute_exclusive_gateway def current_id token default =
      elim (chosen_target token.variables default (next_nodes def current_id)) [
        | none ↦ (err (no_matching_condition current_id), token)
        | some target ↦ move_to token target
      ]

  -- The loop of the inclusive gateway: every true condition and every unconditional flow.
  unfoldable pub inclusive_targets : Map String V → List SequenceFlow → List String
  inclusive_targets variables [] = []
  inclusive_targets variables (sf ∷ flows) =
      let rest = inclusive_targets variables flows in
      elim sf.condition [
        | some cond ↦ if holds cond variables then sf.target ∷ rest else rest
        | none ↦ sf.target ∷ rest
      ]

  unfoldable pub execute_inclusive_gateway :
      (ℕ → Uuid) → ProcessDefinition V → String → Token V → Outcome V
  unfolding split_matched
  execute_inclusive_gateway new_v4 def current_id token =
      let unmerged = record token { is_merged = false } in
      if must_join def current_id token
      then (ok (wait_for_join current_id token), token)
      else split_matched new_v4 current_id unmerged
          (inclusive_targets token.variables (next_nodes def current_id))

  -- The loop of the complex gateway: as the inclusive one, without the default flow.
  unfoldable pub complex_targets : Map String V → Option String → List SequenceFlow → List String
  complex_targets variables default [] = []
  complex_targets variables default (sf ∷ flows) =
      let rest = complex_targets variables default flows in
      elim sf.condition [
        | some cond ↦ if holds cond variables then sf.target ∷ rest else rest
        | none ↦ if is_default default sf then rest else sf.target ∷ rest
      ]

  unfoldable pub execute_complex_gateway :
      (ℕ → Uuid) → ProcessDefinition V → String → Token V → Option String → Outcome V
  unfolding split_matched
  execute_complex_gateway new_v4 def current_id token default =
      let unmerged = record token { is_merged = false } in
      if must_join def current_id token
      then (ok (wait_for_join current_id token), token)
      else split_matched new_v4 current_id unmerged
          (or_default default (complex_targets token.variables default (next_nodes def current_id)))
