-- ===== src/Tests/Flow.antt =====
-- The theorems on definitions, gateways, joins and mappings at concrete inputs.
use bpmninja.Prelude.{
  ℕ, String, ◌≡◌, ◌≢◌, inl, refl, ◌⊎◌, ◌↔◌, true, false, Option, none, some, [], ◌∷◌, Map, get,
  insert, keys, select, All, string_eq,
}
use bpmninja.Prelude.Int.{pos}
use bpmninja.Domain.Error.{ok, err, no_matching_condition}
use bpmninja.Domain.Data.{evaluate_mappings, evaluate, evaluate_from}
use bpmninja.Domain.Data.Snapshot.{targets, AreDistinct, evaluate_mappings-snapshot}
use bpmninja.Domain.Token.{Token}
use bpmninja.Domain.Graph.{
  DefinitionTree, SubProcesses, next_nodes, outgoing_flows, get_node, incoming_flow_count,
  incoming_count,
}
use bpmninja.Domain.Definition.{new}
use bpmninja.Domain.Definition.WellFormed.{IsWellFormed, new-ok_iff}
use bpmninja.Engine.Gateway.{
  move_to, condition_true, targets_of, must_join, execute_exclusive_gateway,
  execute_inclusive_gateway,
}
use bpmninja.Engine.Gateway.Exclusive.{Route, NoFlow, is_plain, execute_exclusive_gateway-Route}
use bpmninja.Engine.Gateway.Fork.{
  Waits, SplitsOrFails, is_enabled, execute_inclusive_gateway-Splits,
}
use bpmninja.Engine.Join.{arrive}
use bpmninja.Engine.Join.Barrier.{arrivals, last_value, arrivals_join}
use bpmninja.Engine.Topology.{find_downstream_join}
use bpmninja.Engine.Topology.Search.{IsJoinFor, find_downstream_join_sound}
use bpmninja.Tests.Samples.{
  json, holds, ids, nodes, flows, mappings, process, token_at, instance_one,
}

abbrev at_fork : Token ℕ
at_fork = token_at 3 "fork" (("count", 4) ∷ [])

abbrev at_choice : Token ℕ
at_choice = token_at 3 "choice" []

abbrev to_end : Option String
to_end = some "end"

abbrev count_four : Map String ℕ
count_four = ("count", 4) ∷ []

abbrev local_inputs : Map String ℕ
local_inputs = ("copies", 2) ∷ ("page", 4) ∷ []

new-ok_iff_example :
    ((t : DefinitionTree ℕ) × (new 1 "printing" (pos 1) nodes flows [] [] SubProcesses.no_subs
        ≡ ok t))
    ↔ IsWellFormed nodes flows
new-ok_iff_example = new-ok_iff 1 "printing" (pos 1) nodes flows [] [] SubProcesses.no_subs

execute_exclusive_gateway-Route_example :
    ((target : String) × Route
        (condition_true holds [])
        (is_plain (some "end"))
        (some "end")
        (next_nodes process "choice")
        target
      × (execute_exclusive_gateway holds process "choice" at_choice (some "end")
          ≡ move_to at_choice target))
    ⊎ (NoFlow (condition_true holds []) (next_nodes process "choice")
        × NoFlow (is_plain (some "end")) (next_nodes process "choice")
        × (to_end ≡ none)
        × (execute_exclusive_gateway holds process "choice" at_choice (some "end")
            ≡ (err (no_matching_condition "choice"), at_choice)))
execute_exclusive_gateway-Route_example =
    execute_exclusive_gateway-Route holds process "choice" at_choice (some "end")

execute_inclusive_gateway-Splits_example :
    Waits ids process "fork" at_fork (execute_inclusive_gateway holds ids process "fork" at_fork)
    ⊎ ((must_join process "fork" at_fork ≡ false)
        × SplitsOrFails ids "fork" at_fork
            (targets_of
              (select (is_enabled ids holds (("count", 4) ∷ [])) (next_nodes process "fork")))
            (execute_inclusive_gateway holds ids process "fork" at_fork))
execute_inclusive_gateway-Splits_example =
    execute_inclusive_gateway-Splits ids holds process "fork" at_fork

abbrev first_in : Token ℕ
first_in = token_at 4 "join" (("a", 1) ∷ [])

abbrev last_in : Token ℕ
last_in = token_at 5 "join" (("b", 2) ∷ [])

arrivals_join_example :
    let (results, after) = arrivals holds 100 2 process "join" (first_in ∷ []) instance_one in
    let (result, final) = arrive holds 100 2 process "join" last_in after in
    All (λ r. r ≡ ok none) results
    × ((merged : Token ℕ) × (result ≡ ok (some merged))
        × (merged.id ≡ 100)
        × (merged.current_node ≡ "join")
        × (merged.is_merged ≡ true)
        × ((k : String) → get k merged.variables ≡ last_value k (first_in ∷ last_in ∷ [])))
    × (get "join" final.join_barriers ≡ none)
unfolding get get_node outgoing_flows incoming_flow_count incoming_count
arrivals_join_example =
    arrivals_join holds 100 2 process "join" 2 refl (first_in ∷ []) last_in instance_one
      (inl (refl, refl)) refl

find_downstream_join_sound_example :
    (find_downstream_join process "fork" ≡ some none)
    ⊎ ((join : String) × (split_element : _) × (find_downstream_join process "fork"
          ≡ some (some join))
        × (get "fork" process.nodes ≡ some split_element)
        × IsJoinFor process split_element join)
find_downstream_join_sound_example = find_downstream_join_sound process "fork"

evaluate_mappings-snapshot_example :
    (keys local_inputs ≡ targets mappings.inputs)
    × AreDistinct mappings.inputs
    × All (λ m. json.is_blank m.target ≡ false) mappings.inputs
    × All
        (λ m.
          (v : ℕ) × (evaluate json count_four m.value ≡ ok v)
          × (get m.target local_inputs ≡ some v))
        mappings.inputs
unfolding evaluate_mappings evaluate_from evaluate get insert
evaluate_mappings-snapshot_example =
    evaluate_mappings-snapshot json mappings.inputs count_four local_inputs refl

not_true : false ≢ true
not_true e = cc
