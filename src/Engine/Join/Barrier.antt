-- ===== src/Engine/Join/Barrier.antt =====
-- A join barrier collects the tokens of its branches and fires once.
use bpmninja.Prelude.{
  ℕ, suc, ◌+◌, ◌≤◌, ◌<◌, String, ◌≡◌, refl, ◌∙◌, ◌⊎◌, inl, inr, Bool, true, false, Option, none,
  some, List, [], ◌∷◌, ◌++◌, append_assoc, append-nil, Map, get, insert, extend, get_last,
  get-extend, get-insert_self, get-remove, string_eq, eq_iff, length, length-append, arith, All,
}
use bpmninja.Domain.Error.{Uuid, EngineResult, ok}
use bpmninja.Domain.Token.{Token, with_variables}
use bpmninja.Domain.Graph.{ProcessDefinition, get_node, incoming_flow_count}
use bpmninja.Runtime.Instance.{ProcessInstance}
use bpmninja.Engine.Join.{
  merge_variables, arrived_barrier, join_condition_of, condition_met, fire, arrive,
}

-- The value that the last token carrying the variable brings.
unfoldable pub last_value : {V : Type 0} → String → List (Token V) → Option V
last_value k [] = none
last_value k (t ∷ ts) = elim (last_value k ts) [ some v ↦ some v | none ↦ get_last k t.variables ]

or_else : {V : Type 0} → Option V → Option V → Option V
or_else (some v) o = some v
or_else none o = o

get-merge_from :
    {V : Type 0} (k : String) (vars : Map String V) (ts : List (Token V))
    → get k (merge_variables vars ts) ≡ or_else (last_value k ts) (get k vars)
unfolding merge_variables last_value or_else
get-merge_from k vars [] = refl
get-merge_from k vars (t ∷ ts) =
    ground (arith, get-merge_from k (extend vars t.variables) ts, get-extend k vars t.variables)

-- The barrier that a gateway has before its first token, with the number that it expects.
abbrev pub Expects : {V : Type 0} → ProcessDefinition V → String → ℕ → ProcessInstance V → Type 0
Expects def gateway_id expected inst =
    (get gateway_id inst.join_barriers ≡ none) × (expected ≡ incoming_flow_count def gateway_id)
    ⊎ (get gateway_id inst.join_barriers
        ≡ some (record {
          gateway_node_id = gateway_id;
          expected_count = expected;
          arrived_tokens = [];
        }))

abbrev Unstarted :
    {V : Type 0} → ProcessDefinition V → String → ℕ → ProcessInstance V → List (Token V) → Type 0
Unstarted def gateway_id expected inst arrived =
    (arrived ≡ [])
    × (get gateway_id inst.join_barriers ≡ none)
    × (expected ≡ incoming_flow_count def gateway_id)

module _ {V : Type 0} (holds : String → Map String V → Bool) (merged_id instance_id : Uuid)
    (def : ProcessDefinition V) (gateway_id : String) (expected : ℕ)
    (unconditional : join_condition_of (get_node def gateway_id) ≡ none) where
  abbrev Held : ProcessInstance V → List (Token V) → Type 0
  Held inst arrived =
      Unstarted def gateway_id expected inst arrived
      ⊎ (get gateway_id inst.join_barriers
          ≡ some (record {
            gateway_node_id = gateway_id;
            expected_count = expected;
            arrived_tokens = arrived;
          }))

  unmet : (arrived : List (Token V)) → condition_met holds def gateway_id arrived ≡ false
  unfolding condition_met
  unmet arrived = rw (unconditional, condition_met)

  arrived_barrier-Held :
      (token : Token V) (arrived : List (Token V)) (inst : ProcessInstance V)
      → Held inst arrived
      → arrived_barrier def gateway_id token inst.join_barriers ≡ record {
        gateway_node_id = gateway_id;
        expected_count = expected;
        arrived_tokens = arrived ++ token ∷ [];
      }
  unfolding arrived_barrier
  arrived_barrier-Held token arrived inst (inl (e, h, f)) = rw e (ground (arith, h))
  arrived_barrier-Held token arrived inst (inr h) = ground (arith, h)

  arrive_waits :
      (token : Token V) (arrived : List (Token V)) (inst : ProcessInstance V)
      → Held inst arrived
      → suc (length arrived) < expected
      → let (result, inst') = arrive holds merged_id instance_id def gateway_id token inst in
        (result ≡ ok none) × Held inst' (arrived ++ token ∷ [])
  unfolding arrive
  arrive_waits token arrived inst held room =
      let b = arrived_barrier-Held token arrived inst held in
      let n = length-append arrived (token ∷ []) in
      ground (
        arith,
        b,
        unmet (arrived ++ token ∷ []),
        n,
        get-insert_self gateway_id (arrived_barrier def gateway_id token inst.join_barriers)
            inst.join_barriers,
      )

  arrive_fires :
      (token : Token V) (arrived : List (Token V)) (inst : ProcessInstance V)
      → Held inst arrived
      → expected ≤ suc (length arrived)
      → let (result, inst') = arrive holds merged_id instance_id def gateway_id token inst in
        (result
          ≡ ok (
              some (record {
                id = merged_id;
                current_node = gateway_id;
                variables = merge_variables [] (arrived ++ token ∷ []);
                is_merged = true;
                data_scope = none;
              })))
        × (get gateway_id inst'.join_barriers ≡ none)
  unfolding arrive fire with_variables
  arrive_fires token arrived inst held full =
      let b = arrived_barrier-Held token arrived inst held in
      let n = length-append arrived (token ∷ []) in
      let barrier = arrived_barrier def gateway_id token inst.join_barriers in
      ground (
        arith,
        b,
        unmet (arrived ++ token ∷ []),
        n,
        get-insert_self gateway_id barrier inst.join_barriers,
        get-remove gateway_id gateway_id (insert gateway_id barrier inst.join_barriers),
        eq_iff gateway_id gateway_id,
      )

or_else-none : {V : Type 0} (o : Option V) → or_else o none ≡ o
unfolding or_else
or_else-none none = refl
or_else-none (some v) = refl

get-merged :
    {V : Type 0} (k : String) (ts : List (Token V))
    → get k (merge_variables [] ts) ≡ last_value k ts
unfolding or_else get
get-merged k ts = get-merge_from k [] ts ∙ or_else-none (last_value k ts)

-- Tokens that arrive at a join one after the other.
unfoldable pub arrivals :
    {V : Type 0} (holds : String → Map String V → Bool) (merged_id instance_id : Uuid)
    (def : ProcessDefinition V) (gateway_id : String)
    → List (Token V)
    → ProcessInstance V
    → List (EngineResult (Option (Token V))) × ProcessInstance V
arrivals holds merged_id instance_id def gateway_id [] inst = ([], inst)
arrivals holds merged_id instance_id def gateway_id (t ∷ ts) inst =
    let (result, inst') = arrive holds merged_id instance_id def gateway_id t inst in
    let (results, after) = arrivals holds merged_id instance_id def gateway_id ts inst' in
    (result ∷ results, after)

module _ {V : Type 0} (holds : String → Map String V → Bool) (merged_id instance_id : Uuid)
    (def : ProcessDefinition V) (gateway_id : String) (expected : ℕ)
    (unconditional : join_condition_of (get_node def gateway_id) ≡ none) where
  Held-Expects :
      (inst : ProcessInstance V)
      → Expects def gateway_id expected inst
      → Held holds merged_id instance_id def gateway_id expected unconditional inst []
  Held-Expects inst (inl (absent, e)) = inl (refl, absent, e)
  Held-Expects inst (inr e) = inr e

  arrivals_wait :
      (ts arrived : List (Token V)) (inst : ProcessInstance V)
      → Held holds merged_id instance_id def gateway_id expected unconditional inst arrived
      → length arrived + length ts < expected
      → let (results, after) = arrivals holds merged_id instance_id def gateway_id ts inst in
        All (λ r. r ≡ ok none) results
        × Held holds merged_id instance_id def gateway_id expected unconditional after
            (arrived ++ ts)
  unfolding arrivals
  arrivals_wait [] arrived inst held room = (tt, rw append-nil held)
  arrivals_wait (t ∷ ts) arrived inst held room =
      let (waits, held') =
        arrive_waits holds merged_id instance_id def gateway_id expected unconditional t arrived
          inst held (omega arith) in
      let (rest, held'') =
        arrivals_wait ts (arrived ++ t ∷ [])
          (arrive holds merged_id instance_id def gateway_id t inst).1 held'
          (omega (arith, length-append arrived (t ∷ []))) in
      ((waits, rest), rw append_assoc at held'')

  -- At a join gateway without a condition of its own that no token has reached yet, the token that
  -- completes the expected number fires the join and no earlier one does: all others are parked. The
  -- number is that of the registered barrier or, with no barrier, of the incoming flows. The join
  -- gives one merged token at the gateway, whose variables are those of the last arrival that
  -- carries them, and leaves no barrier behind.
  pub arrivals_join :
      (ts : List (Token V)) (last : Token V) (inst : ProcessInstance V)
      → Expects def gateway_id expected inst
      → length ts + 1 ≡ expected
      → let (results, after) = arrivals holds merged_id instance_id def gateway_id ts inst in
        let (result, final) = arrive holds merged_id instance_id def gateway_id last after in
        All (λ r. r ≡ ok none) results
        × ((merged : Token V) × (result ≡ ok (some merged))
            × (merged.id ≡ merged_id)
            × (merged.current_node ≡ gateway_id)
            × (merged.is_merged ≡ true)
            × ((k : String) → get k merged.variables ≡ last_value k (ts ++ last ∷ [])))
        × (get gateway_id final.join_barriers ≡ none)
  arrivals_join ts last inst awaits full =
      let (waits, held) = arrivals_wait ts [] inst (Held-Expects inst awaits) (omega arith) in
      let (fires, gone) =
        arrive_fires holds merged_id instance_id def gateway_id expected unconditional last ts
          (arrivals holds merged_id instance_id def gateway_id ts inst).1 held (omega arith) in
      (waits, (_, fires, refl, refl, refl, λ k. get-merged k (ts ++ last ∷ [])), gone)
