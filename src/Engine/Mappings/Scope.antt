-- ===== src/Engine/Mappings/Scope.antt =====
-- Inputs of an activity are local to it.
use bpmninja.Prelude.{
  String, ◌≡◌, refl, ap, ◌∙◌, ◌⊎◌, inl, inr, Bool, false, ◌||◌, none, some, List, [], ◌∷◌, Map, get,
  insert, remove, extend, keys, get-insert, get-remove, get-extend, get_last, ◌==◌, string_eq,
  eq_iff, if◌then◌else◌, any, arith, Option-cases,
}
use bpmninja.Domain.Error.{EngineError, Result, ok, err}
use bpmninja.Domain.Data.{Json, ActivityMappings, evaluate_mappings, evaluate_from}
use bpmninja.Domain.Token.{Token, process_variables, hide_locals}
use bpmninja.Domain.Graph.{ProcessDefinition}
use bpmninja.Engine.Mappings.{
  enter, leave, activate, drop_foreign, is_multi_instance_service, activated, deactivated,
}

abbrev pub named : String → List String → Bool
named k names = any (λ n. n == k) names

-- Outside the activity a local name has its value from before, and any other name its current one.
get-hide_locals :
    {V : Type 0} (k : String) (original : Map String V) (names : List String)
    (variables : Map String V)
    → get k (hide_locals original names variables)
      ≡ (if named k names then get k original else get k variables)
unfolding hide_locals
get-hide_locals k original [] variables = refl
get-hide_locals k original (n ∷ names) variables = elim (Option-cases (get n original)) [
  | inl e ↦ ground (
    arith,
    e,
    get-hide_locals k original names (remove n variables),
    get-remove n k variables,
    eq_iff n k,
  )
  | inr (v, e) ↦ ground (
    arith,
    e,
    get-hide_locals k original names (insert n v variables),
    get-insert n k v variables,
    eq_iff n k,
  )
]

or_false_right : (a b : Bool) → (a || b) ≡ false → b ≡ false
or_false_right a b h = ground arith

get_last-unnamed :
    {V : Type 0} (k : String) (m : Map String V) → named k (keys m) ≡ false → get_last k m ≡ none
unfolding get_last
get_last-unnamed k [] h = refl
get_last-unnamed k ((j, v) ∷ m) h =
    let rest = get_last-unnamed k m (or_false_right (j == k) (named k (keys m)) h) in
    ground (arith, rest)

Result-cases : {E A : Type 0} (r : Result E A) → ((e : E) × (r ≡ err e)) ⊎ ((a : A) × (r ≡ ok a))
Result-cases (ok a) = inr (a, refl)
Result-cases (err e) = inl (e, refl)

module _ {V : Type 0} (j : Json V) (def : ProcessDefinition V) (node : String)
    (m : ActivityMappings V) (single : is_multi_instance_service def node ≡ false)
    (mapped : get node def.data_mappings ≡ some m) where
  enter-fresh :
      (token : Token V)
      → token.data_scope ≡ none
      → enter j def node token ≡ activate j def node token
  unfolding enter drop_foreign
  enter-fresh token fresh = ground (arith, fresh, single)

  activate-ok :
      (token : Token V) (inputs : Map String V)
      → evaluate_mappings j m.inputs token.variables ≡ ok inputs
      → activate j def node token ≡ (ok tt, activated j def node token inputs)
  unfolding activate
  activate-ok token inputs e = rw (mapped, activate) (rw e)

  activate-err :
      (token : Token V) (x : EngineError)
      → evaluate_mappings j m.inputs token.variables ≡ err x
      → activate j def node token ≡ (err x, token)
  unfolding activate
  activate-err token x e = rw (mapped, activate) (rw e)

  -- The activity's end, with no output mappings.
  leave-activated :
      (token : Token V) (inputs variables : Map String V)
      → m.outputs ≡ []
      → let t = record (activated j def node token inputs) { variables = variables } in
        leave j def node t ≡ (ok tt, deactivated j def node t (process_variables t))
  unfolding leave evaluate_mappings evaluate_from extend
  leave-activated token inputs variables no_outputs =
      ground (arith, mapped, no_outputs, eq_iff node node)

  get-process :
      (token : Token V) (inputs worker : Map String V) (k : String)
      → get k (
          process_variables (record (activated j def node token inputs) {
            variables = extend (extend token.variables inputs) worker;
          }))
        ≡ (if named k (keys inputs)
            then get k token.variables
            else get k (extend token.variables worker))
  unfolding process_variables
  get-process token inputs worker k =
      let before = token.variables in
      ground (
        arith,
        get-hide_locals k before (keys inputs) (extend (extend before inputs) worker),
        get-extend k (extend before inputs) worker,
        get-extend k before inputs,
        get-extend k before worker,
        get_last-unnamed k inputs,
      )

  -- The inputs of an activity without output mappings stay local to it. If they cannot be evaluated,
  -- the token is left as it was. Otherwise, when the activity ends after its worker wrote some
  -- variables, each input name has the value from before the activity again, and any other
  -- variable has the value that the worker wrote, or else the one from before.
  enter-leave_local :
      (token : Token V) (worker : Map String V)
      → token.data_scope ≡ none
      → m.outputs ≡ []
      → let (entered, t) = enter j def node token in
        let (left, after) = leave j def node (record t { variables = extend t.variables worker }) in
        ((x : EngineError) × (entered ≡ err x) × (t ≡ token))
        ⊎ ((inputs : Map String V) × (evaluate_mappings j m.inputs token.variables ≡ ok inputs)
            × (entered ≡ ok tt)
            × (left ≡ ok tt)
            × (after.data_scope ≡ none)
            × ((k : String)
                → get k after.variables ≡ (
                    if named k (keys inputs)
                    then get k token.variables
                    else get k (extend token.variables worker))))
  enter-leave_local token worker fresh no_outputs =
      elim (Result-cases (evaluate_mappings j m.inputs token.variables)) [
        | inl (x, e) ↦
            let entered = enter-fresh token fresh ∙ activate-err token x e in
            inl (x, ap (λ r. r.0) entered, ap (λ r. r.1) entered)
        | inr (inputs, e) ↦
            let entered = enter-fresh token fresh ∙ activate-ok token inputs e in
            let end =
              ap
                (λ (t : Token V).
                  leave j def node (record t { variables = extend t.variables worker }))
                (ap (λ r. r.1) entered)
              ∙ leave-activated token inputs (extend (extend token.variables inputs) worker)
                  no_outputs in
            inr (
              inputs,
              e,
              ap (λ r. r.0) entered,
              ap (λ r. r.0) end,
              ap (λ r. r.1.data_scope) end,
              λ k. ap (λ r. get k r.1.variables) end ∙ get-process token inputs worker k,
            )
      ]
