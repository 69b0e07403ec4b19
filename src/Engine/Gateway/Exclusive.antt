-- ===== src/Engine/Gateway/Exclusive.antt =====
-- Which way an exclusive gateway sends a token.
use bpmninja.Prelude.{
  String, ◌≡◌, refl, ◌⊎◌, inl, inr, ap, Bool, true, false, not, ◌&&◌, Option, none, some, List, [],
  ◌∷◌, ◌++◌, Map, All, arith, Bool-cases, Option-cases, if◌then◌else◌,
}
use bpmninja.Domain.Error.{err, no_matching_condition}
use bpmninja.Domain.Element.{SequenceFlow}
use bpmninja.Domain.Token.{Token}
use bpmninja.Domain.Graph.{ProcessDefinition, next_nodes}
use bpmninja.Engine.Gateway.{
  condition_true, is_default, is_unconditional, first_true, first_unconditional, chosen_target,
  execute_exclusive_gateway, move_to,
}

-- `sf` is the first flow that passes the test.
pub record First (p : SequenceFlow → Bool) (flows : List SequenceFlow) (sf : SequenceFlow)
    : Type 0 where
  pub before : List SequenceFlow
  pub after : List SequenceFlow
  pub place : flows ≡ before ++ sf ∷ after
  pub skipped : All (λ f. p f ≡ false) before
  pub taken : p sf ≡ true

abbrev pub NoFlow : (SequenceFlow → Bool) → List SequenceFlow → Type 0
NoFlow p flows = All (λ f. p f ≡ false) flows

First-cons :
    (p : SequenceFlow → Bool) (f sf : SequenceFlow) (flows : List SequenceFlow)
    → p f ≡ false
    → First p flows sf
    → First p (f ∷ flows) sf
First-cons p f sf flows h w = record {
  before = f ∷ w.before;
  after = w.after;
  place = ap (λ l. f ∷ l) w.place;
  skipped = (h, w.skipped);
  taken = w.taken;
}

First-head :
    (p : SequenceFlow → Bool) (f : SequenceFlow) (flows : List SequenceFlow)
    → p f ≡ true
    → First p (f ∷ flows) f
First-head p f flows h = record {
  before = [];
  after = flows;
  place = refl;
  skipped = tt;
  taken = h;
}

-- The search loops of the gateway, as one loop.
abbrev FoundBy : (SequenceFlow → Bool) → List SequenceFlow → Option String → Type 0
FoundBy p flows r =
    (NoFlow p flows × (r ≡ none)) ⊎ ((sf : SequenceFlow) × First p flows sf × (r ≡ some sf.target))

step_FoundBy :
    (p : SequenceFlow → Bool) (f : SequenceFlow) (flows : List SequenceFlow) (r : Option String)
    → FoundBy p flows r
    → FoundBy p (f ∷ flows) (if p f then some f.target else r)
step_FoundBy p f flows r found = elim (Bool-cases (p f)) [
  | inl hit ↦ rw hit (inr (f, First-head p f flows hit, refl))
  | inr miss ↦ rw miss (elim found [
    | inl (nothing, e) ↦ inl ((refl, nothing), e)
    | inr (sf, w, e) ↦ inr (sf, First-cons p f sf flows miss w, e)
  ])
]

module _ {V : Type 0} (holds : String → Map String V → Bool) where
  first_true-FoundBy :
      (variables : Map String V) (flows : List SequenceFlow)
      → FoundBy (condition_true holds variables) flows (first_true holds variables flows)
  unfolding first_true
  first_true-FoundBy variables [] = inl (tt, refl)
  first_true-FoundBy variables (f ∷ flows) =
      step_FoundBy (condition_true holds variables) f flows _ (first_true-FoundBy variables flows)

-- An unconditional flow that is not the default one.
abbrev pub is_plain : Option String → SequenceFlow → Bool
is_plain default sf = is_unconditional sf && not (is_default default sf)

first_unconditional-FoundBy :
    (default : Option String) (flows : List SequenceFlow)
    → FoundBy (is_plain default) flows (first_unconditional default flows)
unfolding first_unconditional
first_unconditional-FoundBy default [] = inl (tt, refl)
first_unconditional-FoundBy default (f ∷ flows) =
    step_FoundBy (is_plain default) f flows _ (first_unconditional-FoundBy default flows)

-- Where the token goes: by the first true condition; failing that by the first unconditional flow
-- that is not the default; failing that to the default.
pub data Route (yes? plain? : SequenceFlow → Bool) (default : Option String)
    (flows : List SequenceFlow) (target : String) : Type 0 where
  by_condition :
      (sf : SequenceFlow)
      → First yes? flows sf
      → sf.target ≡ target
      → Route yes? plain? default flows target
  by_plain_flow :
      (sf : SequenceFlow)
      → NoFlow yes? flows
      → First plain? flows sf
      → sf.target ≡ target
      → Route yes? plain? default flows target
  by_default :
      NoFlow yes? flows
      → NoFlow plain? flows
      → default ≡ some target
      → Route yes? plain? default flows target

module _ {V : Type 0} (holds : String → Map String V → Bool) (variables : Map String V)
    (default : Option String) (flows : List SequenceFlow) where
  abbrev IsRoute : String → Type 0
  IsRoute = Route (condition_true holds variables) (is_plain default) default flows

  chosen_cases :
      ((target : String) × IsRoute target
        × (chosen_target holds variables default flows ≡ some target))
      ⊎ ((chosen_target holds variables default flows ≡ none)
          × NoFlow (condition_true holds variables) flows
          × NoFlow (is_plain default) flows
          × (default ≡ none))
  unfolding chosen_target
  chosen_cases = elim (first_true-FoundBy holds variables flows) [
    | inr (sf, w, e) ↦ inl (sf.target, by_condition sf w refl, ground arith)
    | inl (no_true, e) ↦ elim (first_unconditional-FoundBy default flows) [
      | inr (sf, w, e') ↦ inl (sf.target, by_plain_flow sf no_true w refl, ground arith)
      | inl (no_plain, e') ↦ elim (Option-cases default) [
        | inl none_left ↦ inr (ground arith, no_true, no_plain, none_left)
        | inr (d, e'') ↦ inl (d, by_default no_true no_plain e'', ground arith)
      ]
    ]
  ]

-- An exclusive gateway sends the token, otherwise unchanged, to the one target that the route
-- rule gives; it fails, with the token untouched, only if no condition holds, every unconditional
-- flow leads to the default target, and there is no default.
pub execute_exclusive_gateway-Route :
    {V : Type 0} (holds : String → Map String V → Bool) (def : ProcessDefinition V)
    (current_id : String) (token : Token V) (default : Option String)
    → let flows = next_nodes def current_id in
      let outcome = execute_exclusive_gateway holds def current_id token default in
      let yes? = condition_true holds token.variables in
      ((target : String) × Route yes? (is_plain default) default flows target
        × (outcome ≡ move_to token target))
      ⊎ (NoFlow yes? flows
          × NoFlow (is_plain default) flows
          × (default ≡ none)
          × (outcome ≡ (err (no_matching_condition current_id), token)))
unfolding execute_exclusive_gateway
execute_exclusive_gateway-Route holds def current_id token default =
    elim (chosen_cases holds token.variables default (next_nodes def current_id)) [
      | inl (target, route, e) ↦ inl (target, route, ground arith)
      | inr (e, no_true, no_plain, no_default) ↦ inr (no_true, no_plain, no_default, ground arith)
    ]
