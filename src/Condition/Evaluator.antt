-- ===== src/Condition/Evaluator.antt =====
-- The evaluation of engine-core/src/condition.rs: `evaluate` and what it calls, `evaluate_condition`
-- and `validate_condition`.
pub mod Typing
pub mod Frame
use bpmninja.Prelude.{
  String, string_eq, Bool, true, false, ◌&&◌, ◌||◌, Option, none, some, List, [], ◌∷◌, Map, get,
  get_elem?, ◌==◌, if◌then◌else◌,
}
use bpmninja.Domain.Error.{Result, ok, err, ◌>>=◌}
use bpmninja.Condition.Syntax.{
  CmpOp, ArithOp, PathSegment, EvalValue, Expr, Parsed, Float, FloatOrdering, JsonShape, JsonView,
  literal, path, not, neg, and, or, compare, arith, eq, ne, gt, lt, ge, le, add, sub, mul, div, rem,
  field, index, undefined, less, equal, greater,
}
use bpmninja.Condition.Lexer.{all_whitespace}
use bpmninja.Condition.Literals.{Unicode, chars}
use bpmninja.Condition.Parser.{parse_condition}
use bpmninja.Prelude

-- The texts of the errors with the types, or the operator, that they name.
pub data EvalError : Type 0 where
  cannot_negate : String → EvalError
  cannot_compare : (lhs rhs : String) → EvalError
  cannot_compare_nan : EvalError
  cannot_apply : ArithOp → (lhs rhs : String) → EvalError
  division_by_zero : ArithOp → EvalError

abbrev pub Evaluated : Type 0 → Type 0
Evaluated A = Result EvalError A

module _ {F V : Type 0} where
  abbrev pub is_undefined : EvalValue F V → Bool
  is_undefined undefined = true
  is_undefined _ = false

module _ {F V : Type 0} (view : JsonView F V) where
  unfoldable pub from_json : V → EvalValue F V
  from_json value = elim (view.shape value) [
    | JsonShape.null ↦ EvalValue.null
    | JsonShape.bool b ↦ EvalValue.bool b
    | JsonShape.number n ↦ EvalValue.number n
    | JsonShape.big ↦ EvalValue.json value
    | JsonShape.string s ↦ EvalValue.string s
    | JsonShape.array _ ↦ EvalValue.json value
    | JsonShape.object _ ↦ EvalValue.json value
  ]

  unfoldable pub type_name : EvalValue F V → String
  type_name undefined = "undefined"
  type_name EvalValue.null = "null"
  type_name (EvalValue.bool _) = "boolean"
  type_name (EvalValue.number _) = "number"
  type_name (EvalValue.string _) = "string"
  type_name (EvalValue.json value) = elim (view.shape value) [
    | JsonShape.array _ ↦ "array"
    | JsonShape.object _ ↦ "object"
    | _ ↦ "value"
  ]

  -- `match (&current, segment)` of `resolve_path`, on what the current value holds.
  abbrev pub member : JsonShape F V → PathSegment → Option V
  member (JsonShape.object entries) (field name) = get name entries
  member (JsonShape.array items) (index i) = get_elem? items i
  member _ _ = none

  unfoldable pub next_value : EvalValue F V → PathSegment → Option V
  next_value (EvalValue.json value) segment = member (view.shape value) segment
  next_value _ segment = none

  unfoldable pub walk : EvalValue F V → List PathSegment → EvalValue F V
  unfolding next_value from_json
  walk current [] = current
  walk current (segment ∷ segments) = elim (next_value current segment) [
    | none ↦ undefined
    | some value ↦ walk (from_json value) segments
  ]

  unfoldable pub resolve_path : List PathSegment → Map String V → EvalValue F V
  unfolding walk
  resolve_path (field root ∷ segments) variables = elim (get root variables) [
    | none ↦ undefined
    | some value ↦ walk (from_json value) segments
  ]
  resolve_path _ variables = undefined

module _ {F V : Type 0} (fl : Float F) (view : JsonView F V) where
  unfoldable pub truthy : EvalValue F V → Bool
  truthy undefined = false
  truthy EvalValue.null = false
  truthy (EvalValue.bool b) = b
  truthy (EvalValue.number n) = Prelude.not (fl.is_zero n)
  truthy (EvalValue.string s) = Prelude.not (s == "")
  truthy (EvalValue.json _) = true

  unfoldable pub values_eq : EvalValue F V → EvalValue F V → Bool
  values_eq EvalValue.null EvalValue.null = true
  values_eq (EvalValue.bool a) (EvalValue.bool b) = if a then b else Prelude.not b
  values_eq (EvalValue.number a) (EvalValue.number b) = fl.within_epsilon a b
  values_eq (EvalValue.string a) (EvalValue.string b) = a == b
  values_eq (EvalValue.json a) (EvalValue.json b) = view.same a b
  values_eq _ _ = false

  abbrev pub ordered : CmpOp → FloatOrdering → Bool
  ordered gt greater = true
  ordered lt less = true
  ordered ge greater = true
  ordered ge equal = true
  ordered le less = true
  ordered le equal = true
  ordered _ _ = false

  unfoldable pub compare_numbers : CmpOp → EvalValue F V → EvalValue F V → Evaluated Bool
  unfolding type_name
  compare_numbers op (EvalValue.number a) (EvalValue.number b) = elim (fl.partial_cmp a b) [
    | none ↦ err cannot_compare_nan
    | some ordering ↦ ok (ordered op ordering)
  ]
  compare_numbers op lhs rhs = err (cannot_compare (type_name view lhs) (type_name view rhs))

  unfoldable pub compare_values : CmpOp → EvalValue F V → EvalValue F V → Evaluated Bool
  unfolding values_eq compare_numbers
  compare_values eq lhs rhs = ok (values_eq lhs rhs)
  compare_values ne lhs rhs =
      ok (if is_undefined lhs || is_undefined rhs then false else Prelude.not (values_eq lhs rhs))
  compare_values op lhs rhs =
      if is_undefined lhs || is_undefined rhs then ok false else compare_numbers op lhs rhs

  abbrev pub divides : ArithOp → Bool
  divides div = true
  divides rem = true
  divides _ = false

  unfoldable pub arithmetic_numbers :
      ArithOp → EvalValue F V → EvalValue F V → Evaluated (EvalValue F V)
  unfolding type_name
  arithmetic_numbers op (EvalValue.number a) (EvalValue.number b) =
      if divides op && fl.is_zero b
      then err (division_by_zero op)
      else ok (EvalValue.number (fl.op op a b))
  arithmetic_numbers op lhs rhs = err (cannot_apply op (type_name view lhs) (type_name view rhs))

  unfoldable pub arithmetic : ArithOp → EvalValue F V → EvalValue F V → Evaluated (EvalValue F V)
  unfolding arithmetic_numbers
  arithmetic op lhs rhs =
      if is_undefined lhs || is_undefined rhs then ok undefined else arithmetic_numbers op lhs rhs

  unfoldable pub negate : EvalValue F V → Evaluated (EvalValue F V)
  unfolding type_name
  negate undefined = ok undefined
  negate (EvalValue.number n) = ok (EvalValue.number (fl.neg n))
  negate other = err (cannot_negate (type_name view other))

  unfoldable pub evaluate : Map String V → Expr F V → Evaluated (EvalValue F V)
  unfolding resolve_path truthy negate compare_values arithmetic
  evaluate variables (literal value) = ok value
  evaluate variables (path segments) = ok (resolve_path view segments variables)
  evaluate variables (not inner) =
      evaluate variables inner >>= λ value. ok (EvalValue.bool (Prelude.not (truthy value)))
  evaluate variables (neg inner) = evaluate variables inner >>= negate
  evaluate variables (and lhs rhs) = evaluate variables lhs >>= λ l. elim (truthy l) [
    | true ↦ evaluate variables rhs >>= λ r. ok (EvalValue.bool (truthy r))
    | false ↦ ok (EvalValue.bool false)
  ]
  evaluate variables (or lhs rhs) = evaluate variables lhs >>= λ l. elim (truthy l) [
    | true ↦ ok (EvalValue.bool true)
    | false ↦ evaluate variables rhs >>= λ r. ok (EvalValue.bool (truthy r))
  ]
  evaluate variables (compare op lhs rhs) = evaluate variables lhs >>= λ l.
      evaluate variables rhs >>= λ r. compare_values op l r >>= λ b. ok (EvalValue.bool b)
  evaluate variables (arith op lhs rhs) =
      evaluate variables lhs >>= λ l. evaluate variables rhs >>= λ r. arithmetic op l r

  unfoldable pub evaluate_condition : Unicode → String → Map String V → Bool
  unfolding all_whitespace parse_condition evaluate
  evaluate_condition u expr variables =
      if all_whitespace u (chars expr) then false else elim (parse_condition {V = V} fl u expr) [
        | err _ ↦ false
        | ok ast ↦ elim (evaluate variables ast) [ err _ ↦ false | ok value ↦ truthy value ]
      ]

module _ {F : Type 0} (V : Type 0) (fl : Float F) where
  unfoldable pub validate_condition : Unicode → String → Parsed F (Unit {0})
  unfolding parse_condition
  validate_condition u expr = parse_condition {V = V} fl u expr >>= λ _. ok tt
