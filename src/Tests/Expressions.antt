-- ===== src/Tests/Expressions.antt =====
-- The theorems on the condition language at concrete inputs. Numbers are natural, so that a
-- difference stops at 0, and characters are ASCII.
use Prim.Native.Char.{Char, code}
use Prim.Native.Nat.{compare as compare_nat, Ordering}
use bpmninja.Prelude.{
  ℕ, ◌+◌, ◌*◌, ◌-◌, ◌/◌, ◌%◌, ◌≤◌, ◌≡◌, refl, String, Bool, true, false, ◌&&◌, ◌||◌, Option, none,
  some, List, [], ◌∷◌, Map, leb, ltb, nat_beq, string_eq, ◌==◌, get, eq_iff, ◌⊎◌, ◌↔◌,
  if◌then◌else◌, arith,
}
use bpmninja.Domain.Error.{ok, err}
use bpmninja.Domain.Element.{BpmnElement}
use bpmninja.Domain.Graph.{DefinitionTree}
use bpmninja.Domain.Definition.WellFormed.{IsWellFormed}
use bpmninja.Domain.Definition.Builder.{
  ProcessDefinitionBuilder, builder, node, conditional_flow, build,
}
use bpmninja.Domain.Definition.Builder.Accepted.{HasConditions, build-ok_iff}
use bpmninja.Condition.Syntax.{
  PathSegment, SyntaxError, unexpected_end, empty_expression, path, literal, neg, compare, field,
  gt, arith as arithmetic_of, ArithOp, EvalValue, Expr, Float, FloatOrdering, JsonShape, JsonView,
  add, sub, mul, div, rem, less, equal, greater,
}
use bpmninja.Condition.Lexer.{all_whitespace}
use bpmninja.Condition.Literals.{Unicode, chars, is_ascii_digit}
use bpmninja.Condition.Parser.{parse, parse_fuel, parse_condition}
use bpmninja.Condition.Parser.Printer.{print, last}
use bpmninja.Condition.Parser.Printer.RoundTrip.{parse-print}
use bpmninja.Condition.Evaluator.{evaluate, validate_condition, resolve_path}
use bpmninja.Condition.Errors.{parse_condition_terminates, validate_condition_positions}
use bpmninja.Condition.Literals.Bounds.{is_out_of_fuel}
use bpmninja.Condition.Evaluator.Typing.{
  Ty, boolean, numeric, any, has_ty, permitted, fits, evaluate-permitted,
}

abbrev digits_value : ℕ → List Char → Option ℕ
digits_value n [] = some n
digits_value n (c ∷ cs) =
    if is_ascii_digit c then digits_value (10 * n + (code c - b'0')) cs else none

abbrev apply_op : ArithOp → ℕ → ℕ → ℕ
apply_op add a b = a + b
apply_op sub a b = a - b
apply_op mul a b = a * b
apply_op div a b = a / b
apply_op rem a b = a % b

abbrev order_of : Ordering → FloatOrdering
order_of Ordering.lt = less
order_of Ordering.eq = equal
order_of Ordering.gt = greater

abbrev naturals : Float ℕ
naturals = record {
  parse = λ s. digits_value 0 (chars s);
  neg = λ n. n;
  op = λ o a b. apply_op o a b;
  is_zero = λ n. nat_beq n 0;
  within_epsilon = λ a b. nat_beq a b;
  partial_cmp = λ a b. some (order_of (compare_nat a b));
  as_index = λ n. some n;
}

abbrev is_letter : Char → Bool
is_letter c = leb b'a' (code c) && leb (code c) b'z'

abbrev hex_value : List Char → Option ℕ
hex_value cs = digits_value 0 cs

abbrev ascii : Unicode
ascii = record {
  is_whitespace = λ c. nat_beq (code c) b' ';
  is_alphabetic = λ c. is_letter c;
  is_alphanumeric = λ c. is_letter c || is_ascii_digit c;
  from_hex = λ cs. hex_value cs;
  from_u32 = λ n. none;
}

-- Values that are numbers, or lists of these.
abbrev shape : ℕ → JsonShape ℕ ℕ
shape n = if ltb n 100 then JsonShape.number n else JsonShape.array ((n - 100) ∷ [])

abbrev view : JsonView ℕ ℕ
view = record { shape = shape; same = λ a b. nat_beq a b }

abbrev scope : Map String ℕ
scope = ("amount", 20) ∷ ("items", 107) ∷ []

abbrev dangling : SyntaxError ℕ
dangling = record { pos = 6; message = unexpected_end }

parse_condition-dangling : parse_condition {V = ℕ} naturals ascii "#{1 +}" ≡ err dangling
unfolding parse_condition
parse_condition-dangling = refl

validate_condition-dangling : validate_condition ℕ naturals ascii "#{1 +}" ≡ err dangling
unfolding validate_condition
validate_condition-dangling = refl

parse_condition_terminates_example : is_out_of_fuel {F = ℕ} unexpected_end ≡ false
parse_condition_terminates_example =
    parse_condition_terminates ℕ naturals ascii "#{1 +}" {e = dangling} parse_condition-dangling

validate_condition_positions_example :
    ((all_whitespace ascii (chars "#{1 +}") ≡ true)
      × (dangling ≡ record { pos = 0; message = empty_expression }))
    ⊎ ((all_whitespace ascii (chars "#{1 +}") ≡ false) × (1 ≤ 6) × (6 ≤ 7))
validate_condition_positions_example =
    validate_condition_positions ℕ naturals ascii "#{1 +}" {e = dangling}
      validate_condition-dangling

-- `amount / 0 > 1`
abbrev amount : Expr ℕ ℕ
amount = path (field "amount" ∷ [])

abbrev too_much : Expr ℕ ℕ
too_much =
    compare gt (arithmetic_of div amount (literal (EvalValue.number 2)))
      (literal (EvalValue.number 1))

abbrev types : List PathSegment → Ty
types (field name ∷ []) = if name == "amount" then numeric else any
types _ = any

types_conform :
    (segments : List PathSegment)
    → has_ty (types segments) (resolve_path view segments scope) ≡ true
unfolding resolve_path get
types_conform [] = refl
types_conform (PathSegment.index i ∷ segments) = refl
types_conform (field name ∷ []) = ground (arith, eq_iff name "amount", eq_iff "amount" name)
types_conform (field name ∷ segment ∷ segments) = refl

evaluate-permitted_example : permitted boolean (evaluate naturals view scope too_much) ≡ true
unfolding fits
evaluate-permitted_example =
    evaluate-permitted naturals view scope types types_conform too_much boolean refl

-- A builder with one conditional flow.
abbrev order : ProcessDefinitionBuilder ℕ
unfolding node conditional_flow
order =
    conditional_flow "start" "end" "amount > 5"
      (node "end" BpmnElement.end_event (node "start" BpmnElement.start_event (builder "order")))

build-ok_iff_example :
    ((t : DefinitionTree ℕ) × (build naturals ascii 1 order ≡ ok t))
    ↔ (HasConditions naturals ascii order.nodes order.flows × IsWellFormed order.nodes order.flows)
build-ok_iff_example = build-ok_iff naturals ascii 1 order

-- `(amount + items[0]) * 2 > -1`
abbrev doubled : Expr ℕ ℕ
doubled =
    compare gt
      (arithmetic_of mul
        (arithmetic_of add amount (path (field "items" ∷ PathSegment.index 0 ∷ [])))
        (literal (EvalValue.number 2)))
      (neg (literal (EvalValue.number 1)))

parse-print_example :
    parse naturals
      (parse_fuel (print 1 (λ n. n) 0 doubled (last 20)))
      (print 1 (λ n. n) 0 doubled (last 20))
    ≡ ok doubled
parse-print_example = parse-print naturals 1 (λ n. n) doubled 20 (((tt, (refl, tt)), tt), tt)
