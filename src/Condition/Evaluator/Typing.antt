-- ===== src/Condition/Evaluator/Typing.antt =====
-- Which conditions engine-core/src/condition.rs evaluates without an error of types.
use bpmninja.Prelude.{String, Bool, true, false, ◌&&◌, ◌≡◌, List, Map, arith}
use bpmninja.Domain.Error.{ok, err}
use bpmninja.Condition.Syntax.{
  PathSegment, EvalValue, Expr, Float, JsonView, literal, path, not, neg, and, or, compare, eq, ne,
  arith as arithmetic_of, undefined,
}
use bpmninja.Condition.Evaluator.{
  Evaluated, division_by_zero, cannot_compare_nan, resolve_path, evaluate,
}

pub data Ty : Type 0 where
  boolean numeric any : Ty

abbrev pub below : Ty → Ty → Bool
below _ any = true
below boolean boolean = true
below numeric numeric = true
below _ _ = false

module _ {F V : Type 0} where
  -- A missing value passes for a number.
  abbrev pub has_ty : Ty → EvalValue F V → Bool
  has_ty any _ = true
  has_ty boolean (EvalValue.bool _) = true
  has_ty numeric (EvalValue.number _) = true
  has_ty numeric undefined = true
  has_ty _ _ = false

  -- A value of the type, or an error that depends on the numbers only.
  abbrev pub permitted : Ty → Evaluated (EvalValue F V) → Bool
  permitted t (ok value) = has_ty t value
  permitted t (err (division_by_zero _)) = true
  permitted t (err cannot_compare_nan) = true
  permitted t (err _) = false

  -- `scope` gives the types of the paths.
  unfoldable pub fits : (scope : List PathSegment → Ty) → Expr F V → Ty → Bool
  fits scope (literal value) t = has_ty t value
  fits scope (path segments) t = below (scope segments) t
  fits scope (not inner) t = below boolean t && fits scope inner any
  fits scope (neg inner) t = below numeric t && fits scope inner numeric
  fits scope (and lhs rhs) t = below boolean t && (fits scope lhs any && fits scope rhs any)
  fits scope (or lhs rhs) t = below boolean t && (fits scope lhs any && fits scope rhs any)
  fits scope (compare eq lhs rhs) t = below boolean t && (fits scope lhs any && fits scope rhs any)
  fits scope (compare ne lhs rhs) t = below boolean t && (fits scope lhs any && fits scope rhs any)
  fits scope (compare op lhs rhs) t =
      below boolean t && (fits scope lhs numeric && fits scope rhs numeric)
  fits scope (arithmetic_of op lhs rhs) t =
      below numeric t && (fits scope lhs numeric && fits scope rhs numeric)

module _ {F V : Type 0} (fl : Float F) (view : JsonView F V) (variables : Map String V)
    (scope : List PathSegment → Ty)
    (conforms : (segments : List PathSegment)
      → has_ty (scope segments) (resolve_path view segments variables) ≡ true) where
  -- If each path holds a value of the type that the check took it to have, where a missing value
  -- counts as a number but not as a Boolean, a condition that passes the check evaluates to a value of
  -- its type, or it divides by zero or orders a NaN.
  pub evaluate-permitted :
      (e : Expr F V) (t : Ty)
      → fits scope e t ≡ true
      → permitted t (evaluate fl view variables e) ≡ true
  unfolding evaluate fits
  evaluate-permitted (literal value) t h = ground arith
  evaluate-permitted (path segments) t h = ground (arith, conforms segments)
  evaluate-permitted (not inner) t h = ground (arith, evaluate-permitted inner any)
  evaluate-permitted (neg inner) t h = ground (arith, evaluate-permitted inner numeric)
  evaluate-permitted (and lhs rhs) t h =
      ground (arith, evaluate-permitted lhs any, evaluate-permitted rhs any)
  evaluate-permitted (or lhs rhs) t h =
      ground (arith, evaluate-permitted lhs any, evaluate-permitted rhs any)
  evaluate-permitted (compare eq lhs rhs) t h =
      ground (arith, evaluate-permitted lhs any, evaluate-permitted rhs any)
  evaluate-permitted (compare ne lhs rhs) t h =
      ground (arith, evaluate-permitted lhs any, evaluate-permitted rhs any)
  evaluate-permitted (compare op lhs rhs) t h =
      ground (arith, evaluate-permitted lhs numeric, evaluate-permitted rhs numeric)
  evaluate-permitted (arithmetic_of op lhs rhs) t h =
      ground (arith, evaluate-permitted lhs numeric, evaluate-permitted rhs numeric)
