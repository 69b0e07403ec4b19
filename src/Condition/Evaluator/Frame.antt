-- ===== src/Condition/Evaluator/Frame.antt =====
-- Which variables a condition of engine-core/src/condition.rs depends on, and the missing ones.
use bpmninja.Prelude.{
  String, string_eq, Bool, true, false, ◌||◌, ◌≡◌, refl, [], ◌∷◌, Map, get, arith, ◌⊎◌, inl, inr,
}
use bpmninja.Domain.Error.{Result, ok, ◌>>=◌, >>=-eq-ok, err}
use bpmninja.Condition.Syntax.{
  CmpOp, PathSegment, EvalValue, Expr, Float, JsonView, literal, path, not, neg, and, or, compare,
  eq, ne, arith as arithmetic_of, field, undefined,
}
use bpmninja.Condition.Literals.{Unicode}
use bpmninja.Condition.Parser.{parse_condition}
use bpmninja.Condition.Evaluator.{
  evaluate_condition, Evaluated, is_undefined, resolve_path, negate, compare_values, values_eq,
  arithmetic, evaluate,
}

-- The two scopes give the same value to each variable that the condition names.
abbrev pub AgreeOn : {F V : Type 0} → (m n : Map String V) → Expr F V → Type 0
AgreeOn m n (literal value) = Unit
AgreeOn m n (path (field root ∷ segments)) = get root m ≡ get root n
AgreeOn m n (path _) = Unit
AgreeOn m n (not inner) = AgreeOn m n inner
AgreeOn m n (neg inner) = AgreeOn m n inner
AgreeOn m n (and lhs rhs) = AgreeOn m n lhs × AgreeOn m n rhs
AgreeOn m n (or lhs rhs) = AgreeOn m n lhs × AgreeOn m n rhs
AgreeOn m n (compare op lhs rhs) = AgreeOn m n lhs × AgreeOn m n rhs
AgreeOn m n (arithmetic_of op lhs rhs) = AgreeOn m n lhs × AgreeOn m n rhs

module _ {F V : Type 0} (fl : Float F) (view : JsonView F V) where
  -- Two scopes that agree on the variables which a condition names give the same result, or the same
  -- error, whatever else they hold.
  pub evaluate-AgreeOn :
      (m n : Map String V) (e : Expr F V)
      → AgreeOn m n e
      → evaluate fl view m e ≡ evaluate fl view n e
  unfolding evaluate resolve_path
  evaluate-AgreeOn m n (literal value) same = refl
  evaluate-AgreeOn m n (path []) same = refl
  evaluate-AgreeOn m n (path (field root ∷ segments)) same = ground arith
  evaluate-AgreeOn m n (path (PathSegment.index i ∷ segments)) same = refl
  evaluate-AgreeOn m n (not inner) same = rw (evaluate-AgreeOn m n inner same)
  evaluate-AgreeOn m n (neg inner) same = rw (evaluate-AgreeOn m n inner same)
  evaluate-AgreeOn m n (and lhs rhs) same =
      ground (arith, evaluate-AgreeOn m n lhs same.0, evaluate-AgreeOn m n rhs same.1)
  evaluate-AgreeOn m n (or lhs rhs) same =
      ground (arith, evaluate-AgreeOn m n lhs same.0, evaluate-AgreeOn m n rhs same.1)
  evaluate-AgreeOn m n (compare op lhs rhs) same =
      ground (arith, evaluate-AgreeOn m n lhs same.0, evaluate-AgreeOn m n rhs same.1)
  evaluate-AgreeOn m n (arithmetic_of op lhs rhs) same =
      ground (arith, evaluate-AgreeOn m n lhs same.0, evaluate-AgreeOn m n rhs same.1)

module _ {F V : Type 0} (fl : Float F) (view : JsonView F V) (variables : Map String V) where
  -- An operand that computes with something that is missing.
  unfoldable pub needs_missing : Expr F V → Bool
  needs_missing (literal value) = is_undefined value
  needs_missing (path segments) = is_undefined (resolve_path view segments variables)
  needs_missing (neg inner) = needs_missing inner
  needs_missing (arithmetic_of op lhs rhs) = needs_missing lhs || needs_missing rhs
  needs_missing _ = false

  -- Both operands have values where the operation has one.
  both :
      {A : Type 0} (lhs rhs : Expr F V) (f : EvalValue F V → EvalValue F V → Evaluated A) (a : A)
      → (evaluate fl view variables lhs >>= λ l. evaluate fl view variables rhs >>= λ r. f l r)
        ≡ ok a
      → (l : EvalValue F V) × (evaluate fl view variables lhs ≡ ok l)
        × ((r : EvalValue F V) × (evaluate fl view variables rhs ≡ ok r) × (f l r ≡ ok a))
  both lhs rhs f a done =
      let (l, left, rest) =
        >>=-eq-ok (evaluate fl view variables lhs)
          (λ l. evaluate fl view variables rhs >>= λ r. f l r) done in
      let (r, right, last) = >>=-eq-ok (evaluate fl view variables rhs) (f l) rest in
      (l, left, (r, right, last))

  values_eq-undefined :
      (l r : EvalValue F V)
      → (is_undefined l || is_undefined r) ≡ true
      → values_eq fl view l r ≡ false
  unfolding values_eq
  values_eq-undefined undefined r h = ground arith
  values_eq-undefined l undefined h = ground arith
  values_eq-undefined l r h = cc

  compare_values-undefined :
      (op : CmpOp) (l r : EvalValue F V)
      → (is_undefined l || is_undefined r) ≡ true
      → compare_values fl view op l r ≡ ok false
  unfolding compare_values
  compare_values-undefined eq l r h = rw (values_eq-undefined l r h)
  compare_values-undefined ne l r h = rw h
  compare_values-undefined op l r h = rw h

  evaluate-needs_missing :
      (e : Expr F V) (value : EvalValue F V)
      → needs_missing e ≡ true
      → evaluate fl view variables e ≡ ok value
      → value ≡ undefined
  unfolding needs_missing evaluate negate arithmetic
  evaluate-needs_missing (literal value) found h done = ground arith
  evaluate-needs_missing (path segments) found h done = ground arith
  evaluate-needs_missing (neg inner) found h done =
      let (value, first, rest) =
        >>=-eq-ok (evaluate fl view variables inner) (negate fl view) done in
      ground (arith, evaluate-needs_missing inner value h first)
  evaluate-needs_missing (arithmetic_of op lhs rhs) found h done =
      let (l, left, more) = both lhs rhs (arithmetic fl view op) found done in
      let (r, right, last) = more in
      ground (arith, evaluate-needs_missing lhs l, evaluate-needs_missing rhs r)
  evaluate-needs_missing _ found h done = cc

  -- A comparison, by any operator, with an operand that computes with a missing variable or path is
  -- false where it has a value.
  compare_missing :
      (op : CmpOp) (lhs rhs : Expr F V) (value : EvalValue F V)
      → (needs_missing lhs || needs_missing rhs) ≡ true
      → evaluate fl view variables (compare op lhs rhs) ≡ ok value
      → value ≡ EvalValue.bool false
  unfolding evaluate compare_values values_eq
  compare_missing op lhs rhs value missing done =
      let (l, left, (r, right, last)) =
        both lhs rhs (λ l r. compare_values fl view op l r >>= λ b. ok (EvalValue.bool b)) value
          done in
      ground (
        arith,
        compare_values-undefined op l r,
        evaluate-needs_missing lhs l,
        evaluate-needs_missing rhs r,
      )

parsed : {E A : Type 0} (m : Result E A) → ((e : E) × (m ≡ err e)) ⊎ ((a : A) × (m ≡ ok a))
parsed (err e) = inl (e, refl)
parsed (ok a) = inr (a, refl)

module _ {F V : Type 0} (fl : Float F) (view : JsonView F V) (u : Unicode) (expr : String) where
  -- A condition, as a text, is true or false by the variables that it names only: two scopes that
  -- agree on these give the same answer. A text that is no condition gives the same answer everywhere.
  pub evaluate_condition-AgreeOn :
      (m n : Map String V)
      → ((e : Expr F V) → parse_condition fl u expr ≡ ok e → AgreeOn m n e)
      → evaluate_condition fl view u expr m ≡ evaluate_condition fl view u expr n
  unfolding evaluate_condition
  evaluate_condition-AgreeOn m n same = elim (parsed (parse_condition {V = V} fl u expr)) [
    | inl (e, bad) ↦ rw (bad, evaluate_condition) refl
    | inr (ast, good) ↦
        rw (good, evaluate_condition, evaluate-AgreeOn fl view m n ast (same ast good)) refl
  ]
