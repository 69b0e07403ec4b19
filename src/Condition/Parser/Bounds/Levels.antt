-- ===== src/Condition/Parser/Bounds/Levels.antt =====
-- The levels of precedence of engine-core/src/condition.rs have enough fuel.

use bpmninja.Prelude.{
  ℕ, zero, suc, ◌≡◌, true, false, Bool-cases, Option-cases, inl, inr, some, arith,
}
use bpmninja.Domain.Error.{ok}
use bpmninja.Condition.Syntax.{
  CmpOp, ArithOp, Expr, not, neg, and, or, compare, arith as arithmetic, TokenKind, Float, eof,
}
use bpmninja.Condition.Lexer.{is_eof}
use bpmninja.Condition.Literals.Bounds.{Sound}
use bpmninja.Condition.Parser.{
  peek, is_or, is_and, is_not, is_minus, comparison, additive, multiplicative, parse_or, or_loop,
  parse_and, and_loop, parse_not, parse_comparison, compare_tail, parse_additive, additive_loop,
  parse_multiplicative, multiplicative_loop, parse_unary, parse_primary,
}
use bpmninja.Condition.Parser.Bounds.Runs.{size, Runs, then-Sound, operand-Sound, stop}
use bpmninja.Condition.Parser.Bounds.Primary.{primary_at}

module _ {F : Type 0} where
  or_more : (k : TokenKind F) → is_or k ≡ true → is_eof k ≡ false
  or_more eof h = cc
  or_more _ h = ground arith

  and_more : (k : TokenKind F) → is_and k ≡ true → is_eof k ≡ false
  and_more eof h = cc
  and_more _ h = ground arith

  not_more : (k : TokenKind F) → is_not k ≡ true → is_eof k ≡ false
  not_more eof h = cc
  not_more _ h = ground arith

  minus_more : (k : TokenKind F) → is_minus k ≡ true → is_eof k ≡ false
  minus_more eof h = cc
  minus_more _ h = ground arith

  comparison_more : (k : TokenKind F) {op : CmpOp} → comparison k ≡ some op → is_eof k ≡ false
  comparison_more eof h = cc
  comparison_more _ h = ground arith

  additive_more : (k : TokenKind F) {op : ArithOp} → additive k ≡ some op → is_eof k ≡ false
  additive_more eof h = cc
  additive_more _ h = ground arith

  multiplicative_more :
      (k : TokenKind F) {op : ArithOp} → multiplicative k ≡ some op → is_eof k ≡ false
  multiplicative_more eof h = cc
  multiplicative_more _ h = ground arith

module _ {F : Type 0} (V : Type 0) (fl : Float F) (hi : ℕ) where
  mutual
    unfolding parse_or

    pub parse_or-Runs : (fuel : ℕ) → Runs hi 8 fuel (parse_or {V = V} fl fuel)
    parse_or-Runs zero input good enough = absurd (omega arith)
    parse_or-Runs (suc fuel) input good enough =
        then-Sound hi (size input) 1 fuel (parse_and fl fuel input) (or_loop fl fuel) (omega arith)
          (parse_and-Runs fuel input good (omega arith)) (or_loop-Runs fuel)

    or_loop-Runs : (fuel : ℕ) (lhs : Expr F V) → Runs hi 1 fuel (or_loop fl fuel lhs)
    or_loop-Runs zero lhs input good enough = absurd (omega arith)
    or_loop-Runs (suc fuel) lhs input good enough = elim (Bool-cases (is_or (peek input))) [
      | inr other ↦ rw (other, Sound) (stop hi input good lhs)
      | inl more ↦
          rw (more, Sound)
            (operand-Sound hi input good 7 fuel (parse_and fl fuel)
              (λ rhs. or_loop fl fuel (or lhs rhs)) (omega arith) (omega arith)
              (or_more (peek input) more) (parse_and-Runs fuel)
              (λ rhs. or_loop-Runs fuel (or lhs rhs)))
    ]

    parse_and-Runs : (fuel : ℕ) → Runs hi 7 fuel (parse_and {V = V} fl fuel)
    parse_and-Runs zero input good enough = absurd (omega arith)
    parse_and-Runs (suc fuel) input good enough =
        then-Sound hi (size input) 1 fuel (parse_not fl fuel input) (and_loop fl fuel) (omega arith)
          (parse_not-Runs fuel input good (omega arith)) (and_loop-Runs fuel)

    and_loop-Runs : (fuel : ℕ) (lhs : Expr F V) → Runs hi 1 fuel (and_loop fl fuel lhs)
    and_loop-Runs zero lhs input good enough = absurd (omega arith)
    and_loop-Runs (suc fuel) lhs input good enough = elim (Bool-cases (is_and (peek input))) [
      | inr other ↦ rw (other, Sound) (stop hi input good lhs)
      | inl more ↦
          rw (more, Sound)
            (operand-Sound hi input good 6 fuel (parse_not fl fuel)
              (λ rhs. and_loop fl fuel (and lhs rhs)) (omega arith) (omega arith)
              (and_more (peek input) more) (parse_not-Runs fuel)
              (λ rhs. and_loop-Runs fuel (and lhs rhs)))
    ]

    parse_not-Runs : (fuel : ℕ) → Runs hi 6 fuel (parse_not {V = V} fl fuel)
    parse_not-Runs zero input good enough = absurd (omega arith)
    parse_not-Runs (suc fuel) input good enough = elim (Bool-cases (is_not (peek input))) [
      | inr other ↦ rw (other, Sound) (parse_comparison-Runs fuel input good (omega arith))
      | inl more ↦
          rw (more, Sound)
            (operand-Sound hi input good 6 fuel (parse_not fl fuel)
              (λ inner rest. ok (not inner, rest)) (omega arith) (omega arith)
              (not_more (peek input) more) (parse_not-Runs fuel)
              (λ inner rest left _. stop hi rest left (not inner)))
    ]

    parse_comparison-Runs : (fuel : ℕ) → Runs hi 5 fuel (parse_comparison {V = V} fl fuel)
    parse_comparison-Runs zero input good enough = absurd (omega arith)
    parse_comparison-Runs (suc fuel) input good enough =
        then-Sound hi (size input) 1 fuel (parse_additive fl fuel input) (compare_tail fl fuel)
          (omega arith) (parse_additive-Runs fuel input good (omega arith)) (compare_tail-Runs fuel)

    compare_tail-Runs : (fuel : ℕ) (lhs : Expr F V) → Runs hi 1 fuel (compare_tail fl fuel lhs)
    compare_tail-Runs zero lhs input good enough = absurd (omega arith)
    compare_tail-Runs (suc fuel) lhs input good enough =
        elim (Option-cases (comparison (peek input))) [
          | inl other ↦ rw (other, Sound) (stop hi input good lhs)
          | inr (op, more) ↦
              rw (more, Sound)
                (operand-Sound hi input good 4 fuel (parse_additive fl fuel)
                  (λ rhs rest. ok (compare op lhs rhs, rest)) (omega arith) (omega arith)
                  (comparison_more (peek input) more) (parse_additive-Runs fuel)
                  (λ rhs rest left _. stop hi rest left (compare op lhs rhs)))
        ]

    parse_additive-Runs : (fuel : ℕ) → Runs hi 4 fuel (parse_additive {V = V} fl fuel)
    parse_additive-Runs zero input good enough = absurd (omega arith)
    parse_additive-Runs (suc fuel) input good enough =
        then-Sound hi (size input) 1 fuel (parse_multiplicative fl fuel input)
          (additive_loop fl fuel) (omega arith)
          (parse_multiplicative-Runs fuel input good (omega arith)) (additive_loop-Runs fuel)

    additive_loop-Runs : (fuel : ℕ) (lhs : Expr F V) → Runs hi 1 fuel (additive_loop fl fuel lhs)
    additive_loop-Runs zero lhs input good enough = absurd (omega arith)
    additive_loop-Runs (suc fuel) lhs input good enough =
        elim (Option-cases (additive (peek input))) [
          | inl other ↦ rw (other, Sound) (stop hi input good lhs)
          | inr (op, more) ↦
              rw (more, Sound)
                (operand-Sound hi input good 3 fuel (parse_multiplicative fl fuel)
                  (λ rhs. additive_loop fl fuel (arithmetic op lhs rhs)) (omega arith) (omega arith)
                  (additive_more (peek input) more) (parse_multiplicative-Runs fuel)
                  (λ rhs. additive_loop-Runs fuel (arithmetic op lhs rhs)))
        ]

    parse_multiplicative-Runs : (fuel : ℕ) → Runs hi 3 fuel (parse_multiplicative {V = V} fl fuel)
    parse_multiplicative-Runs zero input good enough = absurd (omega arith)
    parse_multiplicative-Runs (suc fuel) input good enough =
        then-Sound hi (size input) 1 fuel (parse_unary fl fuel input) (multiplicative_loop fl fuel)
          (omega arith) (parse_unary-Runs fuel input good (omega arith))
          (multiplicative_loop-Runs fuel)

    multiplicative_loop-Runs :
        (fuel : ℕ) (lhs : Expr F V) → Runs hi 1 fuel (multiplicative_loop fl fuel lhs)
    multiplicative_loop-Runs zero lhs input good enough = absurd (omega arith)
    multiplicative_loop-Runs (suc fuel) lhs input good enough =
        elim (Option-cases (multiplicative (peek input))) [
          | inl other ↦ rw (other, Sound) (stop hi input good lhs)
          | inr (op, more) ↦
              rw (more, Sound)
                (operand-Sound hi input good 2 fuel (parse_unary fl fuel)
                  (λ rhs. multiplicative_loop fl fuel (arithmetic op lhs rhs)) (omega arith)
                  (omega arith) (multiplicative_more (peek input) more) (parse_unary-Runs fuel)
                  (λ rhs. multiplicative_loop-Runs fuel (arithmetic op lhs rhs)))
        ]

    parse_unary-Runs : (fuel : ℕ) → Runs hi 2 fuel (parse_unary {V = V} fl fuel)
    parse_unary-Runs zero input good enough = absurd (omega arith)
    parse_unary-Runs (suc fuel) input good enough = elim (Bool-cases (is_minus (peek input))) [
      | inr other ↦ rw (other, Sound) (parse_primary-Runs fuel input good (omega arith))
      | inl more ↦
          rw (more, Sound)
            (operand-Sound hi input good 2 fuel (parse_unary fl fuel)
              (λ inner rest. ok (neg inner, rest)) (omega arith) (omega arith)
              (minus_more (peek input) more) (parse_unary-Runs fuel)
              (λ inner rest left _. stop hi rest left (neg inner)))
    ]

    parse_primary-Runs : (fuel : ℕ) → Runs hi 1 fuel (parse_primary {V = V} fl fuel)
    parse_primary-Runs zero input good enough = absurd (omega arith)
    parse_primary-Runs (suc fuel) (t, rest) good enough =
        primary_at V fl hi fuel t.pos rest (parse_or-Runs fuel) t.kind good enough
