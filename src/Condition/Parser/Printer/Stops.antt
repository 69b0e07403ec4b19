-- ===== src/Condition/Parser/Printer/Stops.antt =====
-- The loops of the parser of engine-core/src/condition.rs end at a token that binds less tightly.
use bpmninja.Prelude.{ℕ, zero, suc, ◌≤◌, ◌<◌, ◌≡◌, refl, false, none, arith}
use bpmninja.Domain.Error.{ok}
use bpmninja.Condition.Syntax.{
  Expr, TokenKind, Float, or_op, and_op, compare_op, plus, minus, star, slash, percent,
}
use bpmninja.Condition.Lexer.{Input}
use bpmninja.Condition.Parser.{
  peek, is_or, is_and, comparison, additive, multiplicative, or_loop, and_loop, compare_tail,
  additive_loop, multiplicative_loop,
}
use bpmninja.Condition.Parser.Printer.{tightness}

module _ {F : Type 0} where
  pub or_stops : (k : TokenKind F) → tightness k ≤ 0 → is_or k ≡ false
  or_stops or_op h = absurd (omega arith)
  or_stops _ h = refl

  pub and_stops : (k : TokenKind F) → tightness k ≤ 1 → is_and k ≡ false
  and_stops and_op h = absurd (omega arith)
  and_stops _ h = refl

  pub comparison_stops : (k : TokenKind F) → tightness k ≤ 3 → comparison k ≡ none
  comparison_stops (compare_op _) h = absurd (omega arith)
  comparison_stops _ h = refl

  pub additive_stops : (k : TokenKind F) → tightness k ≤ 4 → additive k ≡ none
  additive_stops plus h = absurd (omega arith)
  additive_stops minus h = absurd (omega arith)
  additive_stops _ h = refl

  pub multiplicative_stops : (k : TokenKind F) → tightness k ≤ 5 → multiplicative k ≡ none
  multiplicative_stops star h = absurd (omega arith)
  multiplicative_stops slash h = absurd (omega arith)
  multiplicative_stops percent h = absurd (omega arith)
  multiplicative_stops _ h = refl

module _ {F V : Type 0} (fl : Float F) (e : Expr F V) (input : Input F) where
  pub or_loop-stops :
      (fuel : ℕ) → 0 < fuel → tightness (peek input) ≤ 0 → or_loop fl fuel e input ≡ ok (e, input)
  unfolding or_loop
  or_loop-stops zero lt h = absurd (omega arith)
  or_loop-stops (suc fuel) lt h = rw (or_stops (peek input) h, or_loop)

  pub and_loop-stops :
      (fuel : ℕ) → 0 < fuel → tightness (peek input) ≤ 1 → and_loop fl fuel e input ≡ ok (e, input)
  unfolding and_loop
  and_loop-stops zero lt h = absurd (omega arith)
  and_loop-stops (suc fuel) lt h = rw (and_stops (peek input) h, and_loop)

  pub compare_tail-stops :
      (fuel : ℕ)
      → 0 < fuel
      → tightness (peek input) ≤ 3
      → compare_tail fl fuel e input ≡ ok (e, input)
  unfolding compare_tail
  compare_tail-stops zero lt h = absurd (omega arith)
  compare_tail-stops (suc fuel) lt h = rw (comparison_stops (peek input) h, compare_tail)

  pub additive_loop-stops :
      (fuel : ℕ)
      → 0 < fuel
      → tightness (peek input) ≤ 4
      → additive_loop fl fuel e input ≡ ok (e, input)
  unfolding additive_loop
  additive_loop-stops zero lt h = absurd (omega arith)
  additive_loop-stops (suc fuel) lt h = rw (additive_stops (peek input) h, additive_loop)

  pub multiplicative_loop-stops :
      (fuel : ℕ)
      → 0 < fuel
      → tightness (peek input) ≤ 5
      → multiplicative_loop fl fuel e input ≡ ok (e, input)
  unfolding multiplicative_loop
  multiplicative_loop-stops zero lt h = absurd (omega arith)
  multiplicative_loop-stops (suc fuel) lt h =
      rw (multiplicative_stops (peek input) h, multiplicative_loop)
