-- ===== src/Condition/Parser/Printer/Operators.antt =====
-- The operators of engine-core/src/condition.rs are read at their own level.
use bpmninja.Prelude.{ℕ, zero, suc, ◌+◌, ◌*◌, ◌≤◌, ◌<◌, ◌≡◌, ◌∙◌, arith}
use bpmninja.Domain.Error.{ok, ◌>>=◌}
use bpmninja.Condition.Syntax.{CmpOp, Expr, TokenKind, Float, compare_op, compare}
use bpmninja.Condition.Lexer.{Input}
use bpmninja.Condition.Parser.{Parse, peek, parse_comparison, compare_tail, parse_additive}
use bpmninja.Condition.Parser.Printer.{size, tightness, push}
use bpmninja.Condition.Parser.Printer.Levels.{Reads, GoesOn}

-- A binary operator whose operands are read: the loop of its level goes on after it.
module _ {F V : Type 0} (pos : ℕ) (p q : ℕ → Input F → Parse F (Expr F V))
    (loop : ℕ → Expr F V → Input F → Parse F (Expr F V)) (make : Expr F V → Expr F V → Expr F V)
    (op : TokenKind F)
    (step : (fuel : ℕ) (e : Expr F V) (rest : Input F)
      → loop (suc fuel) e (push pos op rest)
        ≡ (q fuel rest >>= λ (rhs, after). loop fuel (make e rhs) after))
    (w wq limit : ℕ) (light : wq ≤ 9) (fits : tightness op ≤ limit) (lhs rhs : Expr F V)
    (left right : Input F → Input F) (longer : (input : Input F) → size input < size (right input))
    (reads : Reads q wq limit rhs right) where
  loop_once :
      (input : Input F) (fuel : ℕ)
      → tightness (peek input) ≤ limit
      → 10 * size (push pos op (right input)) + 1 < fuel
      → (rest : ℕ) × (10 * size input + 1 < rest)
        × (loop fuel lhs (push pos op (right input)) ≡ loop rest (make lhs rhs) input)
  loop_once input zero t enough = absurd (omega arith)
  loop_once input (suc fuel) t enough =
      let le = longer input in
      (fuel, omega arith, step fuel lhs (right input) ∙ rw (reads input fuel t (omega arith)))

  pub binary_GoesOn :
      GoesOn p loop w limit lhs left
      → GoesOn p loop w limit (make lhs rhs) (λ input. left (push pos op (right input)))
  binary_GoesOn goes input fuel t enough =
      let (between, more, same) = goes (push pos op (right input)) fuel fits enough in
      let (rest, enough_left, done) = loop_once input between t more in
      (rest, enough_left, same ∙ done)

-- A prefix operator whose operand is read is read.
module _ {F V : Type 0} (pos : ℕ) (p : ℕ → Input F → Parse F (Expr F V))
    (make : Expr F V → Expr F V) (op : TokenKind F)
    (step : (fuel : ℕ) (rest : Input F)
      → p (suc fuel) (push pos op rest)
        ≡ (p fuel rest >>= λ (inner, after). ok (make inner, after)))
    (w limit : ℕ) (inner : Expr F V) (printed : Input F → Input F) where
  pub prefix_Reads :
      Reads p w limit inner printed
      → Reads p w limit (make inner) (λ input. push pos op (printed input))
  prefix_Reads reads input zero t enough = absurd (omega arith)
  prefix_Reads reads input (suc fuel) t enough =
      step fuel (printed input) ∙ rw (reads input fuel t (omega arith))

-- A comparison whose operands are read is read.
module _ {F V : Type 0} (fl : Float F) (pos : ℕ) (op : CmpOp) (lhs rhs : Expr F V)
    (left right : Input F → Input F) (shorter : (input : Input F) → size input < size (left input))
    (longer : (input : Input F) → size input < size (right input))
    (reads_left : Reads (parse_additive fl) 4 4 lhs left)
    (reads_right : Reads (parse_additive fl) 4 4 rhs right) where
  compare_tail_reads :
      (input : Input F) (fuel : ℕ)
      → tightness (peek input) ≤ 4
      → 10 * size (right input) + 5 < fuel
      → compare_tail fl fuel lhs (push pos (compare_op op) (right input))
        ≡ ok (compare op lhs rhs, input)
  unfolding compare_tail
  compare_tail_reads input zero t enough = absurd (omega arith)
  compare_tail_reads input (suc fuel) t enough = rw (reads_right input fuel t (omega arith))

  pub compare_Reads :
      Reads
        (parse_comparison fl)
        5
        3
        (compare op lhs rhs)
        (λ input. left (push pos (compare_op op) (right input)))
  unfolding parse_comparison
  compare_Reads input zero t enough = absurd (omega arith)
  compare_Reads input (suc fuel) t enough =
      let more = shorter (push pos (compare_op op) (right input)) in
      rw (reads_left (push pos (compare_op op) (right input)) fuel (omega arith) (omega arith))
        (compare_tail_reads input fuel (omega arith) (omega arith))
