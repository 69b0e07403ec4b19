-- ===== src/Condition/Parser/Printer/Sizes.antt =====
-- What the printer writes is longer than what it is put before, and how it starts.
use bpmninja.Prelude.{
  ℕ, zero, suc, ◌+◌, ◌≤◌, ◌<◌, ◌≡◌, refl, Bool, true, false, List, [], ◌∷◌, leb, leb→le, arith,
}
use bpmninja.Condition.Syntax.{
  ArithOp, PathSegment, EvalValue, Expr, TokenKind, Float, literal, path, not, neg, and, or, and_op,
  or_op, compare_op, compare, arith as arithmetic, add, sub, mul, div, rem, field, index, rparen,
}
use bpmninja.Condition.Lexer.{Input}
use bpmninja.Condition.Parser.{peek, is_not, is_minus}
use bpmninja.Condition.Parser.Printer.{
  size, op_level, op_token, level, push, wrap, print_segments, bare, print, HasText,
}
use bpmninja.Condition.Parser.Printer.Levels.{HeadFits}

module _ {F : Type 0} (pos : ℕ) (of_index : ℕ → F) where
  pub size-print_segments :
      (segments : List PathSegment) (input : Input F)
      → size input ≤ size (print_segments pos of_index segments input)
  unfolding print_segments
  size-print_segments [] input = omega arith
  size-print_segments (field name ∷ segments) input =
      omega (arith, size-print_segments segments input)
  size-print_segments (index i ∷ segments) input = omega (arith, size-print_segments segments input)

module _ {F : Type 0} (pos : ℕ) where
  pub size-wrap :
      (b : Bool) (printed : Input F → Input F)
      → ((input : Input F) → size input < size (printed input))
      → (input : Input F) → size input < size (wrap pos b printed input)
  size-wrap true printed longer input = longer input
  size-wrap false printed longer input = omega (arith, longer (push pos rparen input))

  pub paren_heads : (printed : Input F → Input F) (j : ℕ) → HeadFits j (wrap pos false printed)
  paren_heads printed zero = tt
  paren_heads printed (suc zero) = tt
  paren_heads printed (suc (suc zero)) = λ input. refl
  paren_heads printed (suc (suc (suc zero))) = tt
  paren_heads printed (suc (suc (suc (suc zero)))) = tt
  paren_heads printed (suc (suc (suc (suc (suc zero))))) = tt
  paren_heads printed (suc (suc (suc (suc (suc (suc zero)))))) = λ input. refl
  paren_heads printed (suc (suc (suc (suc (suc (suc (suc j))))))) = tt

pub op_level_bounds : (op : ArithOp) → (4 ≤ op_level op) × (op_level op ≤ 5)
op_level_bounds add = omega arith
op_level_bounds sub = omega arith
op_level_bounds mul = omega arith
op_level_bounds div = omega arith
op_level_bounds rem = omega arith

pub level_bound : {F V : Type 0} (e : Expr F V) → level e ≤ 7
level_bound (arithmetic op lhs rhs) = omega (arith, op_level_bounds op)
level_bound _ = omega arith

module _ {F V : Type 0} (fl : Float F) (pos : ℕ) (of_index : ℕ → F) where
  pub size-binary :
      (k j : ℕ) (op : TokenKind F) (lhs rhs : Expr F V)
      → ((input : Input F) → size input < size (bare pos of_index lhs input))
      → ((input : Input F) → size input < size (bare pos of_index rhs input))
      → (input : Input F)
      → size input < size (print pos of_index k lhs (push pos op (print pos of_index j rhs input)))
  size-binary k j op lhs rhs left right input = omega (
    arith,
    size-wrap pos (leb k (level lhs)) (bare pos of_index lhs) left
        (push pos op (print pos of_index j rhs input)),
    size-wrap pos (leb j (level rhs)) (bare pos of_index rhs) right input,
  )

  pub size-bare :
      (e : Expr F V)
      → HasText fl of_index e
      → (input : Input F) → size input < size (bare pos of_index e input)
  unfolding bare
  size-bare (literal value) t input = omega arith
  size-bare (path []) t input = elim t [ ]
  size-bare (path (index i ∷ segments)) t input = elim t [ ]
  size-bare (path (field root ∷ segments)) t input =
      omega (arith, size-print_segments pos of_index segments input)
  size-bare (not inner) t input = omega (
    arith,
    size-wrap pos (leb 2 (level inner)) (bare pos of_index inner) (size-bare inner t) input,
  )
  size-bare (neg inner) t input = omega (
    arith,
    size-wrap pos (leb 6 (level inner)) (bare pos of_index inner) (size-bare inner t) input,
  )
  size-bare (and lhs rhs) t input =
      size-binary 1 2 and_op lhs rhs (size-bare lhs t.0) (size-bare rhs t.1) input
  size-bare (or lhs rhs) t input =
      size-binary 0 1 or_op lhs rhs (size-bare lhs t.0) (size-bare rhs t.1) input
  size-bare (compare op lhs rhs) t input =
      size-binary 4 4 (compare_op op) lhs rhs (size-bare lhs t.0) (size-bare rhs t.1) input
  size-bare (arithmetic op lhs rhs) t input =
      size-binary (op_level op) (op_level op + 1) (op_token op) lhs rhs (size-bare lhs t.0)
        (size-bare rhs t.1) input

  -- An operand at the level `k` starts with no `!`, if `k` is above the level of `!`.
  pub print_head_not :
      (k : ℕ) (e : Expr F V) (input : Input F)
      → 3 ≤ k
      → (3 ≤ level e → is_not (peek (bare pos of_index e input)) ≡ false)
      → is_not (peek (print pos of_index k e input)) ≡ false
  print_head_not k e input le heads = ground (arith, leb→le k (level e))

  pub bare_head_not :
      (e : Expr F V)
      → HasText fl of_index e
      → 3 ≤ level e
      → (input : Input F) → is_not (peek (bare pos of_index e input)) ≡ false
  unfolding bare
  bare_head_not (literal (EvalValue.number n)) t le input = refl
  bare_head_not (literal (EvalValue.string s)) t le input = refl
  bare_head_not (literal (EvalValue.bool true)) t le input = refl
  bare_head_not (literal (EvalValue.bool false)) t le input = refl
  bare_head_not (literal EvalValue.null) t le input = refl
  bare_head_not (literal EvalValue.undefined) t le input = elim t [ ]
  bare_head_not (literal (EvalValue.json v)) t le input = elim t [ ]
  bare_head_not (path []) t le input = elim t [ ]
  bare_head_not (path (index i ∷ segments)) t le input = elim t [ ]
  bare_head_not (path (field root ∷ segments)) t le input = refl
  bare_head_not (neg inner) t le input = refl
  bare_head_not (compare op lhs rhs) t le input =
      print_head_not 4 lhs (push pos (compare_op op) (print pos of_index 4 rhs input)) (omega arith)
        (λ h. bare_head_not lhs t.0 h (push pos (compare_op op) (print pos of_index 4 rhs input)))
  bare_head_not (arithmetic op lhs rhs) t le input =
      let rest = push pos (op_token op) (print pos of_index (op_level op + 1) rhs input) in
      print_head_not (op_level op) lhs rest (omega (arith, op_level_bounds op))
        (λ h. bare_head_not lhs t.0 h rest)
  bare_head_not (not inner) t le input = absurd (omega arith)
  bare_head_not (and lhs rhs) t le input = absurd (omega arith)
  bare_head_not (or lhs rhs) t le input = absurd (omega arith)

  pub bare_head_minus :
      (e : Expr F V)
      → HasText fl of_index e
      → 7 ≤ level e
      → (input : Input F) → is_minus (peek (bare pos of_index e input)) ≡ false
  unfolding bare
  bare_head_minus (literal (EvalValue.number n)) t le input = refl
  bare_head_minus (literal (EvalValue.string s)) t le input = refl
  bare_head_minus (literal (EvalValue.bool true)) t le input = refl
  bare_head_minus (literal (EvalValue.bool false)) t le input = refl
  bare_head_minus (literal EvalValue.null) t le input = refl
  bare_head_minus (literal EvalValue.undefined) t le input = elim t [ ]
  bare_head_minus (literal (EvalValue.json v)) t le input = elim t [ ]
  bare_head_minus (path []) t le input = elim t [ ]
  bare_head_minus (path (index i ∷ segments)) t le input = elim t [ ]
  bare_head_minus (path (field root ∷ segments)) t le input = refl
  bare_head_minus (neg inner) t le input = absurd (omega arith)
  bare_head_minus (arithmetic op lhs rhs) t le input = absurd (omega (arith, op_level_bounds op))
  bare_head_minus (compare op lhs rhs) t le input = absurd (omega arith)
  bare_head_minus (not inner) t le input = absurd (omega arith)
  bare_head_minus (and lhs rhs) t le input = absurd (omega arith)
  bare_head_minus (or lhs rhs) t le input = absurd (omega arith)

  pub bare_heads :
      (e : Expr F V)
      → HasText fl of_index e
      → (j : ℕ) → j < level e
      → HeadFits j (bare pos of_index e)
  bare_heads e t zero lt = tt
  bare_heads e t (suc zero) lt = tt
  bare_heads e t (suc (suc zero)) lt = bare_head_not e t (omega arith)
  bare_heads e t (suc (suc (suc zero))) lt = tt
  bare_heads e t (suc (suc (suc (suc zero)))) lt = tt
  bare_heads e t (suc (suc (suc (suc (suc zero))))) lt = tt
  bare_heads e t (suc (suc (suc (suc (suc (suc zero)))))) lt = bare_head_minus e t (omega arith)
  bare_heads e t (suc (suc (suc (suc (suc (suc (suc j))))))) lt = tt
