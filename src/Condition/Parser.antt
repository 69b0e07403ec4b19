-- ===== src/Condition/Parser.antt =====
-- The recursive-descent parser of engine-core/src/condition.rs. A parser returns the tokens from
-- the current one on; each call takes one unit of fuel.
pub mod Bounds
pub mod Printer
use bpmninja.Prelude.{
  ℕ, zero, suc, ◌+◌, ◌*◌, String, Bool, true, false, Option, none, some, List, [], ◌∷◌, ◌++◌,
  length, if◌then◌else◌,
}
use bpmninja.Domain.Error.{ok, err, ◌>>=◌}
use bpmninja.Condition.Syntax.{
  CmpOp, ArithOp, PathSegment, EvalValue, Expr, TokenKind, SpannedToken, SyntaxError, Parsed, Float,
  literal, path, not, neg, and, or, compare, arith, add, sub, mul, div, rem, field, index, str,
  ident, true_word, false_word, null_word, or_op, and_op, not_op, compare_op, plus, minus, star,
  slash, percent, lparen, rparen, lbracket, rbracket, dot, eof, unexpected_token, expected_rparen,
  unexpected_end, expected_field, expected_index, bad_index, expected_rbracket, out_of_fuel,
}
use bpmninja.Condition.Lexer.{Input, is_eof, prepare, tokenize}
use bpmninja.Condition.Literals.{Unicode, fail, chars}

module _ {F : Type 0} where
  -- The tests of the current token.
  abbrev pub is_or : TokenKind F → Bool
  is_or or_op = true
  is_or _ = false

  abbrev pub is_and : TokenKind F → Bool
  is_and and_op = true
  is_and _ = false

  abbrev pub is_not : TokenKind F → Bool
  is_not not_op = true
  is_not _ = false

  abbrev pub is_minus : TokenKind F → Bool
  is_minus minus = true
  is_minus _ = false

  abbrev pub is_rparen : TokenKind F → Bool
  is_rparen rparen = true
  is_rparen _ = false

  abbrev pub is_rbracket : TokenKind F → Bool
  is_rbracket rbracket = true
  is_rbracket _ = false

  abbrev pub comparison : TokenKind F → Option CmpOp
  comparison (compare_op op) = some op
  comparison _ = none

  abbrev pub additive : TokenKind F → Option ArithOp
  additive plus = some add
  additive minus = some sub
  additive _ = none

  abbrev pub multiplicative : TokenKind F → Option ArithOp
  multiplicative star = some mul
  multiplicative slash = some div
  multiplicative percent = some rem
  multiplicative _ = none

  -- `peek` is the kind of the current token.
  abbrev pub peek : Input F → TokenKind F
  peek (t, rest) = t.kind

  abbrev pub peek_pos : Input F → ℕ
  peek_pos (t, rest) = t.pos

  abbrev pub advance : Input F → Input F
  advance (t, []) = (t, [])
  advance (t, u ∷ rest) = (u, rest)

abbrev pub Parse : Type 0 → Type 0 → Type 0
Parse F A = Parsed F (A × Input F)

module _ {F : Type 0} where
  -- What stands after `.` and in brackets.
  unfoldable pub parse_field : Input F → Parse F PathSegment
  parse_field input = elim (peek input) [
    | ident name ↦ ok (field name, advance input)
    | _ ↦ fail (peek_pos input) expected_field
  ]

  abbrev pub parse_fuel : Input F → ℕ
  parse_fuel (t, rest) = 10 * length rest + 10

module _ {F : Type 0} (fl : Float F) where
  unfoldable pub parse_index : Input F → Parse F PathSegment
  parse_index input = elim (peek input) [
    | TokenKind.number value ↦ elim (fl.as_index value) [
      | none ↦ fail (peek_pos input) bad_index
      | some i ↦
          if is_rbracket (peek (advance input))
          then ok (index i, advance (advance input))
          else fail (peek_pos (advance input)) expected_rbracket
    ]
    | _ ↦ fail (peek_pos input) expected_index
  ]

module _ {F V : Type 0} (fl : Float F) where
  -- The segments are the accumulator of the loop.
  unfoldable pub parse_path : ℕ → List PathSegment → Input F → Parse F (Expr F V)
  unfolding parse_field parse_index
  parse_path zero segments input = fail (peek_pos input) out_of_fuel
  parse_path (suc fuel) segments input = elim (peek input) [
    | dot ↦ parse_field (advance input) >>= λ (segment, rest).
        parse_path fuel (segments ++ segment ∷ []) rest
    | lbracket ↦ parse_index fl (advance input) >>= λ (segment, rest).
        parse_path fuel (segments ++ segment ∷ []) rest
    | _ ↦ ok (path segments, input)
  ]

  unfoldable mutual
    unfolding parse_path

    pub parse_or : ℕ → Input F → Parse F (Expr F V)
    parse_or zero input = fail (peek_pos input) out_of_fuel
    parse_or (suc fuel) input = parse_and fuel input >>= λ (lhs, rest). or_loop fuel lhs rest

    pub or_loop : ℕ → Expr F V → Input F → Parse F (Expr F V)
    or_loop zero lhs input = fail (peek_pos input) out_of_fuel
    or_loop (suc fuel) lhs input = elim (is_or (peek input)) [
      | true ↦ parse_and fuel (advance input) >>= λ (rhs, rest). or_loop fuel (or lhs rhs) rest
      | false ↦ ok (lhs, input)
    ]

    pub parse_and : ℕ → Input F → Parse F (Expr F V)
    parse_and zero input = fail (peek_pos input) out_of_fuel
    parse_and (suc fuel) input = parse_not fuel input >>= λ (lhs, rest). and_loop fuel lhs rest

    pub and_loop : ℕ → Expr F V → Input F → Parse F (Expr F V)
    and_loop zero lhs input = fail (peek_pos input) out_of_fuel
    and_loop (suc fuel) lhs input = elim (is_and (peek input)) [
      | true ↦ parse_not fuel (advance input) >>= λ (rhs, rest). and_loop fuel (and lhs rhs) rest
      | false ↦ ok (lhs, input)
    ]

    pub parse_not : ℕ → Input F → Parse F (Expr F V)
    parse_not zero input = fail (peek_pos input) out_of_fuel
    parse_not (suc fuel) input = elim (is_not (peek input)) [
      | true ↦ parse_not fuel (advance input) >>= λ (inner, rest). ok (not inner, rest)
      | false ↦ parse_comparison fuel input
    ]

    pub parse_comparison : ℕ → Input F → Parse F (Expr F V)
    parse_comparison zero input = fail (peek_pos input) out_of_fuel
    parse_comparison (suc fuel) input =
        parse_additive fuel input >>= λ (lhs, rest). compare_tail fuel lhs rest

    -- The rest of `parse_comparison` after its left operand.
    pub compare_tail : ℕ → Expr F V → Input F → Parse F (Expr F V)
    compare_tail zero lhs input = fail (peek_pos input) out_of_fuel
    compare_tail (suc fuel) lhs input = elim (comparison (peek input)) [
      | some op ↦
          parse_additive fuel (advance input) >>= λ (rhs, rest). ok (compare op lhs rhs, rest)
      | none ↦ ok (lhs, input)
    ]

    pub parse_additive : ℕ → Input F → Parse F (Expr F V)
    parse_additive zero input = fail (peek_pos input) out_of_fuel
    parse_additive (suc fuel) input =
        parse_multiplicative fuel input >>= λ (lhs, rest). additive_loop fuel lhs rest

    pub additive_loop : ℕ → Expr F V → Input F → Parse F (Expr F V)
    additive_loop zero lhs input = fail (peek_pos input) out_of_fuel
    additive_loop (suc fuel) lhs input = elim (additive (peek input)) [
      | some op ↦ parse_multiplicative fuel (advance input) >>= λ (rhs, rest).
          additive_loop fuel (arith op lhs rhs) rest
      | none ↦ ok (lhs, input)
    ]

    pub parse_multiplicative : ℕ → Input F → Parse F (Expr F V)
    parse_multiplicative zero input = fail (peek_pos input) out_of_fuel
    parse_multiplicative (suc fuel) input =
        parse_unary fuel input >>= λ (lhs, rest). multiplicative_loop fuel lhs rest

    pub multiplicative_loop : ℕ → Expr F V → Input F → Parse F (Expr F V)
    multiplicative_loop zero lhs input = fail (peek_pos input) out_of_fuel
    multiplicative_loop (suc fuel) lhs input = elim (multiplicative (peek input)) [
      | some op ↦ parse_unary fuel (advance input) >>= λ (rhs, rest).
          multiplicative_loop fuel (arith op lhs rhs) rest
      | none ↦ ok (lhs, input)
    ]

    pub parse_unary : ℕ → Input F → Parse F (Expr F V)
    parse_unary zero input = fail (peek_pos input) out_of_fuel
    parse_unary (suc fuel) input = elim (is_minus (peek input)) [
      | true ↦ parse_unary fuel (advance input) >>= λ (inner, rest). ok (neg inner, rest)
      | false ↦ parse_primary fuel input
    ]

    pub parse_primary : ℕ → Input F → Parse F (Expr F V)
    parse_primary zero input = fail (peek_pos input) out_of_fuel
    parse_primary (suc fuel) input = elim (peek input) [
      | TokenKind.number n ↦ ok (literal (EvalValue.number n), advance input)
      | str s ↦ ok (literal (EvalValue.string s), advance input)
      | true_word ↦ ok (literal (EvalValue.bool true), advance input)
      | false_word ↦ ok (literal (EvalValue.bool false), advance input)
      | null_word ↦ ok (literal EvalValue.null, advance input)
      | lparen ↦ parse_or fuel (advance input) >>= λ (inner, rest).
          if is_rparen (peek rest)
          then ok (inner, advance rest)
          else fail (peek_pos rest) expected_rparen
      | ident name ↦ parse_path fuel (field name ∷ []) (advance input)
      | eof ↦ fail (peek_pos input) unexpected_end
      | other ↦ fail (peek_pos input) (unexpected_token other)
    ]

  -- `Parser::parse`.
  unfoldable pub parse : ℕ → Input F → Parsed F (Expr F V)
  unfolding parse_or
  parse fuel input = parse_or fuel input >>= λ (expr, rest).
      if is_eof (peek rest) then ok expr else fail (peek_pos rest) (unexpected_token (peek rest))

  unfoldable pub parse_condition : Unicode → String → Parsed F (Expr F V)
  unfolding prepare tokenize parse
  parse_condition u expr = prepare {F = F} u (chars expr) >>= λ (body, base).
      tokenize fl u (length body + 1) base body >>= λ input. parse (parse_fuel input) input
