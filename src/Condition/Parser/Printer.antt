-- ===== src/Condition/Parser/Printer.antt =====
-- A printer for the expressions of engine-core/src/condition.rs, with parentheses only where the
-- levels of precedence ask for them. It puts tokens in front of an input.
pub mod Stops
pub mod Levels
pub mod Sizes
pub mod Operators
pub mod RoundTrip
use bpmninja.Prelude.{
  ℕ, zero, suc, ◌+◌, ◌*◌, ◌≤◌, ◌<◌, ◌≡◌, Bool, true, false, some, List, [], ◌∷◌, leb, length,
}
use bpmninja.Condition.Syntax.{
  ArithOp, PathSegment, EvalValue, Expr, SpannedToken, TokenKind, Float, literal, path, not, neg,
  and, or, compare, arith as arithmetic, add, sub, mul, div, rem, field, index, str, ident,
  true_word, false_word, null_word, or_op, and_op, not_op, compare_op, plus, minus, star, slash,
  percent, lparen, rparen, lbracket, rbracket, dot, eof,
}
use bpmninja.Condition.Lexer.{Input}

-- The number of tokens after the current one.
abbrev pub size : {F : Type 0} → Input F → ℕ
size input = length input.1

-- How tightly the operator binds that a token continues an expression by; 0 if it continues none.
abbrev pub tightness : {F : Type 0} → TokenKind F → ℕ
tightness or_op = 1
tightness and_op = 2
tightness (compare_op _) = 4
tightness plus = 5
tightness minus = 5
tightness star = 6
tightness slash = 6
tightness percent = 6
tightness dot = 8
tightness lbracket = 8
tightness _ = 0

abbrev pub op_level : ArithOp → ℕ
op_level add = 4
op_level sub = 4
op_level mul = 5
op_level div = 5
op_level rem = 5

abbrev pub level : {F V : Type 0} → Expr F V → ℕ
level (or _ _) = 0
level (and _ _) = 1
level (not _) = 2
level (compare _ _ _) = 3
level (arithmetic op _ _) = op_level op
level (neg _) = 6
level (path _) = 7
level (literal _) = 7

abbrev pub op_token : {F : Type 0} → ArithOp → TokenKind F
op_token add = plus
op_token sub = minus
op_token mul = star
op_token div = slash
op_token rem = percent

-- Every token has the position `pos`, which the parser uses in errors only.
module _ {F : Type 0} (pos : ℕ) where
  abbrev pub push : TokenKind F → Input F → Input F
  push kind input = (record { kind = kind; pos = pos }, input.0 ∷ input.1)

  abbrev pub last : Input F
  last = (record { kind = eof; pos = pos }, [])

  abbrev pub wrap : Bool → (Input F → Input F) → Input F → Input F
  wrap true printed input = printed input
  wrap false printed input = push lparen (printed (push rparen input))

module _ {F V : Type 0} where
  abbrev pub literal_token : EvalValue F V → TokenKind F
  literal_token (EvalValue.number n) = TokenKind.number n
  literal_token (EvalValue.string s) = str s
  literal_token (EvalValue.bool true) = true_word
  literal_token (EvalValue.bool false) = false_word
  literal_token _ = null_word

module _ {F : Type 0} (pos : ℕ) (of_index : ℕ → F) where
  unfoldable pub print_segments : List PathSegment → Input F → Input F
  print_segments [] input = input
  print_segments (field name ∷ segments) input =
      push pos dot (push pos (ident name) (print_segments segments input))
  print_segments (index i ∷ segments) input =
      push pos lbracket (
        push pos (TokenKind.number (of_index i))
          (push pos rbracket (print_segments segments input)))

module _ {F V : Type 0} (pos : ℕ) (of_index : ℕ → F) where
  -- The expression without parentheses around it.
  unfoldable pub bare : Expr F V → Input F → Input F
  unfolding print_segments
  bare (literal value) input = push pos (literal_token value) input
  bare (path (field root ∷ segments)) input =
      push pos (ident root) (print_segments pos of_index segments input)
  bare (path _) input = input
  bare (not inner) input = push pos not_op (wrap pos (leb 2 (level inner)) (bare inner) input)
  bare (neg inner) input = push pos minus (wrap pos (leb 6 (level inner)) (bare inner) input)
  bare (and lhs rhs) input =
      wrap pos (leb 1 (level lhs)) (bare lhs)
        (push pos and_op (wrap pos (leb 2 (level rhs)) (bare rhs) input))
  bare (or lhs rhs) input =
      wrap pos (leb 0 (level lhs)) (bare lhs)
        (push pos or_op (wrap pos (leb 1 (level rhs)) (bare rhs) input))
  bare (compare op lhs rhs) input =
      wrap pos (leb 4 (level lhs)) (bare lhs)
        (push pos (compare_op op) (wrap pos (leb 4 (level rhs)) (bare rhs) input))
  bare (arithmetic op lhs rhs) input =
      wrap pos (leb (op_level op) (level lhs)) (bare lhs)
        (push pos (op_token op) (wrap pos (leb (op_level op + 1) (level rhs)) (bare rhs) input))

  -- The expression as an operand at the level `k`.
  abbrev pub print : ℕ → Expr F V → Input F → Input F
  print k e = wrap pos (leb k (level e)) (bare e)

-- The expressions that have a text: literals that are no JSON value, and paths from a variable on
-- whose indices are numbers.
module _ {F : Type 0} (fl : Float F) (of_index : ℕ → F) where
  abbrev pub AreIndices : List PathSegment → Type 0
  AreIndices [] = Unit
  AreIndices (field _ ∷ segments) = AreIndices segments
  AreIndices (index i ∷ segments) = (fl.as_index (of_index i) ≡ some i) × AreIndices segments

module _ {F V : Type 0} (fl : Float F) (of_index : ℕ → F) where
  abbrev pub HasText : Expr F V → Type 0
  HasText (literal EvalValue.undefined) = ⊥
  HasText (literal (EvalValue.json _)) = ⊥
  HasText (literal _) = Unit
  HasText (path (field _ ∷ segments)) = AreIndices fl of_index segments
  HasText (path _) = ⊥
  HasText (not inner) = HasText inner
  HasText (neg inner) = HasText inner
  HasText (and lhs rhs) = HasText lhs × HasText rhs
  HasText (or lhs rhs) = HasText lhs × HasText rhs
  HasText (compare _ lhs rhs) = HasText lhs × HasText rhs
  HasText (arithmetic _ lhs rhs) = HasText lhs × HasText rhs
