-- ===== src/Condition/Parser/Bounds/Primary.antt =====
-- `parse_path` and `parse_primary` of engine-core/src/condition.rs have enough fuel.

use bpmninja.Prelude.{
  ℕ, zero, suc, ◌+◌, ◌*◌, ◌<◌, refl, true, false, List, [], ◌∷◌, ◌++◌, if◌then◌else◌, length, arith,
}
use bpmninja.Domain.Error.{ok}
use bpmninja.Condition.Syntax.{
  PathSegment, EvalValue, Expr, SpannedToken, TokenKind, Float, eof, field, literal, ident, str,
  true_word, false_word, null_word, lparen, dot, lbracket, expected_field, expected_index,
  expected_rparen, unexpected_end, unexpected_token,
}
use bpmninja.Condition.Lexer.{Input}
use bpmninja.Condition.Literals.{fail}
use bpmninja.Condition.Lexer.Bounds.{Good}
use bpmninja.Condition.Literals.Bounds.{Sound}
use bpmninja.Condition.Parser.{
  Parse, is_rparen, peek, peek_pos, advance, parse_field, parse_index, parse_path, parse_or,
  parse_primary,
}
use bpmninja.Condition.Parser.Bounds.Runs.{
  Left, Runs, input_of, advance-Good, size-advance-le, peek_pos_bounds, operand-Sound,
  after_advance, advanced, past, refuse,
}

module _ {F : Type 0} (hi pos : ℕ) (rest : List (SpannedToken F)) where
  pub field_at :
      (k : TokenKind F)
      → Good hi (input_of k pos rest)
      → Sound 1 hi (Left hi (length rest)) (parse_field (input_of k pos rest))
  unfolding parse_field
  field_at (ident name) good = past hi (input_of (ident name) pos rest) good (field name)
  field_at k good = refuse hi (input_of k pos rest) good expected_field refl

  pub index_at :
      (fl : Float F) (k : TokenKind F)
      → Good hi (input_of k pos rest)
      → Sound 1 hi (Left hi (length rest)) (parse_index fl (input_of k pos rest))
  unfolding parse_index
  index_at fl (TokenKind.number value) good =
      let input = input_of (TokenKind.number value) pos rest in
      let next = advance-Good hi input good in
      ground (
        arith,
        peek_pos_bounds hi input good,
        peek_pos_bounds hi (advance input) next,
        size-advance-le hi input,
        size-advance-le hi (advance input),
        advance-Good hi (advance input) next,
      )
  index_at fl k good = refuse hi (input_of k pos rest) good expected_index refl

module _ {F : Type 0} (V : Type 0) (fl : Float F) (hi : ℕ) where
  pub parse_field-Runs : (fuel : ℕ) → Runs {F = F} hi 0 fuel parse_field
  parse_field-Runs fuel (t, rest) good enough = field_at hi t.pos rest t.kind good

  pub parse_index-Runs : (fuel : ℕ) → Runs hi 0 fuel (parse_index fl)
  parse_index-Runs fuel (t, rest) good enough = index_at hi t.pos rest fl t.kind good

  pub path_at :
      (fuel : ℕ) (segments : List PathSegment) (pos : ℕ) (rest : List (SpannedToken F))
      → ((longer : List PathSegment) → Runs hi 1 fuel (parse_path {V = V} fl fuel longer))
      → (k : TokenKind F) → Good hi (input_of k pos rest)
      → 10 * length rest + 1 < suc fuel
      → Sound 1 hi
          (Left hi (length rest))
          (parse_path {V = V} fl (suc fuel) segments (input_of k pos rest))
  unfolding parse_path
  path_at fuel segments pos rest runs dot good enough =
      operand-Sound hi (input_of dot pos rest) good 0 fuel parse_field
        (λ segment. parse_path fl fuel (segments ++ segment ∷ [])) (omega arith) enough refl
        (parse_field-Runs fuel) (λ segment. runs (segments ++ segment ∷ []))
  path_at fuel segments pos rest runs lbracket good enough =
      operand-Sound hi (input_of lbracket pos rest) good 0 fuel (parse_index fl)
        (λ segment. parse_path fl fuel (segments ++ segment ∷ [])) (omega arith) enough refl
        (parse_index-Runs fuel) (λ segment. runs (segments ++ segment ∷ []))
  path_at fuel segments pos rest runs k good enough = (good, omega arith)

  pub parse_path-Runs :
      (fuel : ℕ) (segments : List PathSegment)
      → Runs hi 1 fuel (parse_path {V = V} fl fuel segments)
  parse_path-Runs zero segments input good enough = absurd (omega arith)
  parse_path-Runs (suc fuel) segments (t, rest) good enough =
      path_at fuel segments t.pos rest (parse_path-Runs fuel) t.kind good enough

  -- The closing parenthesis.
  pub close_paren : Expr F V → Input F → Parse F (Expr F V)
  close_paren inner rest =
      if is_rparen (peek rest)
      then ok (inner, advance rest)
      else fail (peek_pos rest) expected_rparen

  pub close_paren-Runs : (fuel : ℕ) (inner : Expr F V) → Runs hi 1 fuel (close_paren inner)
  unfolding close_paren
  close_paren-Runs fuel inner rest good enough =
      ground (arith, past hi rest good inner, peek_pos_bounds hi rest good)

  pub primary_at :
      (fuel pos : ℕ) (rest : List (SpannedToken F))
      → Runs hi 8 fuel (parse_or {V = V} fl fuel)
      → (k : TokenKind F) → Good hi (input_of k pos rest)
      → 10 * length rest + 1 < suc fuel
      → Sound 1 hi
          (Left hi (length rest))
          (parse_primary {V = V} fl (suc fuel) (input_of k pos rest))
  unfolding parse_primary close_paren
  primary_at fuel pos rest runs (TokenKind.number n) good enough =
      past {A = Expr F V} hi (input_of (TokenKind.number n) pos rest) good
        (literal (EvalValue.number n))
  primary_at fuel pos rest runs (str s) good enough =
      past {A = Expr F V} hi (input_of (str s) pos rest) good (literal (EvalValue.string s))
  primary_at fuel pos rest runs true_word good enough =
      past {A = Expr F V} hi (input_of true_word pos rest) good (literal (EvalValue.bool true))
  primary_at fuel pos rest runs false_word good enough =
      past {A = Expr F V} hi (input_of false_word pos rest) good (literal (EvalValue.bool false))
  primary_at fuel pos rest runs null_word good enough =
      past {A = Expr F V} hi (input_of null_word pos rest) good (literal EvalValue.null)
  primary_at fuel pos rest runs lparen good enough =
      operand-Sound hi (input_of lparen pos rest) good 8 fuel (parse_or fl fuel) close_paren
        (omega arith) enough refl runs (close_paren-Runs fuel)
  primary_at fuel pos rest runs (ident name) good enough =
      after_advance hi (input_of (ident name) pos rest) good
        (parse_path fl fuel (field name ∷ []) (advance (input_of (ident name) pos rest))) refl
        (advanced hi (input_of (ident name) pos rest) good 1 fuel
          (parse_path fl fuel (field name ∷ [])) refl (parse_path-Runs fuel (field name ∷ []))
          (omega arith))
  primary_at fuel pos rest runs eof good enough =
      refuse hi (input_of eof pos rest) good unexpected_end refl
  primary_at fuel pos rest runs k good enough =
      refuse hi (input_of k pos rest) good (unexpected_token k) refl
