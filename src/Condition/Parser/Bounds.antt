-- ===== src/Condition/Parser/Bounds.antt =====
-- `parse_condition` of engine-core/src/condition.rs: its fuel, and the positions of its errors.
mod Runs
mod Primary
mod Levels
use Prim.Native.Char.{Char}
use bpmninja.Prelude.{
  ℕ, zero, suc, ◌+◌, ◌*◌, ◌≤◌, ◌<◌, ◌≡◌, refl, String, Bool, true, false, Bool-cases, Option-cases,
  inl, inr, Option, none, some, List, [], ◌∷◌, ◌++◌, if◌then◌else◌, length, arith,
}
use bpmninja.Domain.Error.{ok, err, ◌>>=◌}
use bpmninja.Condition.Syntax.{
  CmpOp, ArithOp, PathSegment, EvalValue, Expr, not, neg, and, or, compare, arith as arithmetic,
  SpannedToken, TokenKind, Message, Parsed, Float, eof, out_of_fuel, field, path, literal, ident,
  str, true_word, false_word, null_word, lparen, dot, lbracket, expected_field, expected_index,
  expected_rparen, expected_rbracket, bad_index, unexpected_end, unexpected_token,
}
use bpmninja.Condition.Lexer.{Input, is_eof, prepare, tokenize, all_whitespace}
use bpmninja.Condition.Literals.{fail, Unicode, chars}
use bpmninja.Condition.Lexer.Bounds.{Good, GoodFrom, Within, tokenize-Sound, prepare-Sound}
use bpmninja.Condition.Literals.Bounds.{Sound, Sound-mono, Sound-bind, is_out_of_fuel}
use bpmninja.Condition.Parser.{
  Parse, is_rparen, is_rbracket, peek, peek_pos, advance, is_or, is_and, is_not, is_minus,
  comparison, additive, multiplicative, parse_field, parse_index, parse_path, parse_or, or_loop,
  parse_and, and_loop, parse_not, parse_comparison, compare_tail, parse_additive, additive_loop,
  parse_multiplicative, multiplicative_loop, parse_unary, parse_primary, parse, parse_fuel,
  parse_condition,
}
use bpmninja.Condition.Parser.Bounds.Runs.{
  size, Left, input_of, advance-Good, size-advance-le, peek_pos_bounds, then-Sound, operand-Sound,
  after_advance, advanced, stop, past, refuse,
}
use bpmninja.Condition.Parser.Bounds.Levels.{parse_or-Runs}

module _ {F : Type 0} (V : Type 0) (fl : Float F) (u : Unicode) where
  parse-Sound :
      (hi : ℕ) (input : Input F)
      → Good hi input
      → Sound 1 hi (λ _. Unit {0}) (parse {V = V} fl (parse_fuel input) input)
  unfolding parse
  parse-Sound hi (t, rest) good =
      Sound-bind 1 hi (Left hi (length rest)) (λ _. Unit {0})
        (parse_or fl (parse_fuel (t, rest)) (t, rest))
        (λ (expr, rest).
          if is_eof (peek rest)
          then ok expr
          else fail (peek_pos rest) (unexpected_token (peek rest)))
        (parse_or-Runs V fl hi (parse_fuel (t, rest)) (t, rest) good (omega arith))
        (λ (expr, rest) left. ground (arith, peek_pos_bounds hi rest left.0))

  body-Sound :
      (base : ℕ) (body : List Char)
      → Sound 1
          (base + length body + 1)
          (λ _. Unit {0})
          (tokenize fl u (length body + 1) base body >>= λ input.
            parse {V = V} fl (parse_fuel input) input)
  body-Sound base body =
      let hi = base + length body + 1 in
      Sound-bind 1 hi (Good hi) (λ _. Unit {0}) (tokenize fl u (length body + 1) base body)
        (λ input. parse {V = V} fl (parse_fuel input) input)
        (Sound-mono (base + 1) 1 hi hi (Good hi) (Good hi)
          (tokenize fl u (length body + 1) base body) (omega arith) (omega arith) (λ i g. g)
          (tokenize-Sound fl u hi (length body + 1) base body refl (omega arith)))
        (λ input good. parse-Sound hi input good)

  pub parse_condition-Sound :
      (expr : String)
      → all_whitespace u (chars expr) ≡ false
      → Sound 1 (length (chars expr) + 1) (λ _. Unit {0}) (parse_condition {V = V} fl u expr)
  unfolding parse_condition
  parse_condition-Sound expr solid =
      let cs = chars expr in
      let limit = length cs + 1 in
      Sound-bind 1 limit (Within 0 (length cs)) (λ _. Unit {0}) (prepare u cs)
        (λ (body, base).
          tokenize fl u (length body + 1) base body >>= λ input. parse fl (parse_fuel input) input)
        (Sound-mono 1 1 (length cs) limit (Within 0 (length cs)) (Within 0 (length cs))
          (prepare u cs) (omega arith) (omega arith) (λ r w. w) (prepare-Sound F u cs solid))
        (λ (body, base) within.
          Sound-mono 1 1 (base + length body + 1) limit (λ _. Unit {0}) (λ _. Unit {0})
            (tokenize fl u (length body + 1) base body >>= λ input.
              parse fl (parse_fuel input) input)
            (omega arith) (omega arith) (λ a w. w) (body-Sound base body))
