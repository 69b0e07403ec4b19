-- ===== src/Condition/Parser/Printer/RoundTrip.antt =====
-- The parser of engine-core/src/condition.rs reads back what the printer writes.
use bpmninja.Prelude.{
  ℕ, zero, suc, ◌+◌, ◌*◌, ◌≤◌, ◌<◌, ◌≡◌, refl, sym, ap, String, ◌∙◌, subst, true, false, List, [],
  ◌∷◌, ◌++◌, append_assoc, append-nil, leb, leb→le, Bool-cases, inl, inr, arith,
}
use bpmninja.Domain.Error.{ok}
use bpmninja.Condition.Syntax.{
  PathSegment, EvalValue, Expr, SpannedToken, TokenKind, Float, literal, path, not, neg, and, or,
  and_op, or_op, not_op, plus, minus, star, slash, percent, compare, arith as arithmetic, add, sub,
  mul, div, rem, field, index, ident, rparen, dot, lbracket,
}
use bpmninja.Condition.Lexer.{Input}
use bpmninja.Condition.Parser.{
  peek, parse_path, parse_index, parse_or, or_loop, parse_and, and_loop, parse_not, parse_additive,
  additive_loop, parse_multiplicative, multiplicative_loop, parse_unary, parse_primary, parse,
  parse_fuel,
}
use bpmninja.Condition.Parser.Printer.{
  size, last, tightness, level, push, wrap, print_segments, bare, print, literal_token, AreIndices,
  HasText,
}
use bpmninja.Condition.Parser.Printer.Levels.{
  Reads, Speaks, Reads-or, Reads-and, Reads-additive, Reads-multiplicative, descend,
}
use bpmninja.Condition.Parser.Printer.Operators.{binary_GoesOn, prefix_Reads, compare_Reads}
use bpmninja.Condition.Parser.Printer.Sizes.{
  size-wrap, size-bare, bare_heads, paren_heads, level_bound,
}

module _ {F V : Type 0} (fl : Float F) (pos : ℕ) (of_index : ℕ → F) where
  paren_reads :
      (e : Expr F V) (printed : Input F → Input F)
      → Reads (parse_or fl) 8 0 e printed
      → Speaks fl 7 e (wrap pos false printed)
  unfolding parse_primary
  paren_reads e printed h input zero t enough = absurd (omega arith)
  paren_reads e printed h input (suc fuel) t enough =
      rw (h (push pos rparen input) fuel (omega arith) (omega arith))

  -- An expression that is read at its own level is read as an operand at every level.
  everywhere :
      (e : Expr F V)
      → HasText fl of_index e
      → Speaks fl (level e) e (bare pos of_index e)
      → (k : ℕ) → k ≤ 7
      → Speaks fl k e (print pos of_index k e)
  everywhere e t own k bound =
      let printed = bare pos of_index e in
      let longer = size-bare fl pos of_index e t in
      elim (Bool-cases (leb k (level e))) [
        | inl free ↦
            subst (λ b. Speaks fl k e (wrap pos b printed)) (sym free)
              (descend fl e printed longer (level e) k (leb→le k (level e) free) (level_bound e) own
                (bare_heads fl pos of_index e t))
        | inr closed ↦
            subst (λ b. Speaks fl k e (wrap pos b printed)) (sym closed)
              (descend fl e (wrap pos false printed) (size-wrap pos false printed longer) 7 k bound
                (omega arith)
                (paren_reads e printed (
                  Reads-or fl e printed (
                    descend fl e printed longer (level e) 0 (omega arith) (level_bound e) own
                      (bare_heads fl pos of_index e t))))
                (λ j lt. paren_heads pos printed j))
      ]

  path_stops :
      (fuel : ℕ) (segments : List PathSegment) (k : TokenKind F) (at : ℕ)
      (rest : List (SpannedToken F))
      → tightness k ≤ 7
      → parse_path {V = V} fl (suc fuel) segments (record { kind = k; pos = at }, rest)
        ≡ ok (path segments, (record { kind = k; pos = at }, rest))
  unfolding parse_path
  path_stops fuel segments dot at rest h = absurd (omega arith)
  path_stops fuel segments lbracket at rest h = absurd (omega arith)
  path_stops fuel segments k at rest h = refl

  path_reads :
      (segments : List PathSegment)
      → AreIndices fl of_index segments
      → (before : List PathSegment) (input : Input F) (fuel : ℕ) → tightness (peek input) ≤ 7
      → 10 * size (print_segments pos of_index segments input) + 1 < fuel
      → parse_path {V = V} fl fuel before (print_segments pos of_index segments input)
        ≡ ok (path (before ++ segments), input)
  unfolding parse_path print_segments
  path_reads segments numbers before input zero t enough = absurd (omega arith)
  path_reads [] numbers before (token, rest) (suc fuel) t enough =
      path_stops fuel before token.kind token.pos rest t
      ∙ ap (λ s. ok (path s, (token, rest))) (sym (append-nil before))
  path_reads (field name ∷ segments) numbers before input (suc fuel) t enough =
      path_reads segments numbers (before ++ field name ∷ []) input fuel t (omega arith)
      ∙ ap (λ s. ok (path s, input)) (append_assoc before (field name ∷ []) segments)
  path_reads (index i ∷ segments) numbers before input (suc fuel) t enough =
      rw (numbers.0, parse_index)
        (path_reads segments numbers.1 (before ++ index i ∷ []) input fuel t (omega arith)
          ∙ ap (λ s. ok (path s, input)) (append_assoc before (index i ∷ []) segments))

  path_own :
      (root : String) (segments : List PathSegment)
      → AreIndices fl of_index segments
      → Reads
          (parse_primary {V = V} fl)
          1
          7
          (path (field root ∷ segments))
          (λ input. push pos (ident root) (print_segments pos of_index segments input))
  unfolding parse_primary
  path_own root segments numbers input zero h enough = absurd (omega arith)
  path_own root segments numbers input (suc fuel) h enough =
      path_reads segments numbers (field root ∷ []) input fuel h (omega arith)

  literal_own :
      (value : EvalValue F V)
      → HasText fl of_index (literal value)
      → Reads (parse_primary fl) 1 7 (literal value) (push pos (literal_token value))
  unfolding parse_primary
  literal_own value t input zero h enough = absurd (omega arith)
  literal_own (EvalValue.number n) t input (suc fuel) h enough = refl
  literal_own (EvalValue.string s) t input (suc fuel) h enough = refl
  literal_own (EvalValue.bool true) t input (suc fuel) h enough = refl
  literal_own (EvalValue.bool false) t input (suc fuel) h enough = refl
  literal_own EvalValue.null t input (suc fuel) h enough = refl
  literal_own EvalValue.undefined t input (suc fuel) h enough = elim t [ ]
  literal_own (EvalValue.json v) t input (suc fuel) h enough = elim t [ ]

  -- Every expression with a text is read at its own level.
  own_level : (e : Expr F V) → HasText fl of_index e → Speaks fl (level e) e (bare pos of_index e)
  unfolding bare parse_or
  own_level (literal value) t = literal_own value t
  own_level (path []) t = elim t [ ]
  own_level (path (index i ∷ segments)) t = elim t [ ]
  own_level (path (field root ∷ segments)) t = path_own root segments t
  own_level (not inner) t =
      prefix_Reads pos (parse_not fl) not not_op (λ fuel rest. refl) 6 2 inner
        (print pos of_index 2 inner) (everywhere inner t (own_level inner t) 2 (omega arith))
  own_level (neg inner) t =
      prefix_Reads pos (parse_unary fl) neg minus (λ fuel rest. refl) 2 6 inner
        (print pos of_index 6 inner) (everywhere inner t (own_level inner t) 6 (omega arith))
  own_level (and lhs rhs) t =
      binary_GoesOn pos (parse_and fl) (parse_not fl) (and_loop fl) and and_op (λ fuel e rest. refl)
        7 6 2 (omega arith) (omega arith) lhs rhs (print pos of_index 1 lhs)
        (print pos of_index 2 rhs)
        (size-wrap pos (leb 2 (level rhs)) (bare pos of_index rhs)
          (size-bare fl pos of_index rhs t.1))
        ((everywhere rhs t.1 (own_level rhs t.1) 2 (omega arith)))
        (everywhere lhs t.0 (own_level lhs t.0) 1 (omega arith))
  own_level (or lhs rhs) t =
      binary_GoesOn pos (parse_or fl) (parse_and fl) (or_loop fl) or or_op (λ fuel e rest. refl) 8 7
        1 (omega arith) (omega arith) lhs rhs (print pos of_index 0 lhs) (print pos of_index 1 rhs)
        (size-wrap pos (leb 1 (level rhs)) (bare pos of_index rhs)
          (size-bare fl pos of_index rhs t.1))
        (Reads-and fl rhs (print pos of_index 1 rhs)
          (everywhere rhs t.1 (own_level rhs t.1) 1 (omega arith)))
        (everywhere lhs t.0 (own_level lhs t.0) 0 (omega arith))
  own_level (arithmetic add lhs rhs) t =
      binary_GoesOn pos (parse_additive fl) (parse_multiplicative fl) (additive_loop fl)
        (arithmetic add) plus (λ fuel e rest. refl) 4 3 5 (omega arith) (omega arith) lhs rhs
        (print pos of_index 4 lhs) (print pos of_index 5 rhs)
        (size-wrap pos (leb 5 (level rhs)) (bare pos of_index rhs)
          (size-bare fl pos of_index rhs t.1))
        (Reads-multiplicative fl rhs (print pos of_index 5 rhs)
          (everywhere rhs t.1 (own_level rhs t.1) 5 (omega arith)))
        (everywhere lhs t.0 (own_level lhs t.0) 4 (omega arith))
  own_level (arithmetic sub lhs rhs) t =
      binary_GoesOn pos (parse_additive fl) (parse_multiplicative fl) (additive_loop fl)
        (arithmetic sub) minus (λ fuel e rest. refl) 4 3 5 (omega arith) (omega arith) lhs rhs
        (print pos of_index 4 lhs) (print pos of_index 5 rhs)
        (size-wrap pos (leb 5 (level rhs)) (bare pos of_index rhs)
          (size-bare fl pos of_index rhs t.1))
        (Reads-multiplicative fl rhs (print pos of_index 5 rhs)
          (everywhere rhs t.1 (own_level rhs t.1) 5 (omega arith)))
        (everywhere lhs t.0 (own_level lhs t.0) 4 (omega arith))
  own_level (arithmetic mul lhs rhs) t =
      binary_GoesOn pos (parse_multiplicative fl) (parse_unary fl) (multiplicative_loop fl)
        (arithmetic mul) star (λ fuel e rest. refl) 3 2 6 (omega arith) (omega arith) lhs rhs
        (print pos of_index 5 lhs) (print pos of_index 6 rhs)
        (size-wrap pos (leb 6 (level rhs)) (bare pos of_index rhs)
          (size-bare fl pos of_index rhs t.1))
        ((everywhere rhs t.1 (own_level rhs t.1) 6 (omega arith)))
        (everywhere lhs t.0 (own_level lhs t.0) 5 (omega arith))
  own_level (arithmetic div lhs rhs) t =
      binary_GoesOn pos (parse_multiplicative fl) (parse_unary fl) (multiplicative_loop fl)
        (arithmetic div) slash (λ fuel e rest. refl) 3 2 6 (omega arith) (omega arith) lhs rhs
        (print pos of_index 5 lhs) (print pos of_index 6 rhs)
        (size-wrap pos (leb 6 (level rhs)) (bare pos of_index rhs)
          (size-bare fl pos of_index rhs t.1))
        ((everywhere rhs t.1 (own_level rhs t.1) 6 (omega arith)))
        (everywhere lhs t.0 (own_level lhs t.0) 5 (omega arith))
  own_level (arithmetic rem lhs rhs) t =
      binary_GoesOn pos (parse_multiplicative fl) (parse_unary fl) (multiplicative_loop fl)
        (arithmetic rem) percent (λ fuel e rest. refl) 3 2 6 (omega arith) (omega arith) lhs rhs
        (print pos of_index 5 lhs) (print pos of_index 6 rhs)
        (size-wrap pos (leb 6 (level rhs)) (bare pos of_index rhs)
          (size-bare fl pos of_index rhs t.1))
        ((everywhere rhs t.1 (own_level rhs t.1) 6 (omega arith)))
        (everywhere lhs t.0 (own_level lhs t.0) 5 (omega arith))
  own_level (compare op lhs rhs) t =
      compare_Reads fl pos op lhs rhs (print pos of_index 4 lhs) (print pos of_index 4 rhs)
        (size-wrap pos (leb 4 (level lhs)) (bare pos of_index lhs)
          (size-bare fl pos of_index lhs t.0))
        (size-wrap pos (leb 4 (level rhs)) (bare pos of_index rhs)
          (size-bare fl pos of_index rhs t.1))
        (Reads-additive fl lhs (print pos of_index 4 lhs)
          (everywhere lhs t.0 (own_level lhs t.0) 4 (omega arith)))
        (Reads-additive fl rhs (print pos of_index 4 rhs)
          (everywhere rhs t.1 (own_level rhs t.1) 4 (omega arith)))

  -- The parser reads the tokens of an expression back as that expression, with the parentheses that
  -- the levels of precedence ask for and no others, if its literals are no JSON values, its paths
  -- start with a variable, and each index is the number that stands for it.
  pub parse-print :
      (e : Expr F V) (end : ℕ)
      → HasText fl of_index e
      → parse fl
          (parse_fuel (print pos of_index 0 e (last end)))
          (print pos of_index 0 e (last end))
        ≡ ok e
  unfolding parse
  parse-print e end t =
      let tokens = print pos of_index 0 e (last end) in
      rw (
        Reads-or fl e (print pos of_index 0 e) (everywhere e t (own_level e t) 0 (omega arith))
          (last end) (parse_fuel tokens) (omega arith) (omega arith))
