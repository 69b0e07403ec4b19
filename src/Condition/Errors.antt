-- ===== src/Condition/Errors.antt =====
-- What engine-core/src/condition.rs reports of a text that is no condition.
use bpmninja.Prelude.{◌+◌, ◌≤◌, ◌≡◌, ◌⊎◌, inl, inr, String, true, false, Bool-cases, length, arith}
use bpmninja.Domain.Error.{Result, ok, err, ◌>>=◌}
use bpmninja.Condition.Syntax.{SyntaxError, Float, empty_expression}
use bpmninja.Condition.Lexer.{all_whitespace, prepare}
use bpmninja.Condition.Literals.{Unicode, chars}
use bpmninja.Condition.Literals.Bounds.{is_out_of_fuel}
use bpmninja.Condition.Parser.{parse_condition}
use bpmninja.Condition.Parser.Bounds.{parse_condition-Sound}
use bpmninja.Condition.Evaluator.{validate_condition}

abbrev unchecked : {E A : Type 0} → Result E A → Result E (Unit {0})
unchecked m = m >>= λ _. ok tt

unchecked-eq-err : {E A : Type 0} (m : Result E A) {e : E} → unchecked m ≡ err e → m ≡ err e
unchecked-eq-err (err e) h = cc
unchecked-eq-err (ok a) h = cc

module _ {F : Type 0} (V : Type 0) (fl : Float F) (u : Unicode) (expr : String) where
  parse_condition_blank :
      all_whitespace u (chars expr) ≡ true
      → parse_condition {V = V} fl u expr ≡ err (record { pos = 0; message = empty_expression })
  unfolding parse_condition prepare
  parse_condition_blank blank = rw blank

  -- The fuel that `parse_condition` gives to the lexer and to the parser is enough: on any text, with
  -- any conversion of numbers and any classes of characters, an error is one of the source's own.
  pub parse_condition_terminates :
      {e : SyntaxError F}
      → parse_condition {V = V} fl u expr ≡ err e
      → is_out_of_fuel e.message ≡ false
  parse_condition_terminates failed = elim (Bool-cases (all_whitespace u (chars expr))) [
    | inl blank ↦ ground (arith, parse_condition_blank blank)
    | inr solid ↦ (rw failed at (parse_condition-Sound V fl u expr solid)).2
  ]

  -- The error of `validate_condition` on a text of white space has no position. Every other error is
  -- at a position from 1 to the number of the characters and one more.
  pub validate_condition_positions :
      {e : SyntaxError F}
      → validate_condition V fl u expr ≡ err e
      → ((all_whitespace u (chars expr) ≡ true)
          × (e ≡ record { pos = 0; message = empty_expression }))
        ⊎ ((all_whitespace u (chars expr) ≡ false)
            × (1 ≤ e.pos)
            × (e.pos ≤ length (chars expr) + 1))
  unfolding validate_condition
  validate_condition_positions failed = elim (Bool-cases (all_whitespace u (chars expr))) [
    | inl blank ↦
        let same = unchecked-eq-err (parse_condition {V = V} fl u expr) failed in
        let known = parse_condition_blank blank in inl (blank, ground arith)
    | inr solid ↦
        let same = unchecked-eq-err (parse_condition {V = V} fl u expr) failed in
        let (low, high, real) = rw same at (parse_condition-Sound V fl u expr solid) in
        inr (solid, low, high)
  ]
