-- ===== src/Condition/Parser/Printer/Levels.antt =====
-- The parsers of engine-core/src/condition.rs by level: what one level reads, the one below it reads.
use bpmninja.Prelude.{
  ℕ, zero, suc, ◌+◌, ◌*◌, ◌≤◌, ◌<◌, ◌≡◌, sym, subst, inl, inr, Bool-cases, leb→le, ◌∙◌, false, leb,
  arith,
}
use bpmninja.Domain.Error.{ok}
use bpmninja.Condition.Syntax.{Expr, Float}
use bpmninja.Condition.Lexer.{Input}
use bpmninja.Condition.Parser.{
  Parse, peek, is_not, is_minus, parse_or, or_loop, parse_and, and_loop, parse_not,
  parse_comparison, parse_additive, additive_loop, parse_multiplicative, multiplicative_loop,
  parse_unary, parse_primary,
}
use bpmninja.Condition.Parser.Printer.{size, tightness}
use bpmninja.Condition.Parser.Printer.Stops.{
  or_loop-stops, and_loop-stops, compare_tail-stops, additive_loop-stops, multiplicative_loop-stops,
}

-- A parser of weight `w` reads `e` where `printed` puts it, before a token that binds at most as
-- tightly as `limit`; or it goes on as its loop does after `e`.
abbrev pub Reads :
    {F V : Type 0}
    → (ℕ → Input F → Parse F (Expr F V))
    → (w limit : ℕ) → Expr F V
    → (Input F → Input F)
    → Type 0
Reads {F} p w limit e printed =
    (input : Input F) (fuel : ℕ)
    → tightness (peek input) ≤ limit
    → 10 * size (printed input) + w < fuel
    → p fuel (printed input) ≡ ok (e, input)

abbrev pub GoesOn :
    {F V : Type 0}
    → (ℕ → Input F → Parse F (Expr F V))
    → (ℕ → Expr F V → Input F → Parse F (Expr F V))
    → (w limit : ℕ) → Expr F V
    → (Input F → Input F)
    → Type 0
GoesOn {F} p loop w limit e printed =
    (input : Input F) (fuel : ℕ)
    → tightness (peek input) ≤ limit
    → 10 * size (printed input) + w < fuel
    → (left : ℕ) × (10 * size input + 1 < left) × (p fuel (printed input) ≡ loop left e input)

module _ {F V : Type 0} (fl : Float F) where
  abbrev pub Speaks : ℕ → Expr F V → (Input F → Input F) → Type 0
  Speaks zero = GoesOn (parse_or fl) (or_loop fl) 8 1
  Speaks (suc zero) = GoesOn (parse_and fl) (and_loop fl) 7 2
  Speaks (suc (suc zero)) = Reads (parse_not fl) 6 2
  Speaks (suc (suc (suc zero))) = Reads (parse_comparison fl) 5 3
  Speaks (suc (suc (suc (suc zero)))) = GoesOn (parse_additive fl) (additive_loop fl) 4 5
  Speaks (suc (suc (suc (suc (suc zero))))) =
      GoesOn (parse_multiplicative fl) (multiplicative_loop fl) 3 6
  Speaks (suc (suc (suc (suc (suc (suc zero)))))) = Reads (parse_unary fl) 2 6
  Speaks _ = Reads (parse_primary fl) 1 7

-- What the step from the level above needs of the first token.
abbrev pub HeadFits : {F : Type 0} → ℕ → (Input F → Input F) → Type 0
HeadFits {F} (suc (suc zero)) printed = (input : Input F) → is_not (peek (printed input)) ≡ false
HeadFits {F} (suc (suc (suc (suc (suc (suc zero)))))) printed =
    (input : Input F) → is_minus (peek (printed input)) ≡ false
HeadFits _ printed = Unit

-- A loop that ends makes a reader of a parser that goes on.
GoesOn-Reads :
    {F V : Type 0} (p : ℕ → Input F → Parse F (Expr F V))
    (loop : ℕ → Expr F V → Input F → Parse F (Expr F V)) (w limit less : ℕ) (e : Expr F V)
    (printed : Input F → Input F)
    → less ≤ limit
    → ((input : Input F) (fuel : ℕ)
        → 0 < fuel
        → tightness (peek input) ≤ less
        → loop fuel e input ≡ ok (e, input))
    → GoesOn p loop w limit e printed
    → Reads p w less e printed
GoesOn-Reads p loop w limit less e printed le stops goes input fuel h enough =
    let (left, more, same) = goes input fuel (omega arith) enough in
    same ∙ stops input left (omega arith) h

module _ {F V : Type 0} (fl : Float F) (e : Expr F V) (printed : Input F → Input F) where
  pub Reads-or : Speaks fl 0 e printed → Reads (parse_or fl) 8 0 e printed
  Reads-or =
      GoesOn-Reads (parse_or fl) (or_loop fl) 8 1 0 e printed (omega arith) (or_loop-stops fl e)

  pub Reads-and : Speaks fl 1 e printed → Reads (parse_and fl) 7 1 e printed
  Reads-and =
      GoesOn-Reads (parse_and fl) (and_loop fl) 7 2 1 e printed (omega arith) (and_loop-stops fl e)

  pub Reads-additive : Speaks fl 4 e printed → Reads (parse_additive fl) 4 4 e printed
  Reads-additive =
      GoesOn-Reads (parse_additive fl) (additive_loop fl) 4 5 4 e printed (omega arith)
        (additive_loop-stops fl e)

  pub Reads-multiplicative : Speaks fl 5 e printed → Reads (parse_multiplicative fl) 3 5 e printed
  Reads-multiplicative =
      GoesOn-Reads (parse_multiplicative fl) (multiplicative_loop fl) 3 6 5 e printed (omega arith)
        (multiplicative_loop-stops fl e)

  module _ (longer : (input : Input F) → size input < size (printed input)) where
    -- From the level above.
    down_or : Speaks fl 1 e printed → Speaks fl 0 e printed
    unfolding parse_or
    down_or h input zero t enough = absurd (omega arith)
    down_or h input (suc fuel) t enough =
        let le = longer input in (fuel, omega arith, rw (Reads-and h input fuel t (omega arith)))

    down_and : Speaks fl 2 e printed → Speaks fl 1 e printed
    unfolding parse_and
    down_and h input zero t enough = absurd (omega arith)
    down_and h input (suc fuel) t enough =
        let le = longer input in (fuel, omega arith, rw (h input fuel t (omega arith)))

    down_not : Speaks fl 3 e printed → HeadFits 2 printed → Speaks fl 2 e printed
    unfolding parse_not
    down_not h head input zero t enough = absurd (omega arith)
    down_not h head input (suc fuel) t enough =
        rw (head input, parse_not) (h input fuel (omega arith) (omega arith))

    down_comparison : Speaks fl 4 e printed → Speaks fl 3 e printed
    unfolding parse_comparison
    down_comparison h input zero t enough = absurd (omega arith)
    down_comparison h input (suc fuel) t enough =
        rw (Reads-additive h input fuel (omega arith) (omega arith))
          (compare_tail-stops fl e input fuel (omega arith) t)

    down_additive : Speaks fl 5 e printed → Speaks fl 4 e printed
    unfolding parse_additive
    down_additive h input zero t enough = absurd (omega arith)
    down_additive h input (suc fuel) t enough =
        let le = longer input in
        (fuel, omega arith, rw (Reads-multiplicative h input fuel t (omega arith)))

    down_multiplicative : Speaks fl 6 e printed → Speaks fl 5 e printed
    unfolding parse_multiplicative
    down_multiplicative h input zero t enough = absurd (omega arith)
    down_multiplicative h input (suc fuel) t enough =
        let le = longer input in (fuel, omega arith, rw (h input fuel t (omega arith)))

    down_unary : Speaks fl 7 e printed → HeadFits 6 printed → Speaks fl 6 e printed
    unfolding parse_unary
    down_unary h head input zero t enough = absurd (omega arith)
    down_unary h head input (suc fuel) t enough =
        rw (head input, parse_unary) (h input fuel (omega arith) (omega arith))

module _ {F V : Type 0} (fl : Float F) (e : Expr F V) (printed : Input F → Input F)
    (longer : (input : Input F) → size input < size (printed input)) where
  down : (k : ℕ) → k < 7 → Speaks fl (suc k) e printed → HeadFits k printed → Speaks fl k e printed
  down zero lt h head = down_or fl e printed longer h
  down (suc zero) lt h head = down_and fl e printed longer h
  down (suc (suc zero)) lt h head = down_not fl e printed longer h head
  down (suc (suc (suc zero))) lt h head = down_comparison fl e printed longer h
  down (suc (suc (suc (suc zero)))) lt h head = down_additive fl e printed longer h
  down (suc (suc (suc (suc (suc zero))))) lt h head = down_multiplicative fl e printed longer h
  down (suc (suc (suc (suc (suc (suc zero)))))) lt h head = down_unary fl e printed longer h head
  down (suc (suc (suc (suc (suc (suc (suc k))))))) lt h head = absurd (omega arith)

  -- From the level `top` to a level `k` at or below it.
  pub descend :
      (top k : ℕ)
      → k ≤ top
      → top ≤ 7
      → Speaks fl top e printed
      → ((j : ℕ) → j < top → HeadFits j printed)
      → Speaks fl k e printed
  descend zero k le bound h heads =
      let same : k ≡ 0 = omega arith in subst (λ n. Speaks fl n e printed) (sym same) h
  descend (suc top) k le bound h heads = elim (Bool-cases (leb k top)) [
    | inl lower ↦
        descend top k (leb→le k top lower) (omega arith)
          (down top (omega arith) h (heads top (omega arith))) (λ j lt. heads j (omega arith))
    | inr top_level ↦
        let same : k ≡ suc top = ground arith in subst (λ n. Speaks fl n e printed) (sym same) h
  ]
