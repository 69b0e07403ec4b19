-- ===== src/Condition/Parser/Bounds/Runs.antt =====
-- Parsers with enough fuel, one after another and behind an operator. A call with weight `w` on `n`
-- tokens after the current one needs more than `10 * n + w` units.

use bpmninja.Prelude.{ℕ, suc, ◌+◌, ◌*◌, ◌≤◌, ◌<◌, ◌≡◌, false, List, [], ◌∷◌, length, arith}
use bpmninja.Domain.Error.{ok, err, ◌>>=◌}
use bpmninja.Condition.Syntax.{SpannedToken, TokenKind, Message}
use bpmninja.Condition.Lexer.{Input, is_eof}
use bpmninja.Condition.Lexer.Bounds.{Good}
use bpmninja.Condition.Literals.Bounds.{Sound, Sound-mono, is_out_of_fuel}
use bpmninja.Condition.Parser.{Parse, peek, peek_pos, advance}

abbrev pub size : {F : Type 0} → Input F → ℕ
size (t, rest) = length rest

-- What is left ends as the input does, and is no longer than `n` tokens after the current one.
abbrev pub Left : {F A : Type 0} → ℕ → ℕ → A × Input F → Type 0
Left hi n (a, rest) = Good hi rest × (size rest ≤ n)

module _ {F : Type 0} (hi : ℕ) where
  pub advance-Good : (input : Input F) → Good hi input → Good hi (advance input)
  advance-Good (t, []) g = g
  advance-Good (t, u ∷ rest) g = g.2

  -- A token that is not the last one is consumed.
  pub size-advance :
      (input : Input F)
      → Good hi input
      → is_eof (peek input) ≡ false
      → size input ≡ size (advance input) + 1
  size-advance (t, []) g h = cc
  size-advance (t, u ∷ rest) g h = omega arith

  pub size-advance-le : (input : Input F) → size (advance input) ≤ size input
  size-advance-le (t, []) = omega arith
  size-advance-le (t, u ∷ rest) = omega arith

  pub peek_pos_bounds :
      (input : Input F) → Good hi input → (1 ≤ peek_pos input) × (peek_pos input ≤ hi)
  peek_pos_bounds (t, []) g = (g.0, g.1)
  peek_pos_bounds (t, u ∷ rest) g = (g.0, g.1)

-- The parser `p`, of weight `w`, has enough fuel.
abbrev pub Runs : {F A : Type 0} → (hi w fuel : ℕ) (p : Input F → Parse F A) → Type 0
Runs {F} hi w fuel p =
    (input : Input F)
    → Good hi input
    → 10 * size input + w < fuel
    → Sound 1 hi (Left hi (size input)) (p input)

module _ {F A B : Type 0} (hi : ℕ) where
  -- One parser after another, on what the first leaves.
  pub then-Sound :
      (n w fuel : ℕ) (m : Parse F A) (k : A → Input F → Parse F B)
      → 10 * n + w < fuel
      → Sound 1 hi (Left hi n) m
      → ((a : A) → Runs hi w fuel (k a))
      → Sound 1 hi (Left hi n) (m >>= λ (a, rest). k a rest)
  then-Sound n w fuel (err e) k enough s runs = s
  then-Sound n w fuel (ok (a, rest)) k enough s runs =
      Sound-mono 1 1 hi hi (Left hi (size rest)) (Left hi n) (k a rest) (omega arith) (omega arith)
        (λ (b, left) l. (l.0, omega arith)) (runs a rest s.0 (omega arith))

module _ {F A : Type 0} (hi : ℕ) (input : Input F) (good : Good hi input) where
  pub after_advance :
      (m : Parse F A)
      → is_eof (peek input) ≡ false
      → Sound 1 hi (Left hi (size (advance input))) m
      → Sound 1 hi (Left hi (size input)) m
  after_advance m more s =
      let used = size-advance hi input good more in
      Sound-mono 1 1 hi hi (Left hi (size (advance input))) (Left hi (size input)) m (omega arith)
        (omega arith) (λ (a, rest) l. (l.0, omega arith)) s

  -- `p` on the tokens after the current one.
  pub advanced :
      (w fuel : ℕ) (p : Input F → Parse F A)
      → is_eof (peek input) ≡ false
      → Runs hi w fuel p
      → 10 * size input + w < fuel + 10
      → Sound 1 hi (Left hi (size (advance input))) (p (advance input))
  advanced w fuel p more runs enough =
      let used = size-advance hi input good more in
      runs (advance input) (advance-Good hi input good) (omega arith)

  pub stop : (a : A) → Sound {F = F} 1 hi (Left hi (size input)) (ok (a, input))
  stop a = (good, omega arith)

-- An operator is the current token; `p` reads its operand and `k` goes on.
pub operand-Sound :
    {F A B : Type 0} (hi : ℕ) (input : Input F) (good : Good hi input) (w fuel : ℕ)
    (p : Input F → Parse F A) (k : A → Input F → Parse F B)
    → w ≤ 9
    → 10 * size input + 1 < suc fuel
    → is_eof (peek input) ≡ false
    → Runs hi w fuel p
    → ((a : A) → Runs hi 1 fuel (k a))
    → Sound 1 hi (Left hi (size input)) (p (advance input) >>= λ (a, rest). k a rest)
operand-Sound hi input good w fuel p k light enough more runs goes =
    let used = size-advance hi input good more in
    after_advance hi input good (p (advance input) >>= λ (a, rest). k a rest) more (
      then-Sound hi (size (advance input)) 1 fuel (p (advance input)) k (omega arith)
        (advanced hi input good w fuel p more runs (omega arith)) goes)

-- A token of kind `k` at `pos`, and those after it.
abbrev pub input_of : {F : Type 0} → TokenKind F → ℕ → List (SpannedToken F) → Input F
input_of k pos rest = (record { kind = k; pos = pos }, rest)

module _ {F A : Type 0} (hi : ℕ) (input : Input F) (good : Good hi input) where
  -- The parser reads the current token and returns, or it refuses it.
  pub past : (a : A) → Sound {F = F} 1 hi (Left hi (size input)) (ok (a, advance input))
  past a = (advance-Good hi input good, size-advance-le hi input)

module _ {F : Type 0} (hi : ℕ) (input : Input F) (good : Good hi input) where
  pub refuse :
      (message : Message F)
      → is_out_of_fuel message ≡ false
      → (1 ≤ peek_pos input) × (peek_pos input ≤ hi) × (is_out_of_fuel message ≡ false)
  refuse message real = ((peek_pos_bounds hi input good).0, (peek_pos_bounds hi input good).1, real)
