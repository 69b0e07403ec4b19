-- ===== src/Condition/Lexer/Bounds.antt =====
-- The lexer of engine-core/src/condition.rs: the positions of tokens and errors, and enough fuel.
use Prim.Native.Char.{Char}
use bpmninja.Prelude.{
  ℕ, zero, suc, ◌+◌, ◌≤◌, ◌<◌, ◌≡◌, refl, true, false, Bool-cases, Option-cases, inl, inr, some,
  List, [], ◌∷◌, length, arith,
}
use bpmninja.Domain.Error.{ok, err, ◌>>=◌}
use bpmninja.Condition.Syntax.{SpannedToken, TokenKind, str, Parsed, Float}
use bpmninja.Condition.Lexer.{
  Input, is_eof, cons_input, pair_op, lex_token, tokenize, trim_end, split_last, all_whitespace,
  unwrap, prepare, is_ident_continue,
}
use bpmninja.Condition.Literals.{Unicode, span, is_ascii_digit, read_number, read_string}
use bpmninja.Condition.Literals.Bounds.{
  Sound, Sound-mono, Sound-bind, length-span, Consumed, read_string-Sound, read_number-Sound,
}

module _ {F : Type 0} (fl : Float F) (u : Unicode) where
  string_token-Sound :
      (at : ℕ) (c : Char) (cs : List Char)
      → Sound
          (at + 1)
          (at + suc (length cs))
          (Consumed {A = TokenKind F} at (at + suc (length cs)))
          (read_string {F = F} u (length cs + 1) c at (at + 1) [] cs >>= λ (s, next, rest).
            ok (str s, next, rest))
  string_token-Sound at c cs =
      let hi : ℕ = at + suc (length cs) in
      Sound-bind (at + 1) hi (Consumed at hi) (Consumed at hi)
        (read_string {F = F} u (length cs + 1) c at (at + 1) [] cs)
        (λ (s, next, rest). ok (str s, next, rest))
        (read_string-Sound F u hi (length cs + 1) c at (at + 1) [] cs (omega arith) (omega arith)
          (omega arith))
        (λ (s, next, rest) used. used)

  number_token-Sound :
      (at : ℕ) (c : Char) (cs : List Char)
      → is_ascii_digit c ≡ true
      → Sound
          (at + 1)
          (at + suc (length cs))
          (Consumed {A = TokenKind F} at (at + suc (length cs)))
          (read_number fl at (c ∷ cs) >>= λ (n, next, rest). ok (TokenKind.number n, next, rest))
  number_token-Sound at c cs h =
      let hi : ℕ = at + suc (length cs) in
      Sound-bind (at + 1) hi (Consumed at hi) (Consumed at hi) (read_number fl at (c ∷ cs))
        (λ (n, next, rest). ok (TokenKind.number n, next, rest)) (read_number-Sound fl at c cs h)
        (λ (s, next, rest) used. used)

  lex_token-Sound :
      (at : ℕ) (c : Char) (cs : List Char)
      → Sound
          (at + 1)
          (at + suc (length cs))
          (Consumed at (at + suc (length cs)))
          (lex_token fl u at c cs)
  unfolding lex_token
  lex_token-Sound at c cs = ground (
    arith,
    string_token-Sound at c cs,
    number_token-Sound at c cs,
    length-span (is_ident_continue u) cs,
  )

-- The positions lie between 1 and `hi`, and the last token, and only it, is the end.
abbrev pub GoodFrom : {F : Type 0} → ℕ → SpannedToken F → List (SpannedToken F) → Type 0
GoodFrom hi t [] = (1 ≤ t.pos) × (t.pos ≤ hi) × (is_eof t.kind ≡ true)
GoodFrom hi t (next ∷ rest) = (1 ≤ t.pos) × (t.pos ≤ hi) × GoodFrom hi next rest

abbrev pub Good : {F : Type 0} → ℕ → Input F → Type 0
Good hi (t, rest) = GoodFrom hi t rest

length-pair_op :
    (F : Type 0) (c : Char) (cs : List Char) {kind : TokenKind F} {rest : List Char}
    → pair_op c cs ≡ some (kind, rest)
    → length cs ≡ length rest + 1
unfolding pair_op
length-pair_op F c [] h = ground arith
length-pair_op F c (d ∷ cs) h = ground arith

cons_input-Sound :
    {F : Type 0} (hi at next : ℕ) (kind : TokenKind F) (m : Parsed F (Input F))
    → at ≤ next
    → at + 1 ≤ hi
    → Sound (next + 1) hi (Good hi) m
    → Sound
        (at + 1)
        hi
        (Good hi)
        (m >>= λ input. ok (cons_input (record { kind = kind; pos = at + 1 }) input))
cons_input-Sound hi at next kind (ok (t, rest)) le lt s = (omega arith, lt, s)
cons_input-Sound hi at next kind (err e) le lt s = (omega arith, s.1, s.2)

module _ {F : Type 0} (fl : Float F) (u : Unicode) where
  pub tokenize-Sound :
      (hi fuel at : ℕ) (cs : List Char)
      → at + length cs + 1 ≡ hi
      → length cs < fuel
      → Sound (at + 1) hi (Good hi) (tokenize fl u fuel at cs)
  unfolding tokenize
  tokenize-Sound hi zero at cs e h = absurd (omega arith)
  tokenize-Sound hi (suc fuel) at [] e h = ground arith
  tokenize-Sound hi (suc fuel) at (c ∷ cs) e h = elim (Bool-cases (u.is_whitespace c)) [
    | inl blank ↦
        rw (blank, Sound)
          (Sound-mono (at + 1 + 1) (at + 1) hi hi (Good hi) (Good hi)
            (tokenize fl u fuel (at + 1) cs) (omega arith) (omega arith) (λ i g. g)
            (tokenize-Sound hi fuel (at + 1) cs (omega arith) (omega arith)))
    | inr solid ↦
        rw (solid, Sound)
          (elim (Option-cases (pair_op {F = F} c cs)) [
            | inr ((kind, rest), pair) ↦
                rw (pair, Sound)
                  (let used = length-pair_op F c cs pair in
                    cons_input-Sound hi at (at + 2) kind (tokenize fl u fuel (at + 2) rest)
                      (omega arith) (omega arith)
                      (tokenize-Sound hi fuel (at + 2) rest (omega arith) (omega arith)))
            | inl single ↦
                rw (single, Sound)
                  (Sound-bind (at + 1) hi (Consumed at (at + suc (length cs))) (Good hi)
                    (lex_token fl u at c cs)
                    (λ (kind, next, rest). tokenize fl u fuel next rest >>= λ input.
                      ok (cons_input (record { kind = kind; pos = at + 1 }) input))
                    (Sound-mono (at + 1) (at + 1) (at + suc (length cs)) hi
                      (Consumed at (at + suc (length cs))) (Consumed at (at + suc (length cs)))
                      (lex_token fl u at c cs) (omega arith) (omega arith) (λ r used. used)
                      (lex_token-Sound fl u at c cs))
                    (λ (kind, next, rest) used.
                      cons_input-Sound hi at next kind (tokenize fl u fuel next rest) (omega arith)
                        (omega arith)
                        (tokenize-Sound hi fuel next rest (omega arith) (omega arith))))
          ])
  ]

length-split_last : (c : Char) (cs : List Char) → length (split_last c cs).0 ≡ length cs
unfolding split_last
length-split_last c [] = refl
length-split_last c (d ∷ cs) = ground (arith, length-split_last d cs)

-- The body starts at or after `start`, and it ends at or before `hi`.
abbrev pub Within : ℕ → ℕ → List Char × ℕ → Type 0
Within start hi (body, base) = (start ≤ base) × (base + length body ≤ hi)

module _ (u : Unicode) where
  length-trim_end-le : (cs : List Char) → length (trim_end u cs) ≤ length cs
  unfolding trim_end
  length-trim_end-le [] = omega arith
  length-trim_end-le (c ∷ cs) = ground (arith, length-trim_end-le cs)

module _ (F : Type 0) (u : Unicode) where
  unwrap-Sound :
      (start : ℕ) (cs : List Char)
      → Sound
          (start + 1)
          (start + length cs)
          (Within start (start + length cs))
          (unwrap {F = F} u start cs)
  unfolding unwrap split_last
  unwrap-Sound start [] = ground arith
  unwrap-Sound start (a ∷ []) = ground arith
  unwrap-Sound start (a ∷ b ∷ []) = ground arith
  unwrap-Sound start (a ∷ b ∷ c ∷ cs) = ground (arith, length-split_last c cs)

  -- The text is white space, and this is reported without a position, or the body lies within it.
  pub prepare-Sound :
      (cs : List Char)
      → all_whitespace u cs ≡ false
      → Sound 1 (length cs) (Within 0 (length cs)) (prepare {F = F} u cs)
  unfolding prepare
  prepare-Sound cs solid =
      let start = length (span u.is_whitespace cs).0 in
      let body = trim_end u (span u.is_whitespace cs).1 in
      let short : start + length body ≤ length cs =
        omega (
          arith,
          length-span u.is_whitespace cs,
          length-trim_end-le u (span u.is_whitespace cs).1,
        ) in
      rw (solid, Sound)
        (Sound-mono (start + 1) 1 (start + length body) (length cs)
          (Within start (start + length body)) (Within 0 (length cs)) (unwrap {F = F} u start body)
          (omega arith) short (λ r w. (omega arith, omega arith)) (unwrap-Sound start body))
