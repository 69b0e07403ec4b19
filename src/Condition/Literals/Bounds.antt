-- ===== src/Condition/Literals/Bounds.antt =====
-- Numbers and string literals of engine-core/src/condition.rs: positions and enough fuel.
use Prim.Native.Char.{Char, code}
use bpmninja.Prelude.{
  ℕ, zero, suc, ◌+◌, ◌≤◌, ◌<◌, ◌≡◌, subst, refl, Bool, true, false, Bool-cases, inl, inr, List, [],
  ◌∷◌, ◌++◌, length, length-append, arith,
}
use bpmninja.Domain.Error.{ok, err, ◌>>=◌}
use bpmninja.Condition.Syntax.{Message, Parsed, Float, out_of_fuel}
use bpmninja.Condition.Literals.{
  Unicode, Read, span, is, is_ascii_digit, fraction, read_number, unicode_escape, hex_escape,
  escape, read_string,
}

abbrev pub is_out_of_fuel : {F : Type 0} → Message F → Bool
is_out_of_fuel out_of_fuel = true
is_out_of_fuel _ = false

-- A result that meets `P`, or an error of the source at a position from `lo` to `hi`.
abbrev pub Sound : {F A : Type 0} → (lo hi : ℕ) (P : A → Type 0) → Parsed F A → Type 0
Sound lo hi P (ok a) = P a
Sound lo hi P (err e) = (lo ≤ e.pos) × (e.pos ≤ hi) × (is_out_of_fuel e.message ≡ false)

module _ {F A : Type 0} where
  pub Sound-mono :
      (lo lo' hi hi' : ℕ) (P Q : A → Type 0) (m : Parsed F A)
      → lo' ≤ lo
      → hi ≤ hi'
      → ((a : A) → P a → Q a)
      → Sound lo hi P m
      → Sound lo' hi' Q m
  Sound-mono lo lo' hi hi' P Q (ok a) below above f s = f a s
  Sound-mono lo lo' hi hi' P Q (err e) below above f s = (omega arith, omega arith, s.2)

  pub Sound-bind :
      {B : Type 0} (lo hi : ℕ) (P : A → Type 0) (Q : B → Type 0) (m : Parsed F A)
      (f : A → Parsed F B)
      → Sound lo hi P m
      → ((a : A) → P a → Sound lo hi Q (f a))
      → Sound lo hi Q (m >>= f)
  Sound-bind lo hi P Q (ok a) f s g = g a s
  Sound-bind lo hi P Q (err e) f s g = s

pub length-span :
    (p : Char → Bool) (cs : List Char) → length (span p cs).0 + length (span p cs).1 ≡ length cs
unfolding span
length-span p [] = refl
length-span p (c ∷ cs) = ground (arith, length-span p cs)

-- `next` characters stand before the rest, at least one more than before.
abbrev pub Consumed : {A : Type 0} → (at hi : ℕ) → Read A → Type 0
Consumed at hi (a, next, rest) = (next + length rest ≡ hi) × (at < next)

module _ (F : Type 0) (u : Unicode) where
  pub hex_escape-Sound :
      (at : ℕ) (cs : List Char)
      → Sound
          (at + 1)
          (at + 2 + length cs)
          (Consumed at (at + 2 + length cs))
          (hex_escape {F = F} u at cs)
  unfolding hex_escape unicode_escape
  hex_escape-Sound at (a ∷ b ∷ c ∷ d ∷ cs) = ground arith
  hex_escape-Sound at [] = ground arith
  hex_escape-Sound at (a ∷ []) = ground arith
  hex_escape-Sound at (a ∷ b ∷ []) = ground arith
  hex_escape-Sound at (a ∷ b ∷ c ∷ []) = ground arith

  pub escape-Sound :
      (at : ℕ) (cs : List Char)
      → Sound
          (at + 1)
          (at + 1 + length cs)
          (Consumed at (at + 1 + length cs))
          (escape {F = F} u at cs)
  unfolding escape
  escape-Sound at [] = ground arith
  escape-Sound at (e ∷ cs) = ground (arith, hex_escape-Sound at cs)

  pub escape_from :
      (at start hi : ℕ) (cs : List Char)
      → at + 1 + length cs ≡ hi
      → start ≤ at
      → Sound (start + 1) hi (Consumed at hi) (escape {F = F} u at cs)
  escape_from at start hi cs e le =
      subst (λ h. Sound (start + 1) h (Consumed at h) (escape {F = F} u at cs)) e
        (Sound-mono (at + 1) (start + 1) (at + 1 + length cs) (at + 1 + length cs)
          (Consumed at (at + 1 + length cs)) (Consumed at (at + 1 + length cs))
          (escape {F = F} u at cs) (omega arith) (omega arith) (λ a p. p) (escape-Sound at cs))

  pub read_string-Sound :
      (hi fuel : ℕ) (quote : Char) (start at : ℕ) (out cs : List Char)
      → at + length cs ≡ hi
      → length cs < fuel
      → start < at
      → Sound (start + 1) hi (Consumed start hi) (read_string {F = F} u fuel quote start at out cs)
  unfolding read_string
  read_string-Sound hi zero quote start at out cs e h le = absurd (omega arith)
  read_string-Sound hi (suc fuel) quote start at out [] e h le = ground arith
  read_string-Sound hi (suc fuel) quote start at out (c ∷ cs) e h le =
      elim (Bool-cases (is c (code quote))) [
        | inl ends ↦ rw (ends, Sound) (omega arith, omega arith)
        | inr more ↦
            rw (more, Sound)
              (elim (Bool-cases (is c b'\\')) [
                | inr plain ↦
                    rw (plain, Sound)
                      (read_string-Sound hi fuel quote start (at + 1) (out ++ c ∷ []) cs
                        (omega arith) (omega arith) (omega arith))
                | inl escaped ↦
                    rw (escaped, Sound)
                      (Sound-bind (start + 1) hi (Consumed at hi) (Consumed start hi)
                        (escape {F = F} u at cs)
                        (λ (decoded, next, rest).
                          read_string {F = F} u fuel quote start next (out ++ decoded ∷ []) rest)
                        (escape_from at start hi cs (omega arith) (omega arith))
                        (λ (decoded, next, rest) used.
                          read_string-Sound hi fuel quote start next (out ++ decoded ∷ []) rest
                            (omega arith) (omega arith) (omega arith)))
              ])
      ]

pub length-fraction : (cs : List Char) → length (fraction cs).0 + length (fraction cs).1 ≡ length cs
unfolding fraction
length-fraction [] = refl
length-fraction (c ∷ []) = refl
length-fraction (c ∷ d ∷ cs) = ground (arith, length-span is_ascii_digit (d ∷ cs))

module _ {F : Type 0} (fl : Float F) where
  pub read_number-Sound :
      (at : ℕ) (c : Char) (cs : List Char)
      → is_ascii_digit c ≡ true
      → Sound
          (at + 1)
          (at + length (c ∷ cs))
          (Consumed at (at + length (c ∷ cs)))
          (read_number fl at (c ∷ cs))
  unfolding read_number fraction span
  read_number-Sound at c cs h =
      let (whole, after) = span is_ascii_digit (c ∷ cs) in
      let (part, rest) = fraction after in
      ground
        (arith, length-append {0} whole part, length-fraction after, length-span is_ascii_digit cs)
