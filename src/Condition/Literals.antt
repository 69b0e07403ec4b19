-- ===== src/Condition/Literals.antt =====
-- Characters, and `read_number` and `read_string` of engine-core/src/condition.rs. `at` is the number
-- of characters before the current one, so a reported position is `at + 1`.
pub mod Bounds
use Prim.Native.Char.{Char, code}
use Prim.Native.String
use bpmninja.Prelude.{
  ℕ, zero, suc, ◌+◌, String, Bool, true, false, not, ◌&&◌, ◌||◌, Option, none, some, List, [], ◌∷◌,
  ◌++◌, if◌then◌else◌, leb, nat_beq, length, drop, string_eq, ◌==◌,
}
use bpmninja.Domain.Error.{ok, err, ◌>>=◌}
use bpmninja.Condition.Syntax.{
  CmpOp, TokenKind, SpannedToken, Message, SyntaxError, Parsed, Float, str, ident, true_word,
  false_word, null_word, or_op, and_op, not_op, compare_op, plus, minus, star, slash, percent,
  lparen, rparen, lbracket, rbracket, dot, eof, empty_expression, wrapper_incomplete,
  wrapper_inside, single_equals, single_ampersand, single_bar, unexpected_character, invalid_number,
  unterminated_escape, incomplete_unicode, invalid_unicode, invalid_code_point, invalid_escape,
  unterminated_string, out_of_fuel,
}

-- What the code uses of `char` and `u32`: `from_hex` is `u32::from_str_radix(_, 16)`.
pub record Unicode : Type 0 where
  pub is_whitespace : Char → Bool
  pub is_alphabetic : Char → Bool
  pub is_alphanumeric : Char → Bool
  pub from_hex : List Char → Option ℕ
  pub from_u32 : ℕ → Option Char

abbrev pub chars : String → List Char
chars String.[] = []
chars (String.◌∷◌ c s) = c ∷ chars s

abbrev pub text : List Char → String
text [] = String.[]
text (c ∷ cs) = String.◌∷◌ c (text cs)

abbrev pub is : Char → ℕ → Bool
is c n = nat_beq (code c) n

abbrev pub is_ascii_digit : Char → Bool
is_ascii_digit c = leb b'0' (code c) && leb (code c) b'9'

-- What is read, the number of characters before the rest, and the rest.
abbrev pub Read : Type 0 → Type 0
Read A = A × ℕ × List Char

-- The longest prefix that passes the test.
unfoldable pub span : (Char → Bool) → List Char → List Char × List Char
span p [] = ([], [])
span p (c ∷ cs) = let (taken, rest) = span p cs in if p c then (c ∷ taken, rest) else ([], c ∷ cs)

abbrev pub fail : {F : Type 0} {A : Type 0} → ℕ → Message F → Parsed F A
fail pos message = err (record { pos = pos; message = message })

-- The escapes of one character.
unfoldable pub simple_escape : Char → Option Char
simple_escape c =
    if is c b'n'
    then some "\n"
    else if is c b'r'
    then some "\r"
    else if is c b't'
    then some "\t"
    else if is c b'0'
    then some "\0"
    else if is c b'\\' || is c b'\'' || is c b'"' || is c b'/'
    then some c
    else none

-- `.` and at least one digit
unfoldable pub fraction : List Char → List Char × List Char
unfolding span
fraction (c ∷ d ∷ cs) =
    let (taken, rest) = span is_ascii_digit (d ∷ cs) in
    if is c b'.' && is_ascii_digit d then (c ∷ taken, rest) else ([], c ∷ d ∷ cs)
fraction cs = ([], cs)

module _ {F : Type 0} (fl : Float F) where
  unfoldable pub read_number : ℕ → List Char → Parsed F (Read F)
  unfolding fraction
  read_number at cs =
      let (whole, after) = span is_ascii_digit cs in
      let (part, rest) = fraction after in
      elim (fl.parse (text (whole ++ part))) [
        | none ↦ fail (at + 1) invalid_number
        | some value ↦ ok (value, at + length (whole ++ part), rest)
      ]

module _ {F : Type 0} (u : Unicode) where
  unfoldable pub unicode_escape : ℕ → List Char → Parsed F Char
  unicode_escape at hex = elim (u.from_hex hex) [
    | none ↦ fail (at + 1) invalid_unicode
    | some n ↦ elim (u.from_u32 n) [ none ↦ fail (at + 1) invalid_code_point | some c ↦ ok c ]
  ]

  unfoldable pub hex_escape : ℕ → List Char → Parsed F (Read Char)
  unfolding unicode_escape
  hex_escape at (a ∷ b ∷ c ∷ d ∷ cs) =
      unicode_escape at (a ∷ b ∷ c ∷ d ∷ []) >>= λ decoded. ok (decoded, at + 6, cs)
  hex_escape at cs = fail (at + 1) incomplete_unicode

  -- What follows a backslash.
  unfoldable pub escape : ℕ → List Char → Parsed F (Read Char)
  unfolding simple_escape hex_escape
  escape at [] = fail (at + 1) unterminated_escape
  escape at (escaped ∷ cs) = elim (simple_escape escaped) [
    | some c ↦ ok (c, at + 2, cs)
    | none ↦ if is escaped b'u' then hex_escape at cs else fail (at + 1) invalid_escape
  ]

  -- `start` is where the literal begins, and `at` where `cs` does.
  unfoldable pub read_string :
      ℕ → (quote : Char) (start at : ℕ) (out cs : List Char) → Parsed F (Read String)
  unfolding escape
  read_string zero quote start at out cs = fail (start + 1) out_of_fuel
  read_string (suc fuel) quote start at out [] = fail (start + 1) unterminated_string
  read_string (suc fuel) quote start at out (c ∷ cs) = elim (is c (code quote)) [
    | true ↦ ok (text out, at + 1, cs)
    | false ↦ elim (is c b'\\') [
      | false ↦ read_string fuel quote start (at + 1) (out ++ c ∷ []) cs
      | true ↦ escape at cs >>= λ (decoded, next, rest).
          read_string fuel quote start next (out ++ decoded ∷ []) rest
    ]
  ]
