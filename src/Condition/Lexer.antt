-- ===== src/Condition/Lexer.antt =====
-- `prepare` and `tokenize` of engine-core/src/condition.rs. `at` is the number of characters before
-- the current one, so a reported position is `at + 1`.
pub mod Bounds
use Prim.Native.Char.{Char, code}
use Prim.Native.String
use bpmninja.Prelude.{
  ℕ, zero, suc, ◌+◌, String, Bool, true, false, not, ◌&&◌, ◌||◌, Option, none, some, List, [], ◌∷◌,
  ◌++◌, if◌then◌else◌, leb, nat_beq, length, drop, string_eq, ◌==◌,
}
use bpmninja.Domain.Error.{ok, err, ◌>>=◌}
use bpmninja.Condition.Syntax.{
  CmpOp, TokenKind, SpannedToken, Message, SyntaxError, Parsed, Float, str, ident, true_word,
  false_word, null_word, or_op, and_op, not_op, compare_op, plus, minus, star, slash, percent,
  lparen, rparen, lbracket, rbracket, dot, eof, empty_expression, wrapper_incomplete,
  wrapper_inside, single_equals, single_ampersand, single_bar, unexpected_character, invalid_number,
  unterminated_escape, incomplete_unicode, invalid_unicode, invalid_code_point, invalid_escape,
  unterminated_string, out_of_fuel,
}
use bpmninja.Condition.Literals.{
  Unicode, chars, text, is, is_ascii_digit, Read, span, fail, read_number, read_string,
}

-- The tokens from the current one on. The last one is the end of the expression.
abbrev pub Input : Type 0 → Type 0
Input F = SpannedToken F × List (SpannedToken F)

abbrev pub is_eof : {F : Type 0} → TokenKind F → Bool
is_eof eof = true
is_eof _ = false

module _ {F : Type 0} where
  abbrev pub cons_input : SpannedToken F → Input F → Input F
  cons_input t (u, rest) = (t, u ∷ rest)

  -- The operators of two characters.
  unfoldable pub pair_op : Char → List Char → Option (TokenKind F × List Char)
  pair_op c [] = none
  pair_op c (d ∷ cs) =
      if is c b'|' && is d b'|'
      then some (or_op, cs)
      else if is c b'&' && is d b'&'
      then some (and_op, cs)
      else if is c b'=' && is d b'='
      then some (compare_op CmpOp.eq, cs)
      else if is c b'!' && is d b'='
      then some (compare_op CmpOp.ne, cs)
      else if is c b'>' && is d b'='
      then some (compare_op CmpOp.ge, cs)
      else if is c b'<' && is d b'='
      then some (compare_op CmpOp.le, cs)
      else none

  unfoldable pub single_op : Char → Option (TokenKind F)
  single_op c =
      if is c b'('
      then some lparen
      else if is c b')'
      then some rparen
      else if is c b'['
      then some lbracket
      else if is c b']'
      then some rbracket
      else if is c b'.'
      then some dot
      else if is c b'+'
      then some plus
      else if is c b'-'
      then some minus
      else if is c b'*'
      then some star
      else if is c b'/'
      then some slash
      else if is c b'%'
      then some percent
      else if is c b'>'
      then some (compare_op CmpOp.gt)
      else if is c b'<'
      then some (compare_op CmpOp.lt)
      else if is c b'!'
      then some not_op
      else none

  unfoldable pub word : String → TokenKind F
  word s =
      if s == "and"
      then and_op
      else if s == "or"
      then or_op
      else if s == "not"
      then not_op
      else if s == "true"
      then true_word
      else if s == "false"
      then false_word
      else if s == "null"
      then null_word
      else ident s

module _ (u : Unicode) where
  abbrev pub is_ident_start : Char → Bool
  is_ident_start c = u.is_alphabetic c || is c b'_'

  abbrev pub is_ident_continue : Char → Bool
  is_ident_continue c = u.is_alphanumeric c || is c b'_'

  unfoldable pub trim_end : List Char → List Char
  trim_end [] = []
  trim_end (c ∷ cs) = elim (trim_end cs) [
    | [] ↦ if u.is_whitespace c then [] else c ∷ []
    | d ∷ ds ↦ c ∷ d ∷ ds
  ]

  unfoldable pub all_whitespace : List Char → Bool
  all_whitespace [] = true
  all_whitespace (c ∷ cs) = u.is_whitespace c && all_whitespace cs

abbrev pub opens_wrapper : Char → List Char → Bool
opens_wrapper c [] = false
opens_wrapper c (d ∷ cs) = (is c b'$' || is c b'#') && is d b'{'

-- All but the last character, and the last one.
unfoldable pub split_last : Char → List Char → List Char × Char
split_last c [] = ([], c)
split_last c (d ∷ cs) = let (front, last) = split_last d cs in (c ∷ front, last)

module _ {F : Type 0} (fl : Float F) (u : Unicode) where
  -- The token at `c`, which is no white space and starts no operator of two characters.
  unfoldable pub lex_token : ℕ → Char → List Char → Parsed F (Read (TokenKind F))
  unfolding single_op word read_number read_string span
  lex_token at c cs = elim (single_op c) [
    | some kind ↦ ok (kind, at + 1, cs)
    | none ↦
        if is c b'"' || is c b'\''
        then (read_string u (length cs + 1) c at (at + 1) [] cs >>= λ (s, next, rest).
            ok (str s, next, rest))
        else if is_ascii_digit c
        then (read_number fl at (c ∷ cs) >>= λ (n, next, rest). ok (TokenKind.number n, next, rest))
        else if is c b'='
        then fail (at + 1) single_equals
        else if is c b'&'
        then fail (at + 1) single_ampersand
        else if is c b'|'
        then fail (at + 1) single_bar
        else if opens_wrapper c cs
        then fail (at + 1) wrapper_inside
        else if is_ident_start u c
        then (let (name, rest) = span (is_ident_continue u) cs in
            ok (word (text (c ∷ name)), at + 1 + length name, rest))
        else fail (at + 1) (unexpected_character (code c))
  ]

  unfoldable pub tokenize : ℕ → ℕ → List Char → Parsed F (Input F)
  unfolding pair_op lex_token
  tokenize zero at cs = fail (at + 1) out_of_fuel
  tokenize (suc fuel) at [] = ok (record { kind = eof; pos = at + 1 }, [])
  tokenize (suc fuel) at (c ∷ cs) = elim (u.is_whitespace c) [
    | true ↦ tokenize fuel (at + 1) cs
    | false ↦ elim (pair_op {F = F} c cs) [
      | some (kind, rest) ↦ tokenize fuel (at + 2) rest >>= λ input.
          ok (cons_input (record { kind = kind; pos = at + 1 }) input)
      | none ↦ lex_token at c cs >>= λ (kind, next, rest). tokenize fuel next rest >>= λ input.
          ok (cons_input (record { kind = kind; pos = at + 1 }) input)
    ]
  ]

module _ {F : Type 0} (u : Unicode) where
  unfoldable pub unwrap : ℕ → List Char → Parsed F (List Char × ℕ)
  unfolding split_last all_whitespace
  unwrap start (a ∷ b ∷ cs) =
      let (front, last) = split_last b cs in
      if (is a b'$' || is a b'#') && is b b'{'
      then (if is last b'}'
          then (if all_whitespace u (drop 1 front)
              then fail (start + 3) empty_expression
              else ok (drop 1 front, start + 2))
          else fail (start + 1) wrapper_incomplete)
      else ok (a ∷ b ∷ cs, start)
  unwrap start cs = ok (cs, start)

  -- The characters of the expression with the number of those before them. A text of white space is
  -- refused without a position, which is 0 here.
  unfoldable pub prepare : List Char → Parsed F (List Char × ℕ)
  unfolding span trim_end unwrap
  prepare cs =
      let (blank, rest) = span u.is_whitespace cs in
      if all_whitespace u cs
      then fail 0 empty_expression
      else unwrap (length blank) (trim_end u rest)
