-- ===== src/Condition/Syntax.antt =====
-- The types of engine-core/src/condition.rs. `F` stands for `f64` and `V` for `serde_json::Value`.
use bpmninja.Prelude.{ℕ, String, Bool, Option, List, Map}
use bpmninja.Domain.Error.{Result}

pub data CmpOp : Type 0 where
  eq ne gt lt ge le : CmpOp

pub data ArithOp : Type 0 where
  add sub mul div rem : ArithOp

pub data PathSegment : Type 0 where
  field : String → PathSegment
  index : ℕ → PathSegment

pub data EvalValue (F V : Type 0) : Type 0 where
  undefined : EvalValue F V
  null : EvalValue F V
  bool : Bool → EvalValue F V
  number : F → EvalValue F V
  string : String → EvalValue F V
  json : V → EvalValue F V

pub data Expr (F V : Type 0) : Type 0 where
  literal : EvalValue F V → Expr F V
  path : List PathSegment → Expr F V
  not : Expr F V → Expr F V
  neg : Expr F V → Expr F V
  and : Expr F V → Expr F V → Expr F V
  or : Expr F V → Expr F V → Expr F V
  compare : CmpOp → Expr F V → Expr F V → Expr F V
  arith : ArithOp → Expr F V → Expr F V → Expr F V

pub data TokenKind (F : Type 0) : Type 0 where
  number : F → TokenKind F
  str : String → TokenKind F
  ident : String → TokenKind F
  true_word false_word null_word : TokenKind F
  or_op and_op not_op : TokenKind F
  compare_op : CmpOp → TokenKind F
  plus minus star slash percent : TokenKind F
  lparen rparen lbracket rbracket dot eof : TokenKind F

-- `pos` counts the characters of the whole text from 1.
pub record SpannedToken (F : Type 0) : Type 0 where
  pub kind : TokenKind F
  pub pos : ℕ

-- The texts of the errors. `out_of_fuel` belongs to the model alone.
pub data Message (F : Type 0) : Type 0 where
  empty_expression wrapper_incomplete wrapper_inside : Message F
  single_equals single_ampersand single_bar : Message F
  unexpected_character : ℕ → Message F
  invalid_number unterminated_escape incomplete_unicode invalid_unicode : Message F
  invalid_code_point invalid_escape unterminated_string : Message F
  unexpected_token : TokenKind F → Message F
  expected_rparen unexpected_end : Message F
  expected_field expected_index bad_index expected_rbracket : Message F
  out_of_fuel : Message F

pub record SyntaxError (F : Type 0) : Type 0 where
  pub pos : ℕ
  pub message : Message F

abbrev pub Parsed : Type 0 → Type 0 → Type 0
Parsed F A = Result (SyntaxError F) A

-- What the code uses of `f64`. `as_index` is none for a value that is negative, has a fraction or is
-- above `usize::MAX`, and otherwise the value as a `usize`.
pub data FloatOrdering : Type 0 where
  less equal greater : FloatOrdering

pub record Float (F : Type 0) : Type 0 where
  pub parse : String → Option F
  pub neg : F → F
  pub op : ArithOp → F → F → F
  pub is_zero : F → Bool
  pub within_epsilon : F → F → Bool
  pub partial_cmp : F → F → Option FloatOrdering
  pub as_index : F → Option ℕ

-- What a `serde_json::Value` holds; a number that is no `f64` is `big`.
pub data JsonShape (F V : Type 0) : Type 0 where
  null : JsonShape F V
  bool : Bool → JsonShape F V
  number : F → JsonShape F V
  big : JsonShape F V
  string : String → JsonShape F V
  array : List V → JsonShape F V
  object : Map String V → JsonShape F V

pub record JsonView (F V : Type 0) : Type 0 where
  pub shape : V → JsonShape F V
  pub same : V → V → Bool
