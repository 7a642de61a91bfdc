-- ===== src/Parser/Types.antt =====
-- src/feparser/parser.c, `parse_type`, and the skipping of bracketed tokens.
pub mod Ends
use fermi.Base.{ℕ, zero, suc, ◌*◌, ◌-◌, ◌^◌, ◌%◌, ◌||◌, Option, none, some, if◌then◌else◌, ltb}
use fermi.Base.Int.{ℤ, pos, negsuc, to_word}
use fermi.Base.Text.{Bytes}
use fermi.Token.{
  TokenType, tok_int_lit, tok_byte, tok_short, tok_ushort, tok_int, tok_uint, tok_long, tok_ulong,
  tok_float, tok_double, tok_bool, tok_str, tok_char, tok_fn, tok_unit, tok_ident, tok_star,
  tok_amp, tok_lt, tok_gt, tok_arrow, tok_colon, tok_semicolon, tok_comma, tok_lparen, tok_rparen,
  tok_lbracket, tok_rbracket, tok_eof,
}
use fermi.Ast.{
  TypeKind, TypeNode, ty_void, ty_bool, ty_byte, ty_short, ty_ushort, ty_int, ty_uint, ty_long,
  ty_ulong, ty_float, ty_double, ty_char, ty_str, ty_ref, ty_raw_ptr, ty_array_fixed, ty_array_dyn,
  ty_named, ty_unknown, ty_fn_ptr, no_type, type_node,
}
use fermi.Parser.{
  Parsing, pure, ◌>>=◌, ◌>>◌, text, current, kind_now, chk, adv, mat, expect, rounds,
}
use fermi.Parser.Kinds.{is}

-- `strtoll(s, NULL, base)`, which the parser calls; `strtol` is the same on 64 bits.
abbrev pub Strtoll : Type 0
Strtoll = Bytes → ℕ → ℤ

-- `(int)v`
abbrev pub to_int : ℤ → ℤ
to_int v = let w = to_word v % 2 ^ 32 in if ltb w (2 ^ 31) then pos w else negsuc (2 ^ 32 - 1 - w)

abbrev pub plain_type : TypeKind → TypeNode
plain_type k = type_node k no_type (pos 0) none

-- The keywords that are a type.
unfoldable pub type_keyword : TokenType → Option TypeKind
type_keyword tok_bool = some ty_bool
type_keyword tok_byte = some ty_byte
type_keyword tok_short = some ty_short
type_keyword tok_ushort = some ty_ushort
type_keyword tok_int = some ty_int
type_keyword tok_uint = some ty_uint
type_keyword tok_long = some ty_long
type_keyword tok_ulong = some ty_ulong
type_keyword tok_float = some ty_float
type_keyword tok_double = some ty_double
type_keyword tok_char = some ty_char
type_keyword tok_str = some ty_str
type_keyword tok_unit = some ty_void
type_keyword _ = none

-- `while(!chk(p,TOK_EOF)&&depth>0){ ... adv(p); }`
unfoldable pub skip_nested : TokenType → TokenType → ℕ → ℕ → Parsing Unit
skip_nested opening closing fuel zero = pure tt
skip_nested opening closing zero (suc depth) = λ p. none
skip_nested opening closing (suc fuel) (suc depth) = do
  t ← kind_now
  if is t tok_eof
      then pure tt
      else if is t opening
      then adv >> skip_nested opening closing fuel (suc (suc depth))
      else if is t closing
      then adv >> skip_nested opening closing fuel depth
      else adv >> skip_nested opening closing fuel (suc depth)

unfoldable pub parse_named_type : Parsing TypeNode
unfolding chk skip_nested
parse_named_type = do
  t ← adv
  generic ← chk tok_lt
  if generic then adv >> (λ p. skip_nested tok_lt tok_gt (rounds p) 1 p) else pure tt
  pure (type_node ty_named no_type (pos 0) (some (text t)))

-- The tests from TOK_BOOL on.
unfoldable pub parse_simple_type : Parsing TypeNode
unfolding parse_named_type
parse_simple_type = do
  t ← kind_now
  elim (type_keyword t) [
    | some k ↦ adv >> pure (plain_type k)
    | none ↦ if is t tok_ident then parse_named_type else pure (plain_type ty_unknown)
  ]

-- The length of an array: TOK_INT_LIT is taken, anything else is read and left.
unfoldable pub parse_array_size : Strtoll → Parsing ℤ
unfolding chk
parse_array_size strtoll = do
  t ← current
  number ← chk tok_int_lit
  if number then adv >> pure tt else pure tt
  pure (to_int (strtoll (text t) 10))

unfoldable mutual
  unfolding parse_simple_type parse_array_size chk mat expect

  -- Fuel for the types within.
  pub type_within : Strtoll → ℕ → Parsing TypeNode
  type_within strtoll zero = λ p. none
  type_within strtoll (suc fuel) = do
    t ← kind_now
    if is t tok_amp
        then adv
          >> (type_within strtoll fuel >>= λ inner. pure (type_node ty_ref inner (pos 0) none))
        else if is t tok_star
        then adv
          >> (type_within strtoll fuel >>= λ inner. pure (type_node ty_raw_ptr inner (pos 0) none))
        else if is t tok_lbracket
        then adv >> array_within strtoll fuel
        else if is t tok_fn
        then adv >> fn_ptr_within strtoll fuel
        else parse_simple_type

  array_within : Strtoll → ℕ → Parsing TypeNode
  array_within strtoll zero = λ p. none
  array_within strtoll (suc fuel) = do
    closed ← chk tok_rbracket
    n ← if closed then pure (plain_type ty_array_dyn) else do
      inner ← type_within strtoll fuel
      sized ← mat tok_semicolon
      if sized
          then (parse_array_size strtoll >>= λ size.
              pure (type_node ty_array_fixed inner size none))
          else pure (type_node ty_array_dyn inner (pos 0) none)
    expect tok_rbracket "expected ']'"
    pure n

  -- The types of parameters are read and dropped.
  fn_ptr_within : Strtoll → ℕ → Parsing TypeNode
  fn_ptr_within strtoll zero = λ p. none
  fn_ptr_within strtoll (suc fuel) = do
    has_params ← mat tok_lparen
    if has_params then types_within strtoll fuel >> expect tok_rparen "expected ')'" else pure tt
    t ← kind_now
    if is t tok_colon || is t tok_arrow
        then adv
          >> (type_within strtoll fuel >>= λ inner. pure (type_node ty_fn_ptr inner (pos 0) none))
        else pure (plain_type ty_fn_ptr)

  types_within : Strtoll → ℕ → Parsing Unit
  types_within strtoll zero = λ p. none
  types_within strtoll (suc fuel) = do
    t ← kind_now
    if is t tok_rparen || is t tok_eof then pure tt else do
      type_within strtoll fuel
      more ← mat tok_comma
      if more then types_within strtoll fuel else pure tt

-- A token that is taken opens at most three calls.
unfoldable pub parse_type : Strtoll → Parsing TypeNode
parse_type strtoll p = type_within strtoll (rounds p * 3) p
