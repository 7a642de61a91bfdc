-- ===== src/Parser/Match.antt =====
-- src/feparser/parser.c, `parse_match_arm` and `parse_match`.
use fermi.Base.{◌-◌, ◌+◌, ◌%◌, Bool, true, false, ◌||◌, Option, none, some, if◌then◌else◌, get_or}
use fermi.Base.Int.{ℤ, pos, to_word, of_word, word64}
use fermi.Base.Text.{Bytes, codes, str_eq}
use fermi.Token.{
  TokenType, tok_int_lit, tok_long_lit, tok_string_lit, tok_char_lit, tok_bool_lit, tok_ident,
  tok_fat_arrow, tok_comma, tok_range, tok_range_eq, tok_lparen, tok_rparen, tok_lbrace, tok_rbrace,
}
use fermi.Ast.{ArmHead, AstNode, node_match, node_match_arm}
use fermi.Parser.{Parsing, pure, ◌>>=◌, ◌>>◌, text, current, nd, chk, adv, mat, expect}
use fermi.Parser.Kinds.{is}
use fermi.Parser.Calls.{Calls, nodes_until}
use fermi.Parser.Control.{parse_condition}

abbrev pub blank_arm : ArmHead
blank_arm = record {
  is_wildcard = false;
  is_range = false;
  is_variant = false;
  is_string = false;
  variant_name = none;
  bind_name = none;
  str_val = none;
  lit_lo = pos 0;
  lit_hi = pos 0;
}

unfoldable pub variant_binding : Parsing (Option Bytes)
variant_binding = do
  opened ← mat tok_lparen
  t ← current
  if opened
      then (do
        named ← mat tok_ident
        expect tok_rparen "expected ')'"
        pure (if named then some (text t) else none))
      else pure none

unfoldable pub variant_pattern : Parsing ArmHead
variant_pattern = do
  t ← adv
  bind_name ← variant_binding
  pure (record blank_arm { is_variant = true; variant_name = some (text t); bind_name = bind_name })

-- `hi-1` on `long long`.
abbrev pub one_less : ℤ → ℤ
one_less v = of_word ((to_word v + (word64 - 1)) % word64)

-- The lower bound: the number that is read, or the code of a character.
unfoldable pub lower_bound : Calls → Parsing ℤ
lower_bound c = do
  t ← current
  elim t.type [
    | tok_int_lit ↦ adv >> pure (c.strtoll (text t) 0)
    | tok_long_lit ↦ adv >> pure (c.strtoll (text t) 0)
    | tok_char_lit ↦ adv >> pure (pos (get_or (text t) 0 0))
    | _ ↦ pure (c.strtoll (text t) 0)
  ]

unfoldable pub upper_bound : Calls → Parsing ℤ
upper_bound c = do
  t ← current
  if is t.type tok_int_lit || is t.type tok_long_lit then adv >> pure tt else pure tt
  pure (c.strtoll (text t) 0)

unfoldable pub literal_pattern : Calls → Parsing ArmHead
literal_pattern c = do
  lo ← lower_bound c
  incl ← chk tok_range_eq
  excl ← chk tok_range
  if incl || excl
      then (do
        adv
        hi ← upper_bound c
        pure (record blank_arm {
          is_range = true;
          lit_lo = lo;
          lit_hi = if incl then hi else one_less hi;
        }))
      else pure (record blank_arm { lit_lo = lo; lit_hi = lo })

abbrev pub bool_bound : Bytes → ℤ
bool_bound s = if str_eq s (codes "true") then pos 1 else pos 0

-- What may stand behind the name of a variant.
unfoldable pub follows_variant : TokenType → Bool
follows_variant tok_lparen = true
follows_variant tok_fat_arrow = true
follows_variant tok_comma = true
follows_variant _ = false

unfoldable pub parse_pattern : Calls → Parsing ArmHead
parse_pattern c = do
  t ← current
  next ← (λ p. some (p.peek.type, p))
  elim t.type [
    | tok_ident ↦
        if str_eq (text t) (codes "_")
        then (adv >> pure (record blank_arm { is_wildcard = true }))
        else if follows_variant next
        then variant_pattern
        else literal_pattern c
    | tok_string_lit ↦ adv >> pure (record blank_arm { is_string = true; str_val = some (text t) })
    | tok_bool_lit ↦
        adv
        >> pure (record blank_arm { lit_lo = bool_bound (text t); lit_hi = bool_bound (text t) })
    | _ ↦ literal_pattern c
  ]

unfoldable pub parse_match_arm : Calls → Parsing AstNode
parse_match_arm c = do
  i ← nd
  a ← parse_pattern c
  expect tok_fat_arrow "expected '=>'"
  braced ← chk tok_lbrace
  body ← if braced then c.block else c.stmt
  mat tok_comma
  pure (node_match_arm i a body)

-- An arm is never null.
unfoldable pub parse_match : Calls → Parsing AstNode
parse_match c = do
  i ← nd
  adv
  expr ← parse_condition c "expected '(' after 'match'"
  expect tok_lbrace "expected '{'"
  arms ← nodes_until tok_rbrace (parse_match_arm c)
  expect tok_rbrace "expected '}'"
  pure (node_match i expr arms)
