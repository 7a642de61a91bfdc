-- ===== src/Parser/Primary.antt =====
-- src/feparser/parser.c, `parse_primary`.
use fermi.Base.{ℕ, zero, suc, ◌||◌, Option, none, some, if◌then◌else◌, get_or}
use fermi.Base.Text.{codes, str_eq}
use fermi.Token.{
  tok_int_lit, tok_float_lit, tok_double_lit, tok_long_lit, tok_string_lit, tok_char_lit,
  tok_bool_lit, tok_this, tok_null, tok_at, tok_ident, tok_star, tok_amp, tok_pipe, tok_arrow,
  tok_colon, tok_comma, tok_lparen, tok_rparen, tok_lbrace, tok_rbrace, tok_lbracket, tok_rbracket,
  tok_interp_start, tok_eof,
}
use fermi.Ast.{
  TypeNode, NodeInfo, AstNode, AstList, append_node, ty_bool, ty_int, ty_long, ty_float, ty_double,
  ty_char, ty_raw_ptr, ty_array_dyn, no_node, node_var_decl, node_int_lit, node_float_lit,
  node_double_lit, node_long_lit, node_bool_lit, node_char_lit, node_array_lit, node_ref,
  node_deref, node_this, node_interp_str, node_lambda, node_null, nil,
}
use fermi.Parser.{
  Parsing, pure, ◌>>=◌, ◌>>◌, text, current, kind_now, nd, with_kind, chk, adv, mat, err, expect,
  rounds,
}
use fermi.Parser.Kinds.{is}
use fermi.Parser.Types.{parse_type}
use fermi.Parser.Calls.{Calls, items_until, found_until}
use fermi.Parser.Named.{zero_lit, take_token, var_head, type_after, parse_at_call, parse_ident}
use fermi.Parser.Interp.{parse_string}

unfoldable pub parse_array_lit : Calls → Parsing AstNode
parse_array_lit c = do
  i ← nd
  adv
  elems ← items_until tok_rbracket c.expr
  expect tok_rbracket "expected ']'"
  pure (node_array_lit (with_kind ty_array_dyn i) elems)

unfoldable pub lambda_param : Calls → Parsing (Option AstNode)
lambda_param c = do
  i ← nd
  t ← current
  if is t.type tok_ident
      then (do
        adv
        type ← type_after c tok_colon
        pure (some (node_var_decl i (var_head (text t) type) no_node)))
      else (err "expected identifier as parameter name" >> pure none)

unfoldable pub lambda_type : Calls → Parsing TypeNode
lambda_type c = do
  arrow ← mat tok_arrow
  if arrow then parse_type c.strtoll else type_after c tok_colon

unfoldable pub parse_lambda : Calls → Parsing AstNode
parse_lambda c = do
  i ← nd
  adv
  params ← found_until tok_pipe (lambda_param c)
  mat tok_pipe
  ret_type ← lambda_type c
  braced ← chk tok_lbrace
  body ← if braced then c.block else c.expr
  pure (node_lambda i params ret_type body)

unfoldable pub parse_paren : Calls → Parsing AstNode
parse_paren c = do adv; n ← c.expr; expect tok_rparen "expected ')'"; pure n

-- An operator in front of an operand.
unfoldable pub prefixed : Calls → (NodeInfo → AstNode → AstNode) → Parsing AstNode
prefixed c make = do i ← nd; adv; operand ← c.unary; pure (make i operand)

-- The commas between the parts may be missing.
unfoldable pub interp_parts : Calls → ℕ → AstList → Parsing AstList
interp_parts c zero head = λ p. none
interp_parts c (suc fuel) head = do
  t ← kind_now
  if is t tok_rbrace || is t tok_eof
      then pure head
      else (do part ← c.expr; mat tok_comma; interp_parts c fuel (append_node head part))

unfoldable pub parse_interp : Calls → Parsing AstNode
parse_interp c = do
  i ← nd
  adv
  parts ← (λ p. interp_parts c (rounds p) nil p)
  mat tok_rbrace
  pure (node_interp_str i parts)

unfoldable pub primary_error : Parsing AstNode
primary_error = do err "unexpected token in expression context"; adv; zero_lit

unfoldable pub parse_primary : Calls → Parsing AstNode
parse_primary c = do
  t ← current
  elim t.type [
    | tok_int_lit ↦ take_token (λ i. node_int_lit (with_kind ty_int i) (c.strtoll (text t) 0))
    | tok_long_lit ↦ take_token (λ i. node_long_lit (with_kind ty_long i) (c.strtoll (text t) 0))
    | tok_float_lit ↦ take_token (λ i. node_float_lit (with_kind ty_float i) (text t))
    | tok_double_lit ↦ take_token (λ i. node_double_lit (with_kind ty_double i) (text t))
    | tok_null ↦ take_token (λ i. node_null (with_kind ty_raw_ptr i))
    | tok_bool_lit ↦
        take_token (λ i. node_bool_lit (with_kind ty_bool i) (str_eq (text t) (codes "true")))
    | tok_string_lit ↦ parse_string c (text t)
    | tok_char_lit ↦ take_token (λ i. node_char_lit (with_kind ty_char i) (get_or (text t) 0 0))
    | tok_this ↦ take_token node_this
    | tok_lbracket ↦ parse_array_lit c
    | tok_pipe ↦ parse_lambda c
    | tok_at ↦ parse_at_call c
    | tok_ident ↦ parse_ident c
    | tok_lparen ↦ parse_paren c
    | tok_amp ↦ prefixed c node_ref
    | tok_star ↦ prefixed c node_deref
    | tok_interp_start ↦ parse_interp c
    | _ ↦ primary_error
  ]
