-- ===== src/Parser/Named.antt =====
-- src/feparser/parser.c, `parse_primary`: intrinsics and what begins with a name.
use fermi.Base.{Bool, false, ◌&&◌, ◌||◌, ◌++◌, Option, none, some, if◌then◌else◌, ◌==◌, take}
use fermi.Base.Int.{pos}
use fermi.Base.Text.{Bytes, codes, str_eq}
use fermi.Token.{
  TokenType, tok_ident, tok_colon, tok_double_colon, tok_semicolon, tok_lparen, tok_rparen,
  tok_lbrace, tok_rbrace, tok_eof,
}
use fermi.Ast.{
  TypeNode, NodeInfo, VarHead, AstNode, ty_int, no_type, node_assign, node_ident, node_int_lit,
  node_struct_init, node_ns_call, node_at_call, nil,
}
use fermi.Parser.{
  Parsing, pure, ◌>>=◌, ◌>>◌, text, current, nd, with_kind, chk, chkp, adv, mat, err, expect,
}
use fermi.Parser.Kinds.{is}
use fermi.Parser.Types.{parse_type}
use fermi.Parser.Calls.{Calls, items_until, found_until}

-- The literal 0, which stands for an expression that cannot be read.
unfoldable pub zero_lit : Parsing AstNode
zero_lit = do i ← nd; pure (node_int_lit (with_kind ty_int i) (pos 0))

-- A node that the current token is the whole of.
unfoldable pub take_token : (NodeInfo → AstNode) → Parsing AstNode
take_token make = do i ← nd; adv; pure (make i)

abbrev pub var_head : Bytes → TypeNode → VarHead
var_head name type = record {
  name = some name;
  type = type;
  is_mut = false;
  is_const = false;
  is_exported = false;
}

-- `if(mat(p,t))type=parse_type(p);`
unfoldable pub type_after : Calls → TokenType → Parsing TypeNode
type_after c t = do found ← mat t; if found then parse_type c.strtoll else pure no_type

abbrev pub takes_type : Bytes → Bool
takes_type name =
    str_eq name (codes "sizeof") || str_eq name (codes "alignof") || str_eq name (codes "typeof")

-- The argument of an intrinsic that takes a type.
unfoldable pub type_argument : Calls → Parsing TypeNode
type_argument c = do closed ← chk tok_rparen; if closed then pure no_type else parse_type c.strtoll

unfoldable pub at_call_args : Calls → NodeInfo → Bytes → Parsing AstNode
at_call_args c i name =
    if takes_type name
    then (do type_arg ← type_argument c; pure (node_at_call i name nil type_arg))
    else (do args ← items_until tok_rparen c.expr; pure (node_at_call i name args no_type))

unfoldable pub parse_at_call : Calls → Parsing AstNode
parse_at_call c = do
  adv
  t ← current
  if is t.type tok_ident
      then (do
        i ← nd
        adv
        expect tok_lparen "expected '(' after intrinsic identifier"
        n ← at_call_args c i (text t)
        expect tok_rparen "expected ')'"
        pure n)
      else (err "expected identifier as intrinsic name after '@'" >> zero_lit)

-- `snprintf` into 256 bytes.
abbrev pub scoped_name : Bytes → Bytes → Bytes
scoped_name ns func = take 255 (ns ++ codes "::" ++ func)

unfoldable pub parse_ns_member : Calls → Bytes → Bytes → Parsing AstNode
parse_ns_member c ns func = do
  i ← nd
  call ← mat tok_lparen
  if call
      then (do
        args ← items_until tok_rparen c.expr
        expect tok_rparen "expected ')'"
        pure (node_ns_call i ns func args))
      else pure (node_ident i (scoped_name ns func))

unfoldable pub parse_ns : Calls → Parsing AstNode
parse_ns c = do
  ns ← adv
  adv
  t ← current
  if is t.type tok_eof || is t.type tok_semicolon
      then (err "expected identifier after '::'" >> zero_lit)
      else (adv >> parse_ns_member c (text ns) (text t))

unfoldable pub field_init : Calls → Parsing (Option AstNode)
field_init c = do
  i ← nd
  t ← current
  if is t.type tok_ident
      then (do
        adv
        expect tok_colon "expected ':'"
        right ← c.expr
        pure (some (node_assign i (node_ident i (text t)) right)))
      else (err "expected identifier as field name" >> pure none)

unfoldable pub parse_struct_init : Calls → Parsing AstNode
parse_struct_init c = do
  i ← nd
  t ← adv
  expect tok_lbrace "expected '{'"
  fields ← found_until tok_rbrace (field_init c)
  expect tok_rbrace "expected '}'"
  pure (node_struct_init i (text t) fields)

-- An identifier: a name in a namespace, a record where one may stand, or a plain name.
unfoldable pub parse_ident : Calls → Parsing AstNode
parse_ident c = do
  t ← current
  scope ← chkp tok_double_colon
  brace ← chkp tok_lbrace
  free ← (λ p. some (p.no_struct_lit == 0, p))
  if scope
      then parse_ns c
      else if brace && free
      then parse_struct_init c
      else take_token (λ i. node_ident i (text t))
