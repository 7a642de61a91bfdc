-- ===== src/Parser/Control.antt =====
-- src/feparser/parser.c: conditions, loops, regions and unsafe blocks.
use fermi.Base.{true, false, ◌&&◌, ◌||◌, none, some, if◌then◌else◌}
use Prim.Native.String.{String}
use fermi.Token.{
  TokenType, tok_let, tok_mut, tok_if, tok_else, tok_while, tok_in, tok_ident, tok_fat_arrow,
  tok_semicolon, tok_lparen, tok_rparen, tok_lbrace, tok_rbrace,
}
use fermi.Ast.{
  AstNode, no_node, node_if, node_while, node_for_c, node_for_in, node_expr_stmt, node_region,
  node_unsafe_block,
}
use fermi.Parser.{
  Parsing, pure, ◌>>=◌, ◌>>◌, text, kind_now, nd, chk, chkp, adv, mat, err, expect,
  no_struct_lit_in,
}
use fermi.Parser.Kinds.{is}
use fermi.Parser.Calls.{Calls, nodes_until}
use fermi.Parser.Decl.{parse_var_decl}

-- An expression in which no record may stand.
unfoldable pub bare_expr : Calls → Parsing AstNode
bare_expr c = no_struct_lit_in c.expr

-- A condition in parentheses.
unfoldable pub parse_condition : Calls → String → Parsing AstNode
parse_condition c msg = do
  expect tok_lparen msg
  cond ← bare_expr c
  expect tok_rparen "expected ')'"
  pure cond

unfoldable pub parse_else : Calls → Parsing AstNode
parse_else c = do
  found ← mat tok_else
  again ← chk tok_if
  if found then (if again then c.if_stmt else c.block) else pure no_node

unfoldable pub parse_if : Calls → Parsing AstNode
parse_if c = do
  i ← nd
  adv
  cond ← parse_condition c "expected '(' after 'if'"
  body ← c.block
  els ← parse_else c
  pure (node_if i cond body els)

unfoldable pub parse_while : Calls → Parsing AstNode
parse_while c = do
  i ← nd
  adv
  cond ← parse_condition c "expected '(' after 'while'"
  body ← c.block
  pure (node_while i false cond body)

unfoldable pub parse_do_while : Calls → Parsing AstNode
parse_do_while c = do
  i ← nd
  adv
  body ← c.block
  mat tok_fat_arrow
  expect tok_while "expected 'while'"
  has_paren ← mat tok_lparen
  cond ← bare_expr c
  if has_paren then expect tok_rparen "expected ')'" else pure tt
  expect tok_semicolon "expected ';'"
  pure (node_while i true cond body)

unfoldable pub parse_for_in : Calls → Parsing AstNode
parse_for_in c = do
  i ← nd
  t ← adv
  expect tok_in "expected 'in'"
  iter ← bare_expr c
  expect tok_rparen "expected ')'"
  body ← c.block
  pure (node_for_in i (some (text t)) iter body)

unfoldable pub for_start : Calls → Parsing AstNode
for_start c = do
  t ← kind_now
  if is t tok_semicolon
      then (mat tok_semicolon >> pure no_node)
      else if is t tok_let || is t tok_mut
      then parse_var_decl c (is t tok_mut) false
      else (do
        i ← nd
        expr ← bare_expr c
        expect tok_semicolon "expected ';'"
        pure (node_expr_stmt i expr))

-- An expression unless the token is there that ends it.
unfoldable pub expr_unless : Calls → TokenType → Parsing AstNode
expr_unless c stop = do stopped ← chk stop; if stopped then pure no_node else bare_expr c

unfoldable pub parse_for_c : Calls → Parsing AstNode
parse_for_c c = do
  i ← nd
  init ← for_start c
  cond ← expr_unless c tok_semicolon
  expect tok_semicolon "expected ';'"
  step ← expr_unless c tok_rparen
  expect tok_rparen "expected ')'"
  body ← c.block
  pure (node_for_c i init cond step body)

unfoldable pub parse_for : Calls → Parsing AstNode
parse_for c = do
  adv
  opened ← mat tok_lparen
  t ← kind_now
  has_in ← chkp tok_in
  if opened
      then (if (is t tok_let || is t tok_mut || is t tok_ident) && has_in
          then parse_for_in c
          else parse_for_c c)
      else (err "expected '(' after 'for'" >> pure no_node)

-- The body is stored over the name, which is lost.
unfoldable pub parse_region : Calls → Parsing AstNode
parse_region c = do
  i ← nd
  adv
  named ← mat tok_ident
  if named
      then (do
        expect tok_lbrace "expected '{'"
        body ← nodes_until tok_rbrace c.stmt
        expect tok_rbrace "expected '}'"
        pure (node_region i body none))
      else (err "expected region name" >> pure no_node)

unfoldable pub parse_unsafe : Calls → Parsing AstNode
parse_unsafe c = do i ← nd; adv; body ← c.block; pure (node_unsafe_block i body)
