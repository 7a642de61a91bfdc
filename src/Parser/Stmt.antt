-- ===== src/Parser/Stmt.antt =====
-- src/feparser/parser.c, `parse_stmt` and `parse_block`.
use fermi.Base.{true, false, ◌||◌, some, if◌then◌else◌}
use fermi.Token.{
  tok_let, tok_mut, tok_const, tok_fn, tok_unit, tok_return, tok_if, tok_while, tok_do, tok_for,
  tok_match, tok_enum, tok_region, tok_break, tok_continue, tok_defer, tok_external, tok_unsafe,
  tok_comptime, tok_ident, tok_assign, tok_colon, tok_semicolon, tok_lbrace, tok_rbrace,
}
use fermi.Ast.{
  NodeInfo, AstNode, no_node, node_block, node_return, node_break, node_continue, node_defer,
  node_expr_stmt, node_comptime_let,
}
use fermi.Parser.{
  Parsing, pure, ◌>>=◌, ◌>>◌, text, current, kind_now, nd, chk, adv, mat, err, expect,
}
use fermi.Parser.Kinds.{is}
use fermi.Parser.Types.{parse_type}
use fermi.Parser.Calls.{Calls, nodes_until}
use fermi.Parser.Decl.{parse_var_decl, parse_enum_decl, parse_fn_decl}
use fermi.Parser.Control.{
  parse_if, parse_while, parse_do_while, parse_for, parse_region, parse_unsafe,
}
use fermi.Parser.Match.{parse_match}

-- Behind `external`.
unfoldable pub parse_external : Calls → Parsing AstNode
parse_external c = do
  adv
  t ← kind_now
  if is t tok_fn || is t tok_unit
      then parse_fn_decl c (is t tok_unit) true false
      else (err "expected 'fn' or 'unit' after 'external'" >> pure no_node)

unfoldable pub parse_return : Calls → Parsing AstNode
parse_return c = do
  i ← nd
  adv
  ended ← chk tok_semicolon
  val ← if ended then pure no_node else c.expr
  expect tok_semicolon "expected ';'"
  pure (node_return i val)

unfoldable pub parse_defer : Calls → Parsing AstNode
parse_defer c = do i ← nd; adv; expr ← c.stmt; pure (node_defer i expr)

-- `break` and `continue`
unfoldable pub parse_jump : (NodeInfo → AstNode) → Parsing AstNode
parse_jump make = do i ← nd; adv; expect tok_semicolon "expected ';'"; pure (make i)

-- The type of the binding is read and dropped.
unfoldable pub comptime_binding : Calls → Parsing AstNode
comptime_binding c = do
  i ← nd
  t ← current
  if is t.type tok_ident
      then (do
        adv
        typed ← mat tok_colon
        if typed then parse_type c.strtoll >> pure tt else pure tt
        expect tok_assign "expected '='"
        init ← c.expr
        expect tok_semicolon "expected ';'"
        pure (node_comptime_let i (some (text t)) init))
      else (err "expected identifier as binding name" >> pure no_node)

unfoldable pub parse_comptime : Calls → Parsing AstNode
parse_comptime c = do
  adv
  found ← mat tok_let
  if found then comptime_binding c else (err "expected 'let' after 'comptime'" >> pure no_node)

unfoldable pub parse_expr_stmt : Calls → Parsing AstNode
parse_expr_stmt c = do
  i ← nd
  expr ← c.expr
  expect tok_semicolon "expected ';'"
  pure (node_expr_stmt i expr)

unfoldable pub parse_stmt : Calls → Parsing AstNode
parse_stmt c = do
  t ← kind_now
  elim t [
    | tok_let ↦ parse_var_decl c false false
    | tok_mut ↦ parse_var_decl c true false
    | tok_const ↦ parse_var_decl c false true
    | tok_fn ↦ parse_fn_decl c false false false
    | tok_unit ↦ parse_fn_decl c true false false
    | tok_unsafe ↦ parse_unsafe c
    | tok_external ↦ parse_external c
    | tok_if ↦ parse_if c
    | tok_while ↦ parse_while c
    | tok_do ↦ parse_do_while c
    | tok_for ↦ parse_for c
    | tok_match ↦ parse_match c
    | tok_return ↦ parse_return c
    | tok_enum ↦ parse_enum_decl c
    | tok_lbrace ↦ c.block
    | tok_region ↦ parse_region c
    | tok_defer ↦ parse_defer c
    | tok_break ↦ parse_jump node_break
    | tok_continue ↦ parse_jump node_continue
    | tok_comptime ↦ parse_comptime c
    | _ ↦ parse_expr_stmt c
  ]

unfoldable pub parse_block : Calls → Parsing AstNode
parse_block c = do
  i ← nd
  expect tok_lbrace "expected '{'"
  stmts ← nodes_until tok_rbrace c.stmt
  expect tok_rbrace "expected '}'"
  pure (node_block i stmts)
