-- ===== src/Parser/Decl.antt =====
-- src/feparser/parser.c: declarations of variables, enumerations, parameters, functions and classes.
use fermi.Base.{ℕ, zero, suc, Bool, true, false, ◌||◌, Option, none, some, if◌then◌else◌}
use fermi.Base.Text.{Bytes}
use fermi.Token.{
  TokenType, tok_byte, tok_short, tok_ushort, tok_int, tok_uint, tok_long, tok_ulong, tok_float,
  tok_double, tok_bool, tok_str, tok_char, tok_let, tok_mut, tok_fn, tok_unit, tok_new, tok_ident,
  tok_assign, tok_arrow, tok_colon, tok_semicolon, tok_comma, tok_lparen, tok_rparen, tok_lbrace,
  tok_rbrace, tok_eof,
}
use fermi.Ast.{
  TypeNode, VarHead, AstNode, AstList, append_node, no_type, no_node, node_fn_decl, node_enum_decl,
  node_var_decl, nil,
}
use fermi.Parser.{
  Parsing, pure, ◌>>=◌, ◌>>◌, text, current, kind_now, nd, adv, mat, err, expect, rounds,
}
use fermi.Parser.Kinds.{is}
use fermi.Parser.Types.{parse_type, skip_nested}
use fermi.Parser.Calls.{Calls, found_until, nodes_until}
use fermi.Parser.Named.{type_after}

-- `if(mat(p,TOK_ASSIGN))init=parse_expr(p);`
unfoldable pub init_after : Calls → Parsing AstNode
init_after c = do found ← mat tok_assign; if found then c.expr else pure no_node

abbrev pub var_of : Option Bytes → TypeNode → Bool → Bool → VarHead
var_of name type is_mut is_const = record {
  name = name;
  type = type;
  is_mut = is_mut;
  is_const = is_const;
  is_exported = false;
}

unfoldable pub parse_var_decl : Calls → Bool → Bool → Parsing AstNode
parse_var_decl c is_mut is_const = do
  adv
  i ← nd
  t ← current
  if is t.type tok_ident
      then (do
        adv
        type ← type_after c tok_colon
        init ← init_after c
        expect tok_semicolon "expected ';'"
        pure (node_var_decl i (var_of (some (text t)) type is_mut is_const) init))
      else (err "expected variable name"
          >> pure (node_var_decl i (var_of none no_type is_mut is_const) no_node))

unfoldable pub parse_param : Calls → Parsing (Option AstNode)
parse_param c = do
  i ← nd
  is_mut ← mat tok_mut
  t ← current
  if is t.type tok_ident
      then (do
        adv
        type ← type_after c tok_colon
        init ← init_after c
        pure (some (node_var_decl i (var_of (some (text t)) type is_mut false) init)))
      else (err "expected identifier as parameter name" >> pure none)

unfoldable pub parse_params : Calls → Parsing AstList
parse_params c = found_until tok_rparen (parse_param c)

-- The type that a variant carries.
unfoldable pub variant_type : Calls → Parsing TypeNode
variant_type c = do
  found ← mat tok_lparen
  if found
      then (do type ← parse_type c.strtoll; expect tok_rparen "expected ')'"; pure type)
      else pure no_type

-- A token that is no name is reported and passed over.
unfoldable pub variants_within : Calls → ℕ → AstList → Parsing AstList
variants_within c zero head = λ p. none
variants_within c (suc fuel) head = do
  t ← current
  i ← nd
  if is t.type tok_rbrace || is t.type tok_eof
      then pure head
      else if is t.type tok_ident
      then (do
        adv
        type ← variant_type c
        let head' =
            append_node head (node_var_decl i (var_of (some (text t)) type false false) no_node)
        more ← mat tok_comma
        if more then variants_within c fuel head' else pure head')
      else (err "expected variant name" >> adv >> variants_within c fuel head)

unfoldable pub parse_enum_decl : Calls → Parsing AstNode
parse_enum_decl c = do
  adv
  i ← nd
  t ← current
  if is t.type tok_ident
      then (do
        adv
        expect tok_lbrace "expected '{'"
        variants ← (λ p. variants_within c (rounds p) nil p)
        expect tok_rbrace "expected '}'"
        pure (node_enum_decl i (text t) variants))
      else (err "expected enum name" >> pure no_node)

unfoldable pub is_fn_name_tok : TokenType → Bool
is_fn_name_tok tok_ident = true
is_fn_name_tok tok_new = true
is_fn_name_tok tok_let = true
is_fn_name_tok tok_mut = true
is_fn_name_tok tok_int = true
is_fn_name_tok tok_uint = true
is_fn_name_tok tok_long = true
is_fn_name_tok tok_ulong = true
is_fn_name_tok tok_float = true
is_fn_name_tok tok_double = true
is_fn_name_tok tok_bool = true
is_fn_name_tok tok_byte = true
is_fn_name_tok tok_char = true
is_fn_name_tok tok_str = true
is_fn_name_tok tok_short = true
is_fn_name_tok tok_ushort = true
is_fn_name_tok _ = false

unfoldable pub return_type : Calls → Parsing TypeNode
return_type c = do
  t ← kind_now
  if is t tok_colon || is t tok_arrow then adv >> parse_type c.strtoll else pure no_type

-- The body of an external function is passed over.
unfoldable pub skip_body : Parsing AstNode
skip_body = do
  braced ← mat tok_lbrace
  if braced
      then (do
        closed ← mat tok_rbrace
        if closed
            then pure no_node
            else ((λ p. skip_nested tok_lbrace tok_rbrace (rounds p) 1 p) >> pure no_node))
      else (mat tok_semicolon >> pure no_node)

unfoldable pub parse_fn_decl : Calls → Bool → Bool → Bool → Parsing AstNode
parse_fn_decl c is_unit is_extern is_exported = do
  adv
  i ← nd
  t ← current
  if is_fn_name_tok t.type
      then (do
        adv
        expect tok_lparen "expected '(' after function name"
        params ← parse_params c
        expect tok_rparen "expected ')'"
        ret_type ← return_type c
        body ← if is_extern then skip_body else c.block
        pure (
            node_fn_decl i
              (record {
                name = some (text t);
                ret_type = ret_type;
                is_unit = is_unit;
                is_extern = is_extern;
                is_exported = is_exported;
                is_unit_decl = false;
              })
              params body))
      else (err "expected function name" >> pure no_node)

-- `name: type;` in a class.
unfoldable pub class_field : Calls → Parsing AstNode
class_field c = do
  i ← nd
  t ← adv
  expect tok_colon "expected ':'"
  type ← parse_type c.strtoll
  expect tok_semicolon "expected ';'"
  pure (node_var_decl i (var_of (some (text t)) type true false) no_node)

unfoldable pub class_member : Calls → Parsing AstNode
class_member c = do
  t ← kind_now
  elim t [
    | tok_fn ↦ parse_fn_decl c false false false
    | tok_unit ↦ parse_fn_decl c true false false
    | tok_mut ↦ parse_var_decl c true false
    | tok_let ↦ parse_var_decl c false false
    | tok_ident ↦ class_field c
    | _ ↦ err "unexpected token in class body" >> adv >> pure no_node
  ]

unfoldable pub parse_class_body : Calls → Parsing AstList
parse_class_body c = nodes_until tok_rbrace (class_member c)
