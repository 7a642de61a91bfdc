-- ===== src/Parser/Program.antt =====
-- src/feparser/parser.c: imports, the declarations of a program, and `parse_program`.
use fermi.Base.{
  ℕ, zero, suc, ◌+◌, ◌*◌, Bool, true, false, ◌||◌, [], ◌++◌, none, some, if◌then◌else◌, ltb, length,
}
use fermi.Base.Text.{Bytes}
use fermi.Token.{
  tok_string_lit, tok_const, tok_fn, tok_unit, tok_import, tok_export, tok_module, tok_enum,
  tok_class, tok_public, tok_private, tok_region, tok_type, tok_external, tok_comptime, tok_ident,
  tok_assign, tok_lt, tok_gt, tok_semicolon, tok_lbrace, tok_rbrace, tok_eof,
}
use fermi.Ast.{
  AstNode, AstList, append_node, no_node, node_program, node_import, node_export_module,
  node_class_decl, node_type_alias, nil,
}
use fermi.Parser.{
  Parsing, pure, ◌>>=◌, ◌>>◌, text, current, kind_now, nd, adv, mat, err, expect, rounds,
}
use fermi.Parser.Kinds.{is}
use fermi.Parser.Types.{Strtoll, parse_type}
use fermi.Parser.Calls.{Calls}
use fermi.Parser.Binary.{parse_expr}
use fermi.Parser.Postfix.{parse_unary}
use fermi.Parser.Decl.{parse_var_decl, parse_enum_decl, parse_fn_decl, parse_class_body}
use fermi.Parser.Control.{parse_if, parse_region}
use fermi.Parser.Stmt.{parse_external, parse_comptime, parse_stmt, parse_block}

-- The path is kept below 255 bytes by leaving a token out that is too long.
abbrev pub add_part : Bytes → Bytes → Bytes
add_part buf s = if ltb (length buf + length s) 255 then buf ++ s else buf

unfoldable pub path_within : ℕ → Bytes → Parsing Bytes
path_within zero buf = λ p. none
path_within (suc fuel) buf = do
  t ← current
  if is t.type tok_gt || is t.type tok_eof
      then pure buf
      else adv >> path_within fuel (add_part buf (text t))

unfoldable pub parse_import : Parsing AstNode
parse_import = do
  adv
  i ← nd
  t ← current
  n ←
      if is t.type tok_lt
      then (do
        adv
        path ← (λ p. path_within (rounds p) [] p)
        expect tok_gt "expected '>'"
        pure (node_import i (some path) true))
      else if is t.type tok_string_lit
      then adv >> pure (node_import i (some (text t)) false)
      else (err "expected string literal or '<...>' as import path"
          >> pure (node_import i none false))
  mat tok_semicolon
  pure n

-- The error at the end of `export`.
unfoldable pub export_error : Parsing AstNode
export_error = err "expected 'module', 'fn', 'unit', or 'external' after 'export'" >> pure no_node

unfoldable pub export_external : Calls → Parsing AstNode
export_external c = do
  adv
  t ← kind_now
  if is t tok_fn || is t tok_unit then parse_fn_decl c (is t tok_unit) true true else export_error

unfoldable pub export_module : Parsing AstNode
export_module = do adv; i ← nd; mat tok_semicolon; pure (node_export_module i)

unfoldable pub parse_export : Calls → Parsing AstNode
parse_export c = do
  adv
  t ← kind_now
  elim t [
    | tok_module ↦ export_module
    | tok_fn ↦ parse_fn_decl c false false true
    | tok_unit ↦ parse_fn_decl c true false true
    | tok_external ↦ export_external c
    | _ ↦ export_error
  ]

-- The two lists of a class; a second part of the same kind replaces the first.
unfoldable pub class_parts : Calls → ℕ → AstList → AstList → Parsing (AstList × AstList)
class_parts c zero privates publics = λ p. none
class_parts c (suc fuel) privates publics = do
  t ← kind_now
  if is t tok_rbrace || is t tok_eof
      then pure (privates, publics)
      else if is t tok_private
      then (class_part c >>= λ ms. class_parts c fuel ms publics)
      else if is t tok_public
      then (class_part c >>= λ ms. class_parts c fuel privates ms)
      else (err "expected 'private' or 'public' access specifier in class body"
          >> adv
          >> class_parts c fuel privates publics)
  where
    class_part : Calls → Parsing AstList
    class_part c = do
      adv
      expect tok_lbrace "expected '{'"
      members ← parse_class_body c
      expect tok_rbrace "expected '}'"
      pure members

unfoldable pub parse_class : Calls → Parsing AstNode
parse_class c = do
  adv
  i ← nd
  t ← current
  if is t.type tok_ident
      then (do
        adv
        expect tok_lbrace "expected '{'"
        parts ← (λ p. class_parts c (rounds p) nil nil p)
        expect tok_rbrace "expected '}'"
        pure (node_class_decl i (text t) parts.0 parts.1))
      else (err "expected identifier as class declaration name" >> pure no_node)

unfoldable pub parse_alias : Calls → Parsing AstNode
parse_alias c = do
  adv
  i ← nd
  t ← current
  if is t.type tok_ident
      then (do
        adv
        expect tok_assign "expected '='"
        type ← parse_type c.strtoll
        mat tok_semicolon
        pure (node_type_alias i (text t) type))
      else (err "expected identifier as type alias name" >> pure no_node)

unfoldable pub parse_top_level : Calls → Parsing AstNode
parse_top_level c = do
  t ← kind_now
  elim t [
    | tok_export ↦ parse_export c
    | tok_import ↦ parse_import
    | tok_fn ↦ parse_fn_decl c false false false
    | tok_unit ↦ parse_fn_decl c true false false
    | tok_external ↦ parse_external c
    | tok_enum ↦ parse_enum_decl c
    | tok_class ↦ parse_class c
    | tok_const ↦ parse_var_decl c false true
    | tok_region ↦ parse_region c
    | tok_comptime ↦ parse_comptime c
    | tok_type ↦ parse_alias c
    | _ ↦ err "unexpected token at top-level declaration context" >> adv >> pure no_node
  ]

-- The cycle of calls, on fuel.
unfoldable pub calls : Strtoll → ℕ → Calls
calls strtoll zero = record {
  strtoll = strtoll;
  expr = λ p. none;
  unary = λ p. none;
  block = λ p. none;
  stmt = λ p. none;
  if_stmt = λ p. none;
}
calls strtoll (suc fuel) =
    let c = calls strtoll fuel in
    record {
      strtoll = strtoll;
      expr = parse_expr c;
      unary = parse_unary c;
      block = parse_block c;
      stmt = parse_stmt c;
      if_stmt = parse_if c;
    }

-- A declaration that is there: `export module` sets the flag, any other is appended.
unfoldable pub add_decl : AstNode → AstList × Bool → AstList × Bool
add_decl no_node s = s
add_decl (node_export_module i) s = (s.0, true)
add_decl n s = (append_node s.0 n, s.1)

unfoldable pub decls_within : Calls → ℕ → AstList × Bool → Parsing (AstList × Bool)
unfolding add_decl
decls_within c zero s = λ p. none
decls_within c (suc fuel) s = do
  t ← kind_now
  if is t tok_eof then pure s else (parse_top_level c >>= λ n. decls_within c fuel (add_decl n s))

-- Between two tokens that are taken there are at most four calls of the cycle.
unfoldable pub parse_program : Strtoll → Parsing AstNode
parse_program strtoll p =
    (do
      i ← nd
      s ← decls_within (calls strtoll (rounds p * 4)) (rounds p) (nil, false)
      pure (node_program i s.0 s.1))
      p
