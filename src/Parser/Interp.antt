-- ===== src/Parser/Interp.antt =====
-- src/feparser/parser.c, `parse_primary`: strings with expressions in them.
use fermi.Base.{
  ℕ, zero, suc, ◌+◌, ◌-◌, Bool, false, ◌&&◌, ◌||◌, [], ◌∷◌, ◌++◌, none, some, if◌then◌else◌, ◌==◌,
  length, drop,
}
use fermi.Base.Text.{Bytes}
use fermi.Ast.{
  NodeInfo, AstNode, AstList, ty_str, node_string_lit, node_interp_str, append_node, nil,
}
use fermi.Parser.{Parsing, pure, ◌>>=◌, ◌>>◌, nd, with_kind, adv, parser_new}
use fermi.Parser.Calls.{Calls}

abbrev pub starts_interp : Bytes → Bool
starts_interp (c ∷ d ∷ s) = c == b'%' && d == b'{'
starts_interp _ = false

unfoldable pub has_interp : Bytes → Bool
has_interp [] = false
has_interp (c ∷ s) = starts_interp (c ∷ s) || has_interp s

-- What stands before the next `%{`, and the rest from there on.
unfoldable pub split_literal : Bytes → Bytes × Bytes
split_literal [] = ([], [])
split_literal (c ∷ s) =
    let rest = split_literal s in
    if starts_interp (c ∷ s) then ([], c ∷ s) else (c ∷ rest.0, rest.1)

abbrev pub next_depth : ℕ → ℕ → ℕ
next_depth depth c = if c == b'{' then depth + 1 else if c == b'}' then depth - 1 else depth

-- The text up to the closing brace, and the rest from there on.
unfoldable pub split_expr : ℕ → Bytes → Bytes × Bytes
split_expr depth [] = ([], [])
split_expr depth (c ∷ s) =
    let rest = split_expr (next_depth depth c) s in
    if next_depth depth c == 0 then ([], c ∷ s) else (c ∷ rest.0, rest.1)

-- An expression is parsed by a parser of its own, whose diagnostics are written and whose error
-- flag is dropped.
unfoldable pub sub_expr : Calls → Bytes → Parsing AstNode
sub_expr c src p = elim (c.expr (parser_new src (length src) p.lexer.arena)) [
  | none ↦ none
  | some r ↦ some (
    r.0,
    record p { lexer = record p.lexer { arena = r.1.lexer.arena }; diags = r.1.diags ++ p.diags },
  )
]

-- A node that is not made by `nd`.
abbrev pub blank_info : NodeInfo
blank_info = record { line = 0; col = 0; ty = ty_str; ty_name = none }

-- Each round takes a character.
unfoldable pub parts_within : Calls → ℕ → Bytes → AstList → Parsing AstList
parts_within c fuel [] head = pure head
parts_within c zero (b ∷ src) head = λ p. none
parts_within c (suc fuel) (b ∷ src) head =
    let (lit, rest) = split_literal (b ∷ src) in
    let (expr_src, behind) = split_expr 1 (drop 2 rest) in
    let head' = append_node head (node_string_lit blank_info lit) in
    elim rest [
      | [] ↦ pure head'
      | r ∷ rs ↦ do
        expr ← sub_expr c expr_src
        parts_within c fuel (drop 1 behind) (append_node head' expr)
    ]

unfoldable pub parse_string : Calls → Bytes → Parsing AstNode
parse_string c raw = do
  i ← nd
  adv
  if has_interp raw
      then (do
        parts ← parts_within c (suc (length raw)) raw nil
        pure (node_interp_str (with_kind ty_str i) parts))
      else pure (node_string_lit (with_kind ty_str i) raw)
