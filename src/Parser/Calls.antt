-- ===== src/Parser/Calls.antt =====
-- src/feparser/parser.c: what the parsing functions call of each other, and the lists with commas.
use fermi.Base.{ℕ, zero, suc, ◌||◌, Option, none, some, if◌then◌else◌}
use fermi.Token.{TokenType, tok_eof, tok_comma}
use fermi.Ast.{AstNode, AstList, no_node, append_node, nil}
use fermi.Parser.{Parsing, pure, ◌>>=◌, kind_now, mat, rounds}
use fermi.Parser.Kinds.{is}
use fermi.Parser.Types.{Strtoll}

-- The calls that close a cycle, and the library function that they share.
pub record Calls : Type 0 where
  pub strtoll : Strtoll
  pub expr : Parsing AstNode
  pub unary : Parsing AstNode
  pub block : Parsing AstNode
  pub stmt : Parsing AstNode
  pub if_stmt : Parsing AstNode

-- `while(!chk(p,stop)&&!chk(p,TOK_EOF)){ ...; head=lapp(p,head,&tail,e); if(!mat(p,TOK_COMMA))break; }`
unfoldable pub items_within : TokenType → Parsing AstNode → ℕ → AstList → Parsing AstList
items_within stop item zero head = λ p. none
items_within stop item (suc fuel) head = do
  t ← kind_now
  if is t stop || is t tok_eof then pure head else do
    e ← item
    more ← mat tok_comma
    if more then items_within stop item fuel (append_node head e) else pure (append_node head e)

unfoldable pub items_until : TokenType → Parsing AstNode → Parsing AstList
items_until stop item p = items_within stop item (rounds p) nil p

-- The same where an item may be missing: `none` ends the list without one.
unfoldable pub found_within : TokenType → Parsing (Option AstNode) → ℕ → AstList → Parsing AstList
found_within stop item zero head = λ p. none
found_within stop item (suc fuel) head = do
  t ← kind_now
  if is t stop || is t tok_eof then pure head else do
    found ← item
    elim found [
      | none ↦ pure head
      | some e ↦ do
        more ← mat tok_comma
        if more then found_within stop item fuel (append_node head e) else pure (append_node head e)
    ]

unfoldable pub found_until : TokenType → Parsing (Option AstNode) → Parsing AstList
found_until stop item p = found_within stop item (rounds p) nil p

-- `if(s)head=lapp(p,head,&tail,s);`
unfoldable pub append_found : AstList → AstNode → AstList
append_found head no_node = head
append_found head n = append_node head n

-- `while(!chk(p,stop)&&!chk(p,TOK_EOF)){ s=...; if(s)head=lapp(p,head,&tail,s); }`
unfoldable pub nodes_within : TokenType → Parsing AstNode → ℕ → AstList → Parsing AstList
unfolding append_found
nodes_within stop node zero head = λ p. none
nodes_within stop node (suc fuel) head = do
  t ← kind_now
  if is t stop || is t tok_eof
      then pure head
      else do n ← node; nodes_within stop node fuel (append_found head n)

unfoldable pub nodes_until : TokenType → Parsing AstNode → Parsing AstList
nodes_until stop node p = nodes_within stop node (rounds p) nil p
