-- ===== src/Parser/Postfix.antt =====
-- src/feparser/parser.c, `parse_postfix` and `parse_unary`.
use fermi.Base.{ℕ, zero, suc, Bool, true, false, Option, none, some, if◌then◌else◌}
use Prim.Native.String.{String}
use fermi.Base.Text.{codes, str_eq}
use fermi.Token.{
  TokenType, tok_ident, tok_minus, tok_star, tok_amp, tok_tilde, tok_not, tok_inc, tok_dec,
  tok_colon, tok_semicolon, tok_comma, tok_dot, tok_question, tok_as, tok_lparen, tok_rparen,
  tok_rbrace, tok_lbracket, tok_rbracket, tok_eof,
}
use fermi.Ast.{
  AstNode, AstList, node_if, node_unary, node_call, node_index, node_field, node_cast, node_ref,
  node_deref, node_try,
}
use fermi.Parser.{
  Parsing, pure, ◌>>=◌, ◌>>◌, text, current, kind_now, nd, chkp, adv, err, expect, rounds,
}
use fermi.Parser.Kinds.{is}
use fermi.Parser.Types.{parse_type}
use fermi.Parser.Calls.{Calls, items_until}
use fermi.Parser.Primary.{parse_primary, prefixed}

-- The arguments and the closing parenthesis.
unfoldable pub call_args : Calls → Parsing AstList
call_args c = do args ← items_until tok_rparen c.expr; expect tok_rparen "expected ')'"; pure args

-- Behind a dot, at an identifier: a call of a method or a field.
unfoldable pub parse_member : Calls → AstNode → Parsing AstNode
parse_member c n = do
  i ← nd
  call ← chkp tok_lparen
  t ← adv
  if call
      then (do j ← nd; adv; args ← call_args c; pure (node_call j (node_field i n (text t)) args))
      else pure (node_field i n (text t))

unfoldable pub parse_call : Calls → AstNode → Parsing AstNode
parse_call c n = do adv; i ← nd; args ← call_args c; pure (node_call i n args)

unfoldable pub parse_index : Calls → AstNode → Parsing AstNode
parse_index c n = do
  adv
  i ← nd
  idx ← c.expr
  expect tok_rbracket "expected ']'"
  pure (node_index i n idx)

unfoldable pub parse_step : String → AstNode → Parsing AstNode
parse_step op n = do i ← nd; adv; pure (node_unary i (codes op) n false)

-- Whether the token behind a question mark ends the expression.
unfoldable pub ends_try : TokenType → Bool
ends_try tok_semicolon = true
ends_try tok_comma = true
ends_try tok_rparen = true
ends_try tok_rbrace = true
ends_try tok_rbracket = true
ends_try tok_eof = true
ends_try _ = false

unfoldable pub parse_question : Calls → AstNode → Parsing AstNode
parse_question c n = do
  adv
  t ← kind_now
  if ends_try t then (do i ← nd; pure (node_try i n)) else (do
    value ← c.expr
    expect tok_colon "expected ':'"
    els ← c.expr
    i ← nd
    pure (node_if i n value els))

unfoldable pub parse_cast : Calls → AstNode → Parsing AstNode
parse_cast c n = do adv; i ← nd; type ← parse_type c.strtoll; pure (node_cast i n type)

-- One round behind an operand, or `none` where the loop breaks, as it does at a dot with no name.
unfoldable pub postfix_round : Calls → AstNode → Parsing (Option AstNode)
postfix_round c n = do
  t ← current
  elim t.type [
    | tok_dot ↦ do
      adv
      u ← kind_now
      if is u tok_ident
          then parse_member c n >>= (λ m. pure (some m))
          else (err "expected identifier as field name after '.'" >> pure none)
    | tok_lparen ↦ parse_call c n >>= λ m. pure (some m)
    | tok_lbracket ↦ parse_index c n >>= λ m. pure (some m)
    | tok_inc ↦ parse_step "++" n >>= λ m. pure (some m)
    | tok_dec ↦ parse_step "--" n >>= λ m. pure (some m)
    | tok_question ↦ parse_question c n >>= λ m. pure (some m)
    | tok_as ↦ parse_cast c n >>= λ m. pure (some m)
    | tok_ident ↦
        if str_eq (text t) (codes "as") then parse_cast c n >>= (λ m. pure (some m)) else pure none
    | _ ↦ pure none
  ]

unfoldable pub postfix_within : Calls → ℕ → AstNode → Parsing AstNode
postfix_within c zero n = λ p. none
postfix_within c (suc fuel) n = do
  more ← postfix_round c n
  elim more [ none ↦ pure n | some m ↦ postfix_within c fuel m ]

unfoldable pub parse_postfix : Calls → Parsing AstNode
parse_postfix c = do n ← parse_primary c; λ p. postfix_within c (rounds p) n p

unfoldable pub prefix_op : Calls → String → Parsing AstNode
prefix_op c op = prefixed c (λ i operand. node_unary i (codes op) operand true)

unfoldable pub parse_unary : Calls → Parsing AstNode
parse_unary c = do
  t ← kind_now
  elim t [
    | tok_minus ↦ prefix_op c "-"
    | tok_not ↦ prefix_op c "!"
    | tok_tilde ↦ prefix_op c "~"
    | tok_inc ↦ prefix_op c "++"
    | tok_dec ↦ prefix_op c "--"
    | tok_amp ↦ prefixed c node_ref
    | tok_star ↦ prefixed c node_deref
    | _ ↦ parse_postfix c
  ]
