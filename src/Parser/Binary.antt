-- ===== src/Parser/Binary.antt =====
-- src/feparser/parser.c, `bin_prec`, `parse_binary` and `parse_expr`.
pub mod Climb
use fermi.Base.{ℕ, zero, suc, Bool, true, false, Option, none, some, if◌then◌else◌, ltb, ◌*◌}
use fermi.Token.{
  TokenType, tok_plus, tok_minus, tok_star, tok_slash, tok_percent, tok_amp, tok_pipe, tok_caret,
  tok_assign, tok_eq, tok_neq, tok_lt, tok_gt, tok_lte, tok_gte, tok_and, tok_or, tok_plus_assign,
  tok_minus_assign, tok_star_assign, tok_slash_assign, tok_percent_assign, tok_amp_assign,
  tok_pipe_assign, tok_caret_assign, tok_shl, tok_shr, tok_shl_assign, tok_shr_assign, tok_range,
  tok_range_eq,
}
use fermi.Ast.{AstNode, node_assign, node_compound_assign, node_binary}
use fermi.Parser.{Parsing, pure, ◌>>=◌, ◌>>◌, text, current, nd, adv, rounds}
use fermi.Parser.Kinds.{is}
use fermi.Parser.Calls.{Calls}

-- `none` is the source's -1, which is below every bound.
unfoldable pub bin_prec : TokenType → Option ℕ
bin_prec tok_range = some 0
bin_prec tok_range_eq = some 0
bin_prec tok_or = some 1
bin_prec tok_and = some 2
bin_prec tok_pipe = some 3
bin_prec tok_caret = some 4
bin_prec tok_amp = some 5
bin_prec tok_eq = some 6
bin_prec tok_neq = some 6
bin_prec tok_lt = some 7
bin_prec tok_gt = some 7
bin_prec tok_lte = some 7
bin_prec tok_gte = some 7
bin_prec tok_shl = some 8
bin_prec tok_shr = some 8
bin_prec tok_plus = some 9
bin_prec tok_minus = some 9
bin_prec tok_star = some 10
bin_prec tok_slash = some 10
bin_prec tok_percent = some 10
bin_prec _ = none

-- The precedence of an operator that is not below `min_prec`.
abbrev pub at_least : ℕ → Option ℕ → Option ℕ
at_least min_prec none = none
at_least min_prec (some prec) = if ltb prec min_prec then none else some prec

-- Fuel for the operators that are taken; `unary` is `parse_unary`.
unfoldable mutual
  pub binary_within : Parsing AstNode → ℕ → ℕ → Parsing AstNode
  binary_within unary zero min_prec = λ p. none
  binary_within unary (suc fuel) min_prec = do left ← unary; binary_loop unary fuel min_prec left

  pub binary_loop : Parsing AstNode → ℕ → ℕ → AstNode → Parsing AstNode
  binary_loop unary zero min_prec left = λ p. none
  binary_loop unary (suc fuel) min_prec left = do
    t ← current
    elim (at_least min_prec (bin_prec t.type)) [
      | none ↦ pure left
      | some prec ↦ do
        adv
        right ← binary_within unary fuel (suc prec)
        i ← nd
        binary_loop unary fuel min_prec (node_binary i (text t) left right)
    ]

-- Each operator is a token, and opens at most two calls.
unfoldable pub parse_binary : Parsing AstNode → ℕ → Parsing AstNode
parse_binary unary min_prec p = binary_within unary (rounds p * 2) min_prec p

unfoldable pub is_assign_op : TokenType → Bool
is_assign_op tok_assign = true
is_assign_op tok_plus_assign = true
is_assign_op tok_minus_assign = true
is_assign_op tok_star_assign = true
is_assign_op tok_slash_assign = true
is_assign_op tok_percent_assign = true
is_assign_op tok_amp_assign = true
is_assign_op tok_pipe_assign = true
is_assign_op tok_caret_assign = true
is_assign_op tok_shl_assign = true
is_assign_op tok_shr_assign = true
is_assign_op _ = false

unfoldable pub parse_expr : Calls → Parsing AstNode
parse_expr c = do
  left ← parse_binary c.unary 0
  t ← current
  if is_assign_op t.type
      then (do
        adv
        right ← c.expr
        i ← nd
        pure (
            if is t.type tok_assign
            then node_assign i left right
            else node_compound_assign i (text t) left right))
      else pure left
