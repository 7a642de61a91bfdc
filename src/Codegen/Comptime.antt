-- ===== src/Codegen/Comptime.antt =====
-- src/fecodegen/codegen.c: the values of constants at compile time. A `long long` result wraps to 64
-- bits and a shift takes its count modulo 64, as in the optimizer; a name that is null is none of
-- the names looked for.
use fermi.Base.{
  ◌-◌, ◌%◌, Bool, false, ◌||◌, List, [], ◌∷◌, ◌++◌, Option, none, some, length, ltb, if◌then◌else◌,
}
use fermi.Base.Text.{Bytes, str_eq}
use fermi.Base.Int.{ℤ, pos, negsuc, word64, to_word, of_word}
use fermi.Ast.{
  AstNode, node_binary, node_unary, node_ident, node_int_lit, node_long_lit, node_at_call,
}
use fermi.Fir.{
  FirOp, fir_add, fir_sub, fir_mul, fir_div, fir_mod, fir_and, fir_or, fir_xor, fir_shl, fir_shr,
}
use fermi.Opt.Fold.{fold_int}
use fermi.Codegen.{Gen}
use fermi.Codegen.Types.{is_type, tynode_sizeof}

abbrev pub Constants : Type 0
Constants = List (Option Bytes × ℤ)

abbrev pub is_named : Bytes → Option Bytes → Bool
is_named name none = false
is_named name (some s) = str_eq s name

unfoldable pub find_comptime : Bytes → Constants → Option ℤ
find_comptime name [] = none
find_comptime name (v ∷ vs) = if is_named name v.0 then some v.1 else find_comptime name vs

abbrev pub value_or_zero : Option ℤ → ℤ
value_or_zero none = pos 0
value_or_zero (some z) = z

-- The operation of `fold_int` that an operator stands for.
unfoldable pub comptime_op : Bytes → Option FirOp
comptime_op op =
    if is_type op "+"
    then some fir_add
    else if is_type op "-"
    then some fir_sub
    else if is_type op "*"
    then some fir_mul
    else if is_type op "/"
    then some fir_div
    else if is_type op "%"
    then some fir_mod
    else if is_type op "<<"
    then some fir_shl
    else if is_type op ">>"
    then some fir_shr
    else if is_type op "&"
    then some fir_and
    else if is_type op "|"
    then some fir_or
    else if is_type op "^"
    then some fir_xor
    else none

unfoldable pub comptime_binary : Bytes → ℤ → ℤ → ℤ
unfolding fold_int
comptime_binary op l r = elim (comptime_op op) [
  | none ↦ pos 0
  | some f ↦ value_or_zero (fold_int f l r)
]

-- `-v` and `~v`
unfoldable pub negated : ℤ → ℤ
negated v = of_word ((word64 - to_word v) % word64)

unfoldable pub complement : ℤ → ℤ
complement (pos n) = negsuc n
complement (negsuc n) = pos n

unfoldable pub comptime_unary : Bytes → ℤ → ℤ
comptime_unary op v =
    if is_type op "-" then negated v else if is_type op "~" then complement v else v

unfoldable pub eval_comptime : Constants → AstNode → ℤ
eval_comptime env (node_int_lit i v) = v
eval_comptime env (node_long_lit i v) = v
eval_comptime env (node_ident i name) = value_or_zero (find_comptime name env)
eval_comptime env (node_binary i op left right) =
    comptime_binary op (eval_comptime env left) (eval_comptime env right)
eval_comptime env (node_unary i op operand prefix) = comptime_unary op (eval_comptime env operand)
eval_comptime env (node_at_call i name args type_arg) =
    if is_type name "sizeof" || is_type name "alignof" then pos (tynode_sizeof type_arg) else pos 0
eval_comptime env _ = pos 0

-- NODE_COMPTIME_LET: at most 64 constants are kept.
unfoldable pub comptime_let : Option Bytes → AstNode → Gen Unit
comptime_let name init c = some (
  tt,
  (if ltb (length c.comptime) 64
      then record c { comptime = c.comptime ++ (name, eval_comptime c.comptime init) ∷ [] }
      else c),
)
