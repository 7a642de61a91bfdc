-- ===== src/Codegen/Blocks.antt =====
-- src/fecodegen/codegen.c: the steps that statements share, and declarations of variables, returns
-- and blocks of statements.
use fermi.Base.{
  suc, Bool, true, false, not, ◌&&◌, ◌||◌, [], ◌++◌, Option, none, some, take, if◌then◌else◌,
}
use fermi.Base.Text.{Bytes, codes}
use fermi.Base.Decimal.{decimal}
use fermi.Ast.{
  TypeNode, VarHead, AstNode, AstList, no_type, type_node, no_node, node_block, nil, cons,
}
use fermi.Fir.{fir_icmp, fir_unreachable}
use fermi.Fir.Print.{or_else}
use fermi.Codegen.{
  Gen, pure, ◌>>=◌, ◌>>◌, reads, modify, newtmp, newlbl, new_block, mk_instr, emit_instr,
  emit_alloca, emit_store, emit_br, last_instr_is_term,
}
use fermi.Codegen.Scope.{scope_push, scope_pop, var_def, var_def_mut}
use fermi.Codegen.Types.{is_type, typenode_to_llvm, ast_type_str, is_float_type, coerce_to}
use fermi.Codegen.Calls.{Emit, emit_rt_call, emit_mut_str_copy}
use fermi.Codegen.Defers.{emit_defers, emit_ret_with_defers}

-- A name that the source reads without a test for null.
unfoldable pub the_name : Option Bytes → Gen Bytes
the_name name c = elim name [ none ↦ none | some s ↦ some (s, c) ]

-- A step that is taken where the current block does not end with a jump.
unfoldable pub if_open : Gen Unit → Gen Unit
if_open m = do ended ← last_instr_is_term; if ended then pure tt else m

-- `if(!last_instr_is_term(cg)) emit_br(cg,label)`
unfoldable pub br_if_open : Bytes → Gen Unit
br_if_open label = if_open (emit_br label)

-- A jump where there is a label for it, and a new block behind it.
unfoldable pub emit_jump : Option Bytes → Bytes → Gen Unit
emit_jump target prefix = do
  elim target [ some l ↦ emit_br l | none ↦ emit_instr (mk_instr fir_unreachable) ]
  dl ← newlbl prefix
  new_block dl

-- A comparison of two values, in a new temporary.
unfoldable pub emit_icmp : Bytes → Bytes → Bytes → Bytes → Gen Bytes
emit_icmp type a b pred = do
  dst ← newtmp
  emit_instr (record (mk_instr fir_icmp) {
    dst = some dst;
    type = some type;
    src1 = some a;
    src2 = some b;
    src3 = some pred;
  })
  pure dst

-- `snprintf` into 128 bytes; the anonymous variable gets a number.
unfoldable pub slot_of : Bytes → Bytes
slot_of name = take 127 (codes "var." ++ name)

unfoldable pub new_slot : Bytes → Gen Bytes
new_slot name =
    if is_type name "_"
    then (λ c. some (take 127 (codes "var._." ++ decimal c.tmp), record c { tmp = suc c.tmp }))
    else pure (slot_of name)

unfoldable pub define_var : Bool → Bytes → Bytes → Bytes → Gen Unit
define_var is_mut name type slot =
    if is_mut then var_def_mut name type slot else var_def name type slot

-- `var_def` under a name that is not null and, where the type is inferred, not "_".
unfoldable pub define_typed : VarHead → Bytes → Bytes → Gen Unit
define_typed v type slot = elim v.name [
  | none ↦ pure tt
  | some name ↦ define_var v.is_mut name type slot
]

unfoldable pub define_inferred : VarHead → Bytes → Bytes → Gen Unit
define_inferred v type slot = elim v.name [
  | none ↦ pure tt
  | some name ↦ if is_type name "_" then pure tt else define_var v.is_mut name type slot
]

-- A mutable string is copied.
unfoldable pub own_copy : Bool → Bytes → Bytes → Gen Bytes
own_copy is_mut type v = if is_mut && is_type type "ptr" then emit_mut_str_copy v else pure v

unfoldable pub default_value : Bytes → Bytes
default_value type =
    if is_type type "ptr"
    then codes "null"
    else if is_float_type type
    then codes "0.0"
    else codes "0"

abbrev pub is_null : AstNode → Bool
is_null no_node = true
is_null _ = false

abbrev pub is_untyped : TypeNode → Bool
is_untyped no_type = true
is_untyped (type_node k i s n) = false

-- What is defined in a body is forgotten behind it.
unfoldable pub in_scope : {A : Type 0} → Gen A → Gen A
in_scope body = do scope_push; a ← body; scope_pop; pure a

-- A body in a region and in an unsafe block.
unfoldable pub with_region : {A : Type 0} → Gen A → Gen A
with_region body = do
  saved_in_region ← reads λ c. c.in_region
  modify λ c. record c { in_region = true }
  a ← body
  modify λ c. record c { in_region = saved_in_region }
  pure a

unfoldable pub with_unsafe : {A : Type 0} → Gen A → Gen A
with_unsafe body = do
  saved ← reads λ c. c.in_unsafe
  modify λ c. record c { in_unsafe = true }
  a ← body
  modify λ c. record c { in_unsafe = saved }
  pure a

module _ (emit : Emit) where
  -- A condition as a Boolean in a new temporary.
  unfoldable pub emit_cond : AstNode → Gen (Bytes × AstNode)
  emit_cond n = do
    r ← emit.expr n
    cty ← ast_type_str r.1
    cv ← coerce_to r.0 cty (codes "i1")
    icmp ← emit_icmp (codes "i1") cv (codes "0") (codes "ne")
    pure (icmp, r.1)

  unfoldable pub emit_inferred : VarHead → AstNode → Gen AstNode
  emit_inferred v init = do
    r ← emit.expr init
    ty ← ast_type_str r.1
    val ← own_copy v.is_mut ty r.0
    slot ← new_slot (or_else v.name (codes "_"))
    emit_alloca slot ty
    emit_store val slot ty
    define_inferred v ty slot
    pure r.1

  unfoldable pub emit_init : VarHead → Bytes → Bytes → AstNode → Gen AstNode
  emit_init v ty slot init =
      if is_null init then (do emit_store (default_value ty) slot ty; pure no_node) else do
        r ← emit.expr init
        vty ← ast_type_str r.1
        val ← coerce_to r.0 vty ty
        copy ← own_copy v.is_mut ty val
        emit_store copy slot ty
        pure r.1

  unfoldable pub emit_typed : VarHead → Bytes → AstNode → Gen AstNode
  emit_typed v ty init = do
    slot ← new_slot (or_else v.name (codes "_"))
    emit_alloca slot ty
    m ← emit_init v ty slot init
    define_typed v ty slot
    pure m

  unfoldable pub emit_var_decl : VarHead → AstNode → Gen AstNode
  emit_var_decl v init =
      if not (is_untyped v.type)
      then (do ty ← reads (typenode_to_llvm v.type); emit_typed v ty init)
      else if not (is_null init)
      then emit_inferred v init
      else emit_typed v (codes "i32") init

  unfoldable pub emit_return : AstNode → Gen AstNode
  emit_return val = do
    rty ← reads λ c. or_else c.cur_ret_type (codes "i32")
    if is_null val || is_type rty "void" then (do emit_ret_with_defers emit none; pure val) else do
      r ← emit.expr val
      vty ← ast_type_str r.1
      rv ← coerce_to r.0 vty rty
      emit_ret_with_defers emit (some (rv, rty))
      pure r.1

  unfoldable pub emit_stmts : AstList → Gen AstList
  emit_stmts nil = pure nil
  emit_stmts (cons n ns) = do
    m ← if is_null n then pure n else emit.stmt n
    ms ← emit_stmts ns
    pure (cons m ms)

  unfoldable pub emit_block : AstNode → Gen AstNode
  emit_block no_node = pure no_node
  emit_block (node_block i stmts) = do ms ← in_scope (emit_stmts stmts); pure (node_block i ms)
  emit_block n = emit.stmt n

  unfoldable pub emit_region : AstList → Gen AstList
  emit_region body = do
    pushed ← emit_rt_call (codes "fe_region_push") (codes "void") []
    ms ← with_region (in_scope (emit_stmts body))
    popped ← emit_rt_call (codes "fe_region_pop") (codes "void") []
    pure ms

  unfoldable pub emit_unsafe : AstNode → Gen AstNode
  emit_unsafe body = with_unsafe (emit_block body)

  unfoldable pub emit_break : Gen Unit
  emit_break = do
    emit_defers emit
    target ← reads λ c. c.break_label
    emit_jump target (codes "brkd")

unfoldable pub emit_continue : Gen Unit
emit_continue = do target ← reads λ c. c.cont_label; emit_jump target (codes "cntd")
