-- ===== src/Codegen/Calls.antt =====
-- src/fecodegen/codegen.c: calls of the runtime and of the C library, with the copies of mutable
-- strings, and calls in a namespace.
use fermi.Base.{ℕ, zero, suc, Bool, true, false, List, [], ◌∷◌, ◌++◌, some, map, if◌then◌else◌}
use fermi.Base.Text.{Bytes, codes}
use fermi.Ast.{AstNode, AstList, node_interp_str, nil, cons}
use fermi.Fir.{fir_call, fir_add, fir_const_str}
use fermi.Codegen.{Gen, pure, ◌>>=◌, ◌>>◌, newtmp, mk_instr, emit_instr}
use fermi.Codegen.Types.{is_type, ast_type_str, coerce_to}

-- `emit_expr` and `emit_stmt`, as the functions that they call call them.
pub record Emit : Type 0 where
  pub expr : AstNode → Gen (Bytes × AstNode)
  pub stmt : AstNode → Gen AstNode

-- A call that puts its result into `dst`; each argument is a type and a value.
unfoldable pub emit_call : Bytes → Bytes → Bytes → List (Bytes × Bytes) → Gen Unit
emit_call dst ret_type fn args = emit_instr (record (mk_instr fir_call) {
  dst = some dst;
  type = some ret_type;
  src1 = some fn;
  args = map (λ (a : Bytes × Bytes). a.1) args;
  arg_types = map (λ (a : Bytes × Bytes). a.0) args;
})

unfoldable pub emit_rt_call : Bytes → Bytes → List (Bytes × Bytes) → Gen Bytes
emit_rt_call fn ret_type args = do dst ← newtmp; emit_call dst ret_type fn args; pure dst

unfoldable pub emit_mut_str_copy : Bytes → Gen Bytes
emit_mut_str_copy v = do
  len_v ← newtmp
  emit_call len_v (codes "i64") (codes "strlen") ((codes "ptr", v) ∷ [])
  len1 ← newtmp
  emit_instr (record (mk_instr fir_add) {
    dst = some len1;
    type = some (codes "i64");
    src1 = some len_v;
    src2 = some (codes "1");
  })
  heap ← newtmp
  emit_call heap (codes "ptr") (codes "malloc") ((codes "i64", len1) ∷ [])
  sc_dst ← newtmp
  emit_call sc_dst (codes "ptr") (codes "strcpy") ((codes "ptr", heap) ∷ (codes "ptr", v) ∷ [])
  pure heap

unfoldable pub emit_mut_str_replace : Bytes → Bytes → Gen Bytes
emit_mut_str_replace old_v new_v = do
  fd ← newtmp
  emit_call fd (codes "void") (codes "free") ((codes "ptr", old_v) ∷ [])
  emit_mut_str_copy new_v

-- A constant string in a new temporary.
unfoldable pub emit_const_str : Bytes → Gen Bytes
emit_const_str s = do
  dst ← newtmp
  emit_instr (record (mk_instr fir_const_str) { dst = some dst; src1 = some s })
  pure dst

-- The conversion of printf for a type, and the type that the value is converted to before.
unfoldable pub print_format : Bytes → Bytes × Bytes
print_format t =
    if is_type t "i64"
    then (codes "%ld", t)
    else if is_type t "float"
    then (codes "%g", codes "double")
    else if is_type t "double"
    then (codes "%g", t)
    else if is_type t "ptr"
    then (codes "%s", t)
    else if is_type t "i1"
    then (codes "%d", codes "i32")
    else if is_type t "i8"
    then (codes "%c", t)
    else (codes "%d", t)

abbrev pub is_interp : AstNode → Bool
is_interp (node_interp_str i parts) = true
is_interp _ = false

-- A value printed under a format.
unfoldable pub emit_printf : Bytes → Bytes → Bytes → Gen Unit
emit_printf fmt type val = do
  fmtdst ← emit_const_str fmt
  pd ← newtmp
  emit_call pd (codes "i32") (codes "printf") ((codes "ptr", fmtdst) ∷ (type, val) ∷ [])

module _ (emit : Emit) where
  -- The first argument printed, with a text behind it; the source converts only floats and
  -- Booleans, and a conversion of a type to itself does nothing.
  unfoldable pub emit_printed : Bytes → AstNode → Gen AstNode
  emit_printed eol n = if is_interp n then (do r ← emit.expr n; pure r.1) else do
    r ← emit.expr n
    t ← ast_type_str r.1
    aval ← coerce_to r.0 t (print_format t).1
    emit_printf ((print_format t).0 ++ eol) (print_format t).1 aval
    pure r.1

  unfoldable pub emit_io_print : AstList → Gen (Bytes × AstList)
  emit_io_print nil = pure (codes "0", nil)
  emit_io_print (cons n ns) = do m ← emit_printed [] n; pure (codes "0", cons m ns)

  unfoldable pub emit_io_println : AstList → Gen (Bytes × AstList)
  emit_io_println nil = do
    fmtdst ← emit_const_str (codes "\n")
    pd ← newtmp
    emit_call pd (codes "i32") (codes "printf") ((codes "ptr", fmtdst) ∷ [])
    pure (codes "0", nil)
  emit_io_println (cons n ns) = do m ← emit_printed (codes "\n") n; pure (codes "0", cons m ns)

  -- At most so many arguments, each with its type; those behind them are not evaluated.
  unfoldable pub emit_args : ℕ → AstList → Gen (List (Bytes × Bytes) × AstList)
  emit_args zero ns = pure ([], ns)
  emit_args (suc room) nil = pure ([], nil)
  emit_args (suc room) (cons n ns) = do
    r ← emit.expr n
    t ← ast_type_str r.1
    rest ← emit_args room ns
    pure ((t, r.0) ∷ rest.0, cons r.1 rest.1)
