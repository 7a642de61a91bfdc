-- ===== src/Codegen/Decls.antt =====
-- src/fecodegen/codegen.c: the declarations of a program, its functions, and the module.
use fermi.Base.{
  ℕ, zero, suc, ◌-◌, true, false, ◌&&◌, List, [], ◌∷◌, ◌++◌, Option, none, some, take, map, length,
  ltb, if◌then◌else◌,
}
use fermi.Base.Text.{Bytes, codes}
use fermi.Ast.{
  FnHead, AstNode, AstList, node_program, node_fn_decl, node_enum_decl, node_class_decl,
  node_var_decl, node_comptime_let, nil, cons,
}
use fermi.Fir.{FirFn}
use fermi.Fir.Print.{or_else}
use fermi.Codegen.{Codegen, Gen, EnumInfo, StructInfo, pure, ◌>>=◌, ◌>>◌, reads, modify}
use fermi.Codegen.Comptime.{comptime_let}
use fermi.Codegen.Calls.{Emit}
use fermi.Codegen.Defers.{emit_defers}
use fermi.Codegen.Blocks.{if_open, is_null, the_name, emit_block}
use fermi.Codegen.Fns.{
  type_or, params_of, fn_params, fn_name, ret_type_for, new_fn, add_fn, in_fn, bind_params,
  emit_default_ret,
}

-- At most `room` variables with their types. The source does not test a name for null.
unfoldable pub typed_names : ℕ → AstList → Codegen → List (Bytes × Bytes)
typed_names room nil c = []
typed_names zero (cons n ns) c = []
typed_names (suc room) (cons (node_var_decl i v init) ns) c =
    (or_else v.name [], type_or (codes "i32") v.type c) ∷ typed_names room ns c
typed_names (suc room) (cons n ns) c = typed_names (suc room) ns c

abbrev pub enum_info : Bytes → List (Bytes × Bytes) → EnumInfo
enum_info name variants = record { name = name; variants = variants }

abbrev pub with_enum : EnumInfo → Codegen → Codegen
with_enum e c = record c { enums = c.enums ++ e ∷ [] }

-- At most 32 enums of at most 64 variants; an enum is known in the types of its payloads.
unfoldable pub add_enum : Bytes → AstList → Codegen → Codegen
add_enum name variants c =
    if ltb (length c.enums) 32
    then with_enum (enum_info name (typed_names 64 variants (with_enum (enum_info name []) c))) c
    else c

abbrev pub struct_info : Bytes → List (Bytes × Bytes) → StructInfo
struct_info name fields = record { name = name; fields = fields; is_class = true }

abbrev pub with_struct : StructInfo → Codegen → Codegen
with_struct s c = record c { structs = c.structs ++ s ∷ [] }

-- The private variables and behind them the public ones, 64 at most.
unfoldable pub class_fields : AstList → AstList → Codegen → List (Bytes × Bytes)
class_fields private_members public_members c =
    let first = typed_names 64 private_members c in
    first ++ typed_names (64 - length first) public_members c

-- The declaration of a struct that has fields.
unfoldable pub declare_struct : Bytes → List (Bytes × Bytes) → Codegen → Codegen
declare_struct name [] c = c
declare_struct name (f ∷ fs) c = record c {
  mod_ = record c.mod_ {
    struct_decls =
        c.mod_.struct_decls
        ++ record { name = name; field_types = map (λ (v : Bytes × Bytes). v.1) (f ∷ fs) } ∷ [];
  };
}

abbrev pub put_class : Bytes → List (Bytes × Bytes) → Codegen → Codegen
put_class name fields c = declare_struct name fields (with_struct (struct_info name fields) c)

-- At most 64 structs; a class is known in the types of its fields.
unfoldable pub add_class : Bytes → AstList → AstList → Codegen → Codegen
add_class name private_members public_members c =
    if ltb (length c.structs) 64
    then put_class name
        (class_fields private_members public_members (with_struct (struct_info name []) c)) c
    else c

unfoldable pub collect_decl : AstNode → Codegen → Codegen
collect_decl (node_enum_decl i name variants) c = add_enum name variants c
collect_decl (node_class_decl i name private_members public_members) c =
    add_class name private_members public_members c
collect_decl n c = c

unfoldable pub collect_decls : AstList → Codegen → Codegen
collect_decls nil c = c
collect_decls (cons n ns) c = collect_decls ns (collect_decl n c)

-- Behind a function there is no current one.
abbrev pub leave_fn : Codegen → Codegen → Codegen
leave_fn saved c = record c {
  defer_stack = take (length saved.defer_stack) c.defer_stack;
  fn_defer_base = saved.fn_defer_base;
  cur_fn = none;
  cur_struct = saved.cur_struct;
}

module _ (emit : Emit) where
  -- A return at the end of a body that does not end with a jump.
  unfoldable pub close_fn : Bytes → Gen Unit
  close_fn ret_type = if_open (do emit_defers emit; emit_default_ret ret_type)

  -- The parameters are all known before the body; those of the function are listed at once.
  unfoldable pub emit_body : Option Bytes → FirFn → Bytes → AstNode → Gen Unit
  emit_body struct_name f ret_type body =
      in_fn f (λ c. struct_name) leave_fn
        (do bind_params f.params; emitted ← emit_block emit body; close_fn ret_type)

  unfoldable pub emit_fn : FnHead → Option Bytes → AstList → AstNode → Gen Unit
  emit_fn h struct_name params body = do
    name ← the_name h.name
    ret_type ← reads (ret_type_for h)
    ps ← reads (fn_params struct_name params)
    plain ← reads (params_of (codes "i32") none params)
    if h.is_extern && is_null body
        then add_fn (new_fn (fn_name struct_name name) ret_type plain true)
        else emit_body struct_name (new_fn (fn_name struct_name name) ret_type ps false) ret_type
            body

  unfoldable pub emit_fn_decl : Option Bytes → AstNode → Gen Unit
  emit_fn_decl struct_name (node_fn_decl i h params body) = emit_fn h struct_name params body
  emit_fn_decl struct_name n = pure tt

  unfoldable pub emit_methods : Bytes → AstList → Gen Unit
  emit_methods name nil = pure tt
  emit_methods name (cons n ns) = do emit_fn_decl (some name) n; emit_methods name ns

  unfoldable pub emit_decl : AstNode → Gen Unit
  emit_decl (node_comptime_let i name init) = comptime_let name init
  emit_decl (node_fn_decl i h params body) = emit_fn_decl none (node_fn_decl i h params body)
  emit_decl (node_class_decl i name private_members public_members) = do
    emit_methods name private_members
    emit_methods name public_members
  emit_decl n = pure tt

  unfoldable pub emit_decls : AstList → Gen Unit
  emit_decls nil = pure tt
  emit_decls (cons n ns) = do emit_decl n; emit_decls ns

  -- Nothing reads the tree behind this.
  unfoldable pub codegen_emit : AstNode → Gen Unit
  codegen_emit (node_program i decls is_module) = do modify (collect_decls decls); emit_decls decls
  codegen_emit n = λ c. none
