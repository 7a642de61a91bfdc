-- ===== src/Codegen/Fns.antt =====
-- src/fecodegen/codegen.c: functions as they are added to the module, with their parameters.
use fermi.Base.{Bool, false, List, [], ◌∷◌, ◌++◌, Option, none, some, take, length, if◌then◌else◌}
use fermi.Base.Text.{Bytes, codes}
use fermi.Ast.{TypeNode, FnHead, AstList, node_var_decl, nil, cons}
use fermi.Fir.{FirFn, FirParam}
use fermi.Fir.Print.{or_else}
use fermi.Codegen.{
  Codegen, Gen, pure, ◌>>=◌, ◌>>◌, reads, modify, new_block, emit_alloca, emit_store, fns, with_fns,
}
use fermi.Codegen.Scope.{var_def}
use fermi.Codegen.Types.{is_type, typenode_to_llvm}
use fermi.Codegen.Comptime.{is_named}
use fermi.Codegen.Defers.{emit_ret}
use fermi.Codegen.Blocks.{is_untyped, slot_of, in_scope}

-- The type of a parameter, a field or a payload, or the given one where the source has none.
unfoldable pub type_or : Bytes → TypeNode → Codegen → Bytes
type_or d t c = if is_untyped t then d else typenode_to_llvm t c

-- A parameter of the given name is left out.
unfoldable pub params_of : Bytes → Option Bytes → AstList → Codegen → List FirParam
params_of d skipped nil c = []
params_of d skipped (cons (node_var_decl i v init) ns) c =
    if is_named (or_else v.name []) skipped
    then params_of d skipped ns c
    else record { name = or_else v.name []; type = type_or d v.type c } ∷ params_of d skipped ns c
params_of d skipped (cons n ns) c = params_of d skipped ns c

abbrev pub self_name : Bytes
self_name = codes "self"

-- A method has `self` before its other parameters.
unfoldable pub fn_params : Option Bytes → AstList → Codegen → List FirParam
fn_params none params c = params_of (codes "i32") none params c
fn_params (some s) params c =
    record { name = self_name; type = codes "ptr" }
    ∷ params_of (codes "i32") (some self_name) params c

-- `snprintf` into 256 bytes.
unfoldable pub fn_name : Option Bytes → Bytes → Bytes
fn_name none name = take 255 name
fn_name (some s) name = take 255 (s ++ codes "__" ++ name)

unfoldable pub ret_type_for : FnHead → Codegen → Bytes
ret_type_for h c = if h.is_unit then codes "void" else type_or (codes "i32") h.ret_type c

unfoldable pub new_fn : Bytes → Bytes → List FirParam → Bool → FirFn
new_fn name ret_type params is_extern = record {
  name = name;
  ret_type = some ret_type;
  params = params;
  blocks = [];
  is_extern = is_extern;
  is_vararg = false;
}

unfoldable pub add_fn : FirFn → Gen Unit
add_fn f = modify λ c. with_fns c (fns c ++ f ∷ [])

-- The function becomes the current one, and what is deferred before is not its own.
abbrev pub open_fn : FirFn → (Codegen → Option Bytes) → Codegen → Codegen
open_fn f struct_name c = record (with_fns c (fns c ++ f ∷ [])) {
  cur_fn = some (length (fns c));
  cur_ret_type = f.ret_type;
  fn_defer_base = length c.defer_stack;
  cur_struct = struct_name c;
}

-- What is emitted for a function, between two changes of the state; the second one is given the state
-- before the function too.
unfoldable pub in_fn :
    {A : Type 0} → FirFn → (Codegen → Option Bytes) → (Codegen → Codegen → Codegen) → Gen A → Gen A
in_fn f struct_name leave body = do
  saved ← reads λ c. c
  modify (open_fn f struct_name)
  new_block (codes "entry")
  a ← in_scope body
  modify (leave saved)
  pure a

-- The slot of a parameter.
unfoldable pub bind_param : FirParam → Gen Unit
bind_param p = do
  emit_alloca (slot_of p.name) p.type
  emit_store (take 127 (codes "%arg." ++ p.name)) (slot_of p.name) p.type
  var_def p.name p.type (slot_of p.name)

unfoldable pub bind_params : List FirParam → Gen Unit
bind_params [] = pure tt
bind_params (p ∷ ps) = do bind_param p; bind_params ps

-- The return of a body that ends without one.
unfoldable pub emit_default_ret : Bytes → Gen Unit
emit_default_ret ret_type =
    emit_ret (if is_type ret_type "void" then none else some (codes "0", ret_type))
