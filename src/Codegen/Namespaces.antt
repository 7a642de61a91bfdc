-- ===== src/Codegen/Namespaces.antt =====
-- src/fecodegen/codegen.c, `emit_ns_call`: the functions of the standard namespaces by tables, and
-- the functions of an imported module by their mangled names.
use Prim.Native.String.{String}
use fermi.Base.{◌&&◌, List, [], ◌∷◌, ◌++◌, Option, none, some, take, if◌then◌else◌}
use fermi.Base.Text.{Bytes, codes, str_eq}
use fermi.Ast.{
  TypeKind, NodeInfo, AstList, ty_void, ty_bool, ty_int, ty_long, ty_float, ty_double, ty_str,
}
use fermi.Fir.{FirFn}
use fermi.Fir.Print.{or_else}
use fermi.Codegen.{Gen, pure, ◌>>=◌, reads, fns}
use fermi.Codegen.Types.{is_type}
use fermi.Codegen.Calls.{Emit, emit_rt_call, emit_io_print, emit_io_println, emit_args}

-- The type that a node gets from a type of the intermediate code.
unfoldable pub kind_from_ir : Bytes → TypeKind
kind_from_ir t =
    if is_type t "double"
    then ty_double
    else if is_type t "float"
    then ty_float
    else if is_type t "i64"
    then ty_long
    else if is_type t "ptr"
    then ty_str
    else if is_type t "i1"
    then ty_bool
    else if is_type t "void"
    then ty_void
    else ty_int

-- A function's name, the name of what it calls, and the type of its result.
pub record Entry : Type 0 where
  pub fe : Bytes
  pub c : Bytes
  pub ret : Bytes

abbrev entry : String → String → String → Entry
entry fe c ret = record { fe = codes fe; c = codes c; ret = codes ret }

-- An entry under the name of what it calls.
abbrev same : String → String → Entry
same fe ret = entry fe fe ret

unfoldable pub math_map : List Entry
math_map =
    same "sqrt" "double"
    ∷ same "sqrtf" "float"
    ∷ same "pow" "double"
    ∷ same "powf" "float"
    ∷ same "abs" "i32"
    ∷ same "fabs" "double"
    ∷ same "fabsf" "float"
    ∷ same "floor" "double"
    ∷ same "ceil" "double"
    ∷ same "round" "double"
    ∷ same "floorf" "float"
    ∷ same "ceilf" "float"
    ∷ same "roundf" "float"
    ∷ same "sin" "double"
    ∷ same "cos" "double"
    ∷ same "tan" "double"
    ∷ same "sinf" "float"
    ∷ same "cosf" "float"
    ∷ same "tanf" "float"
    ∷ same "log" "double"
    ∷ same "log2" "double"
    ∷ same "log10" "double"
    ∷ same "exp" "double"
    ∷ same "hypot" "double"
    ∷ same "atan" "double"
    ∷ same "atan2" "double"
    ∷ entry "min" "fmin" "double"
    ∷ entry "max" "fmax" "double"
    ∷ []

unfoldable pub array_map : List Entry
array_map =
    entry "new" "fe_array_new" "ptr"
    ∷ entry "push" "fe_array_push" "void"
    ∷ entry "pop" "fe_array_pop" "i64"
    ∷ entry "get" "fe_array_get" "i64"
    ∷ entry "set" "fe_array_set" "void"
    ∷ entry "len" "fe_array_len" "i64"
    ∷ entry "free" "fe_array_free" "void"
    ∷ []

unfoldable pub map_map : List Entry
map_map =
    entry "new" "fe_map_new" "ptr"
    ∷ entry "set" "fe_map_set" "void"
    ∷ entry "get" "fe_map_get" "i64"
    ∷ entry "has" "fe_map_has" "i32"
    ∷ entry "delete" "fe_map_delete" "void"
    ∷ entry "free" "fe_map_free" "void"
    ∷ []

unfoldable pub mem_map : List Entry
mem_map =
    entry "alloc" "malloc" "ptr"
    ∷ same "realloc" "ptr"
    ∷ same "free" "void"
    ∷ entry "copy" "memcpy" "ptr"
    ∷ entry "set" "memset" "ptr"
    ∷ entry "cmp" "memcmp" "i32"
    ∷ entry "region_alloc" "fe_region_alloc" "ptr"
    ∷ []

unfoldable pub find_native : Bytes → List Entry → Option Entry
find_native func [] = none
find_native func (e ∷ es) = if str_eq func e.fe then some e else find_native func es

-- The native function that a name in a namespace stands for.
unfoldable pub native_call : Bytes → Bytes → Option Entry
native_call ns func =
    if is_type ns "math"
    then find_native func math_map
    else if is_type ns "array"
    then find_native func array_map
    else if is_type ns "map"
    then find_native func map_map
    else if is_type ns "mem"
    then find_native func mem_map
    else none

-- `snprintf` into 256 bytes.
unfoldable pub mangled : Bytes → Bytes → Bytes
mangled ns func = take 255 (ns ++ codes "__" ++ func)

-- The type that the function of a name returns, or else the given one.
unfoldable pub ret_type_of : Bytes → Bytes → List FirFn → Bytes
ret_type_of d name [] = d
ret_type_of d name (f ∷ fs) =
    if str_eq f.name name then or_else f.ret_type (codes "void") else ret_type_of d name fs

-- The type set on a node, if one is.
abbrev pub set_kind : Option TypeKind → NodeInfo → NodeInfo
set_kind none i = i
set_kind (some k) i = record i { ty = k }

-- A call of a native function, or of a function of a module.
unfoldable pub emit_named :
    Option Entry → Bytes → List (Bytes × Bytes) → Gen (Bytes × Option TypeKind)
emit_named (some e) name argv = do
  v ← emit_rt_call e.c e.ret argv
  pure (v, some (kind_from_ir e.ret))
emit_named none name argv = do
  ret ← reads λ c. ret_type_of (codes "i32") name (fns c)
  v ← emit_rt_call name ret argv
  pure (v, none)

-- A call in a namespace: its value, the type that the calling node gets, and the arguments. At most
-- 16 of them are passed on.
unfoldable pub emit_ns_call :
    Emit → Bytes → Bytes → AstList → Gen (Bytes × Option TypeKind × AstList)
emit_ns_call emit ns func args =
    if is_type ns "io" && is_type func "print"
    then (do r ← emit_io_print emit args; pure (r.0, none, r.1))
    else if is_type ns "io" && is_type func "println"
    then (do r ← emit_io_println emit args; pure (r.0, none, r.1))
    else do
      argv ← emit_args emit 16 args
      r ← emit_named (native_call ns func) (mangled ns func) argv.0
      pure (r.0, r.1, argv.1)
