-- ===== src/Codegen/Native.antt =====
-- src/fecodegen/codegen.c, `emit_expr`: the types of the functions that the runtime and the C
-- library have, and the functions that stand for `alloc` and `realloc`.
use Prim.Native.String.{String}
use fermi.Base.{Bool, List, [], ◌∷◌, ◌++◌, map, if◌then◌else◌}
use fermi.Base.Text.{Bytes, codes, str_eq}
use fermi.Codegen.Types.{is_type}

abbrev returning : String → List String → List (Bytes × Bytes)
returning ret names = map (λ (s : String). (codes s, codes ret)) names

unfoldable pub rt_types : List (Bytes × Bytes)
rt_types =
    returning "ptr" (
      "fe_alloc" ∷ "fe_realloc" ∷ "fe_region_alloc" ∷ "malloc" ∷ "calloc" ∷ "realloc" ∷ "fe_input"
      ∷ "fe_concat" ∷ "fe_to_upper" ∷ "fe_to_lower" ∷ "fe_trim" ∷ "fe_slice" ∷ "fe_replace"
      ∷ "fe_int_to_str" ∷ "fe_float_to_str" ∷ "fe_getcwd" ∷ "fe_read_file" ∷ "fe_str_split"
      ∷ "fe_split" ∷ "memcpy" ∷ "memmove" ∷ "memset" ∷ "strcpy" ∷ "strcat" ∷ "strstr" ∷ "getenv"
      ∷ "fgets" ∷ "fopen" ∷ [])
    ++ returning "i32" (
        "fe_len" ∷ "fe_contains" ∷ "fe_starts_with" ∷ "fe_ends_with" ∷ "fe_index_of"
        ∷ "fe_parse_int" ∷ [])
    ++ returning "i64" ("fe_time" ∷ [])
    ++ returning "void" ("fe_sleep" ∷ "fe_flush" ∷ "free" ∷ "exit" ∷ [])

unfoldable pub find_rt : Bytes → Bytes → List (Bytes × Bytes) → Bytes
find_rt d name [] = d
find_rt d name (t ∷ ts) = if str_eq name t.0 then t.1 else find_rt d name ts

-- The table is asked only where the type is `i32` so far.
unfoldable pub native_ret : Bytes → Bytes → Bytes
native_ret ret name = if is_type ret "i32" then find_rt ret name rt_types else ret

-- In a region both take their memory from it.
unfoldable pub actual_fn : Bool → Bytes → Bytes
actual_fn in_region name =
    if is_type name "alloc"
    then (if in_region then codes "fe_region_alloc" else codes "fe_alloc")
    else if is_type name "realloc"
    then (if in_region then codes "fe_region_alloc" else codes "fe_realloc")
    else name
