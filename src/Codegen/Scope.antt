-- ===== src/Codegen/Scope.antt =====
-- src/fecodegen/codegen.c: the variables in scope, the enums and the structs.
use fermi.Base.{
  ℕ, suc, ◌-◌, true, false, List, [], ◌∷◌, Option, none, some, length, drop, ltb, if◌then◌else◌,
}
use fermi.Base.Text.{Bytes, str_eq}
use fermi.Codegen.{Codegen, Gen, VarEntry, EnumInfo, StructInfo}

abbrev pub max_vars : ℕ
max_vars = 256

-- `scope_base` has 64 places, and the source does not test that one is left.
unfoldable pub scope_push : Gen Unit
scope_push c =
    if ltb (length c.scope_base) 64
    then some (tt, record c { scope_base = length c.vars ∷ c.scope_base })
    else none

-- The entries of an outer scope: those that stand first in the array.
abbrev pub first_vars : ℕ → List VarEntry → List VarEntry
first_vars n vs = drop (length vs - n) vs

abbrev pub leave_scope : Codegen → List ℕ → Codegen
leave_scope c [] = c
leave_scope c (base ∷ bases) = record c { vars = first_vars base c.vars; scope_base = bases }

unfoldable pub scope_pop : Gen Unit
scope_pop c = some (tt, leave_scope c c.scope_base)

-- An entry that has no room is dropped.
abbrev pub add_var : VarEntry → Codegen → Codegen
add_var e c = if ltb (length c.vars) max_vars then record c { vars = e ∷ c.vars } else c

unfoldable pub var_def : Bytes → Bytes → Bytes → Gen Unit
var_def name type slot c =
    some (tt, add_var (record { name = name; type = type; slot = slot; is_mut = false }) c)

unfoldable pub var_def_mut : Bytes → Bytes → Bytes → Gen Unit
var_def_mut name type slot c =
    some (tt, add_var (record { name = name; type = type; slot = slot; is_mut = true }) c)

unfoldable pub find_var : Bytes → List VarEntry → Option VarEntry
find_var name [] = none
find_var name (e ∷ es) = if str_eq e.name name then some e else find_var name es

unfoldable pub var_lookup : Bytes → Codegen → Option VarEntry
var_lookup name c = find_var name c.vars

unfoldable pub find_enum_in : Bytes → List EnumInfo → Option EnumInfo
find_enum_in name [] = none
find_enum_in name (e ∷ es) = if str_eq e.name name then some e else find_enum_in name es

unfoldable pub find_enum : Bytes → Codegen → Option EnumInfo
find_enum name c = find_enum_in name c.enums

-- The place of a name among pairs, counted from `j`.
unfoldable pub index_from : ℕ → Bytes → List (Bytes × Bytes) → Option ℕ
index_from j name [] = none
index_from j name (v ∷ vs) = if str_eq v.0 name then some j else index_from (suc j) name vs

unfoldable pub find_variant_in : Bytes → List EnumInfo → Option (ℕ × EnumInfo)
find_variant_in name [] = none
find_variant_in name (e ∷ es) = elim (index_from 0 name e.variants) [
  | none ↦ find_variant_in name es
  | some j ↦ some (j, e)
]

-- `none` stands for -1.
unfoldable pub find_enum_variant : Bytes → Codegen → Option (ℕ × EnumInfo)
find_enum_variant variant_name c = find_variant_in variant_name c.enums

unfoldable pub find_struct_in : Bytes → List StructInfo → Option StructInfo
find_struct_in name [] = none
find_struct_in name (s ∷ ss) = if str_eq s.name name then some s else find_struct_in name ss

unfoldable pub find_struct : Bytes → Codegen → Option StructInfo
find_struct name c = find_struct_in name c.structs
