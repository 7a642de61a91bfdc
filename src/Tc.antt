-- ===== src/Tc.antt =====
-- src/fetc/tc.c and tc.h: the type checker. The scopes are a stack, the innermost first. The writes to
-- `ty` and `ty_name` of nodes and the diagnostics are lists, the last one first; a node in a write is
-- told by its fields. `cur_ret`, which is set by nothing,
-- and the path that messages name are left out.
pub mod Infer
pub mod Stmt
pub mod Tree
pub mod Unseen
pub mod Kinds
pub mod Checked
pub mod Typing
pub mod Judge
pub mod Fit
pub mod Verdicts
use Prim.Native.String.{String}
use fermi.Base.{ℕ, Bool, true, false, ◌||◌, List, [], ◌∷◌, Option, none, some, if◌then◌else◌, ◌==◌}
use fermi.Base.Text.{Bytes, codes, str_eq}
use fermi.Ast.{
  TypeKind, TypeNode, NodeInfo, ty_void, ty_bool, ty_byte, ty_short, ty_ushort, ty_int, ty_uint,
  ty_long, ty_ulong, ty_float, ty_double, ty_unknown, no_type, type_node,
}

pub record TcEntry : Type 0 where
  pub name : Bytes
  pub ty : TypeKind
  pub ty_name : Option Bytes

-- A write of `ty`, and of `ty_name` where the node is an identifier.
pub record Write : Type 0 where
  pub node : NodeInfo
  pub ty : TypeKind
  pub ty_name : Option Bytes

pub record TypeDiag : Type 0 where
  pub line : ℕ
  pub col : ℕ
  pub msg : Bytes

pub record Tc : Type 0 where
  pub scopes : List (List TcEntry)
  pub had_error : Bool
  pub diags : List TypeDiag
  pub writes : List Write

unfoldable pub sc_push : Tc → Tc
sc_push t = record t { scopes = [] ∷ t.scopes }

abbrev pub outer_scopes : List (List TcEntry) → List (List TcEntry)
outer_scopes [] = []
outer_scopes (sc ∷ scs) = scs

unfoldable pub sc_pop : Tc → Tc
sc_pop t = record t { scopes = outer_scopes t.scopes }

-- The source reads the current scope without a test; there always is one.
abbrev pub add_entry : TcEntry → List (List TcEntry) → List (List TcEntry)
add_entry e [] = []
add_entry e (sc ∷ scs) = (e ∷ sc) ∷ scs

unfoldable pub sc_def : Bytes → TypeKind → Option Bytes → Tc → Tc
sc_def name ty ty_name t = record t {
  scopes = add_entry (record { name = name; ty = ty; ty_name = ty_name }) t.scopes;
}

unfoldable pub find_entry : Bytes → List TcEntry → Option TcEntry
find_entry name [] = none
find_entry name (e ∷ es) = if str_eq e.name name then some e else find_entry name es

unfoldable pub find_scope : Bytes → List (List TcEntry) → Option TcEntry
find_scope name [] = none
find_scope name (sc ∷ scs) = elim (find_entry name sc) [
  | some e ↦ some e
  | none ↦ find_scope name scs
]

unfoldable pub sc_lookup : Bytes → Tc → Option TcEntry
sc_lookup name t = find_scope name t.scopes

-- `n->ty = ty`
unfoldable pub set_ty : NodeInfo → TypeKind → Option Bytes → Tc → Tc
set_ty i ty ty_name t = record t {
  writes = record { node = i; ty = ty; ty_name = ty_name } ∷ t.writes;
}

unfoldable pub terr : NodeInfo → Bytes → Tc → Tc
terr i msg t = record t {
  had_error = true;
  diags = record { line = i.line; col = i.col; msg = msg } ∷ t.diags;
}

-- `int` where there is no type.
abbrev pub typenode_kind : TypeNode → TypeKind
typenode_kind no_type = ty_int
typenode_kind (type_node k inner array_size name) = k

abbrev pub type_name : TypeNode → Option Bytes
type_name no_type = none
type_name (type_node k inner array_size name) = name

-- The kinds that decide a promotion, from the strongest.
abbrev pub rank : TypeKind → ℕ
rank ty_double = 5
rank ty_float = 4
rank ty_long = 3
rank ty_ulong = 2
rank ty_uint = 1
rank _ = 0

-- `a == k || b == k`, for the kind of a rank.
abbrev pub either : ℕ → TypeKind → TypeKind → Bool
either k a b = rank a == k || rank b == k

unfoldable pub promote : TypeKind → TypeKind → TypeKind
promote a b =
    if either 5 a b
    then ty_double
    else if either 4 a b
    then ty_float
    else if either 3 a b
    then ty_long
    else if either 2 a b
    then ty_ulong
    else if either 1 a b
    then ty_uint
    else ty_int

unfoldable pub is_integral : TypeKind → Bool
is_integral ty_bool = true
is_integral ty_byte = true
is_integral ty_short = true
is_integral ty_ushort = true
is_integral ty_int = true
is_integral ty_uint = true
is_integral ty_long = true
is_integral ty_ulong = true
is_integral ty_unknown = true
is_integral _ = false

unfoldable pub is_numeric : TypeKind → Bool
is_numeric ty_byte = true
is_numeric ty_short = true
is_numeric ty_ushort = true
is_numeric ty_int = true
is_numeric ty_uint = true
is_numeric ty_long = true
is_numeric ty_ulong = true
is_numeric ty_float = true
is_numeric ty_double = true
is_numeric _ = false

unfoldable pub def_builtins : Tc → Tc
unfolding sc_def
def_builtins t = builtin "None" (builtin "Some" (builtin "Err" (builtin "Ok" t)))
  where
    builtin : String → Tc → Tc
    builtin name t = sc_def (codes name) ty_void none t

unfoldable pub tc_new : Tc
unfolding def_builtins sc_push
tc_new = def_builtins (sc_push (record { scopes = []; had_error = false; diags = []; writes = [] }))
