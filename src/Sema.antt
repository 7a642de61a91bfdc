-- ===== src/Sema.antt =====
-- src/fesema/sema.c and sema.h: the analysis of scopes. The scopes are a stack, the innermost first;
-- what is written to the standard error is the list of diagnostics, the last one first,
-- without the path that they name.
pub mod Check
pub mod Env
pub mod Stack
pub mod Agree
pub mod Scoping
use fermi.Base.{
  ℕ, Bool, true, false, not, ◌&&◌, List, [], ◌∷◌, ◌++◌, Option, none, some, if◌then◌else◌, take,
}
use Prim.Native.String.{String}
use fermi.Base.Text.{Bytes, codes, str_eq}
use fermi.Ast.{NodeInfo}

pub record SymE : Type 0 where
  pub name : Bytes
  pub is_mut : Bool
  pub is_const : Bool

pub record Diag : Type 0 where
  pub line : ℕ
  pub col : ℕ
  pub code : Bytes
  pub msg : Bytes

pub record Sema : Type 0 where
  pub scopes : List (List SymE)
  pub had_error : Bool
  pub diags : List Diag

unfoldable pub serr : NodeInfo → Bytes → Bytes → Sema → Sema
serr i code msg s = record s {
  had_error = true;
  diags = record { line = i.line; col = i.col; code = code; msg = msg } ∷ s.diags;
}

unfoldable pub sc_push : Sema → Sema
sc_push s = record s { scopes = [] ∷ s.scopes }

abbrev pub outer_scopes : List (List SymE) → List (List SymE)
outer_scopes [] = []
outer_scopes (sc ∷ scs) = scs

unfoldable pub sc_pop : Sema → Sema
sc_pop s = record s { scopes = outer_scopes s.scopes }

-- The source reads the current scope without a test; there always is one.
abbrev pub add_entry : SymE → List (List SymE) → List (List SymE)
add_entry e [] = []
add_entry e (sc ∷ scs) = (e ∷ sc) ∷ scs

unfoldable pub sc_def : Bytes → Bool → Bool → Sema → Sema
sc_def name is_mut is_const s = record s {
  scopes = add_entry (record { name = name; is_mut = is_mut; is_const = is_const }) s.scopes;
}

unfoldable pub find_entry : Bytes → List SymE → Option SymE
find_entry name [] = none
find_entry name (e ∷ es) = if str_eq e.name name then some e else find_entry name es

unfoldable pub find_scope : Bytes → List (List SymE) → Option SymE
find_scope name [] = none
find_scope name (sc ∷ scs) = elim (find_entry name sc) [
  | some e ↦ some e
  | none ↦ find_scope name scs
]

unfoldable pub sc_lookup : Bytes → Sema → Option SymE
sc_lookup name s = find_scope name s.scopes

-- `snprintf` into 256 bytes.
abbrev pub message : Bytes → Bytes → Bytes
message text name = take 255 (text ++ name ++ codes "'")

abbrev pub read_only : Bytes → Bytes
read_only name = message (codes "reassignment of read-only identifier '") name

abbrev pub undeclared : Bytes → Bytes
undeclared name = message (codes "use of undeclared identifier '") name

-- Whether the entry that was found forbids an assignment, and whether a use of the name is wrong.
abbrev pub forbids : Option SymE → Bool
forbids none = false
forbids (some e) = not e.is_mut

abbrev pub is_unknown : Bytes → Option SymE → Bool
is_unknown name (some e) = false
is_unknown name none = not (str_eq name (codes "null")) && not (str_eq name (codes "nullptr"))

unfoldable pub sema_new : Sema
sema_new = record {
  scopes = (builtin "None" ∷ builtin "Some" ∷ builtin "Err" ∷ builtin "Ok" ∷ []) ∷ [];
  had_error = false;
  diags = [];
}
  where
    builtin : String → SymE
    builtin name = record { name = codes name; is_mut = false; is_const = true }
