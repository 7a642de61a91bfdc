-- ===== src/Opt/Defs.antt =====
-- src/feopt/opt.c: the table of the constants that variables hold, `def_set`, `def_get`, `def_kill`.
pub mod Laws
use fermi.Base.{
  ℕ, suc, ◌+◌, Bool, true, false, List, [], ◌∷◌, ◌++◌, Option, none, some, if◌then◌else◌, length,
  ltb,
}
use fermi.Base.Text.{Bytes, str_eq}

pub record Def : Type 0 where
  pub name : Bytes
  pub val : Bytes
  pub type : Option Bytes

abbrev pub max_defs : ℕ
max_defs = 1024

-- The first entry of a name.
unfoldable pub find : Bytes → List Def → Option Def
find name [] = none
find name (d ∷ ds) = if str_eq d.name name then some d else find name ds

unfoldable pub def_get : Bytes → List Def → Option Bytes
unfolding find
def_get name ds = elim (find name ds) [ none ↦ none | some d ↦ some d.val ]

unfoldable pub update_def : Def → List Def → List Def
update_def new [] = []
update_def new (d ∷ ds) = if str_eq d.name new.name then new ∷ ds else d ∷ update_def new ds

-- An entry of that name gets the value; else a new one is added if there is room.
unfoldable pub def_set : Bytes → Bytes → Option Bytes → List Def → List Def
def_set name val type ds =
    let new : Def = record { name = name; val = val; type = type } in
    elim (find name ds) [
      | some d ↦ update_def new ds
      | none ↦ if ltb (length ds) max_defs then ds ++ new ∷ [] else ds
    ]

-- `defs[i] = defs[--def_count]` on the entries from `i`: the last takes the place of the first.
unfoldable pub behind_first : Def → List Def → List Def
behind_first d [] = []
behind_first d (l ∷ rest) = l ∷ d ∷ rest

unfoldable pub move_last : List Def → List Def
unfolding behind_first
move_last [] = []
move_last (d ∷ []) = d ∷ []
move_last (d ∷ e ∷ ds) = behind_first d (move_last (e ∷ ds))

unfoldable pub def_kill : Bytes → List Def → List Def
def_kill name [] = []
def_kill name (d ∷ ds) = if str_eq d.name name then move_last ds else d ∷ def_kill name ds
