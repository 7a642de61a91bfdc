-- ===== src/Opt/Defs/Laws.antt =====
-- The table of constants is a finite map.
use fermi.Base.{
  ◌&&◌, ◌||◌, ◌≡◌, ◌≢◌, refl, ◌∙◌, arith, Bool, true, false, List, [], ◌∷◌, ◌++◌, Option, none,
  some, if◌then◌else◌, length, ltb,
}
use fermi.Base.Text.{Bytes, str_eq, str_eq_iff}
use fermi.Opt.Defs.{
  Def, max_defs, find, behind_first, def_get, update_def, def_set, move_last, def_kill,
}

abbrev pub is_some {ℓ} : {A : Type ℓ} → Option A → Bool
is_some none = false
is_some (some x) = true

-- No name has two entries.
abbrev pub Unique : List Def → Type 0
Unique [] = Unit
Unique (d ∷ ds) = (find d.name ds ≡ none) × Unique ds

find-update_def :
    (q : Bytes) (new : Def) (ds : List Def)
    → find new.name ds ≢ none
    → find q (update_def new ds) ≡ (if str_eq new.name q then some new else find q ds)
unfolding find update_def
find-update_def q new [] h = absurd (h refl)
find-update_def q new (d ∷ ds) h = ground (
  arith,
  find-update_def q new ds,
  str_eq_iff d.name new.name,
  str_eq_iff d.name q,
  str_eq_iff new.name q,
)

find-append :
    (q : Bytes) (ds : List Def) (new : Def)
    → find new.name ds ≡ none
    → find q (ds ++ new ∷ []) ≡ (if str_eq new.name q then some new else find q ds)
unfolding find
find-append q [] new h = refl
find-append q (d ∷ ds) new h = ground (
  arith,
  find-append q ds new,
  str_eq_iff d.name new.name,
  str_eq_iff d.name q,
  str_eq_iff new.name q,
)

find-behind_first :
    (q : Bytes) (d : Def) (xs : List Def)
    → xs ≢ []
    → find d.name xs ≡ none
    → find q (behind_first d xs) ≡ (if str_eq d.name q then some d else find q xs)
unfolding find behind_first
find-behind_first q d [] ne h = absurd (ne refl)
find-behind_first q d (l ∷ rest) ne h =
    ground (arith, str_eq_iff d.name q, str_eq_iff l.name q, str_eq_iff l.name d.name)

behind_first-ne-nil : (d : Def) (xs : List Def) → xs ≢ [] → behind_first d xs ≢ []
unfolding behind_first
behind_first-ne-nil d [] ne e = ne refl
behind_first-ne-nil d (l ∷ rest) ne e = cc

move_last-ne-nil : (d : Def) (ds : List Def) → move_last (d ∷ ds) ≢ []
unfolding move_last
move_last-ne-nil d [] e = cc
move_last-ne-nil d (e ∷ ds) h = behind_first-ne-nil d (move_last (e ∷ ds)) (move_last-ne-nil e ds) h

find-move_last_step :
    (q : Bytes) (d e : Def) (ds : List Def)
    → find d.name (move_last (e ∷ ds)) ≡ none
    → find q (move_last (e ∷ ds)) ≡ find q (e ∷ ds)
    → find q (move_last (d ∷ e ∷ ds)) ≡ find q (d ∷ e ∷ ds)
find-move_last_step q d e ds h ih =
    unfold move_last in
    find-behind_first q d (move_last (e ∷ ds)) (move_last-ne-nil e ds) h
    ∙ (unfold find in rw ih refl)

-- Moving the last entry to the front changes no lookup.
find-move_last : (q : Bytes) (ds : List Def) → Unique ds → find q (move_last ds) ≡ find q ds
find-move_last q [] u = unfold move_last in refl
find-move_last q (d ∷ []) u = unfold move_last in refl
find-move_last q (d ∷ e ∷ ds) u =
    find-move_last_step q d e ds (find-move_last d.name (e ∷ ds) u.1 ∙ u.0)
      (find-move_last q (e ∷ ds) u.1)

find-def_kill :
    (name q : Bytes) (ds : List Def)
    → Unique ds
    → find q (def_kill name ds) ≡ (if str_eq name q then none else find q ds)
unfolding find def_kill
find-def_kill name q [] u = ground arith
find-def_kill name q (d ∷ ds) u = ground (
  arith,
  find-def_kill name q ds u.1,
  find-move_last q ds u.1,
  str_eq_iff d.name name,
  str_eq_iff d.name q,
  str_eq_iff name q,
)

behind_first-Unique :
    (d : Def) (xs : List Def) → find d.name xs ≡ none → Unique xs → Unique (behind_first d xs)
unfolding find behind_first
behind_first-Unique d [] h u = tt
behind_first-Unique d (l ∷ rest) h u =
    ground (arith, str_eq_iff l.name d.name, str_eq_iff d.name l.name)

move_last-Unique : (ds : List Def) → Unique ds → Unique (move_last ds)
unfolding move_last
move_last-Unique [] u = tt
move_last-Unique (d ∷ []) u = u
move_last-Unique (d ∷ e ∷ ds) u =
    behind_first-Unique d (move_last (e ∷ ds)) (find-move_last d.name (e ∷ ds) u.1 ∙ u.0)
      (move_last-Unique (e ∷ ds) u.1)

def_kill-Unique : (name : Bytes) (ds : List Def) → Unique ds → Unique (def_kill name ds)
unfolding def_kill
def_kill-Unique name [] u = tt
def_kill-Unique name (d ∷ ds) u =
    ground (
      arith,
      move_last-Unique ds u.1,
      def_kill-Unique name ds u.1,
      find-def_kill name d.name ds u.1,
    )

-- In a table without double names: after `def_kill` there is none either, and a lookup of `q`
-- gives nothing if `q` is that name, else what it gave before.
pub def_kill_lem :
    (name q : Bytes) (ds : List Def)
    → Unique ds
    → Unique (def_kill name ds)
      × (def_get q (def_kill name ds) ≡ (if str_eq name q then none else def_get q ds))
unfolding def_get
def_kill_lem name q ds u = (def_kill-Unique name ds u, ground (arith, find-def_kill name q ds u))

update_def-find-none :
    (new : Def) (ds : List Def) (q : Bytes) → find q ds ≡ none → find q (update_def new ds) ≡ none
unfolding update_def find
update_def-find-none new [] q h = refl
update_def-find-none new (d ∷ ds) q h = ground (
  arith,
  update_def-find-none new ds q,
  str_eq_iff d.name new.name,
  str_eq_iff d.name q,
  str_eq_iff new.name q,
)

update_def-Unique : (new : Def) (ds : List Def) → Unique ds → Unique (update_def new ds)
unfolding update_def find
update_def-Unique new [] u = tt
update_def-Unique new (d ∷ ds) u = ground (
  arith,
  update_def-Unique new ds u.1,
  update_def-find-none new ds d.name,
  str_eq_iff d.name new.name,
  str_eq_iff new.name d.name,
)

append-Unique :
    (ds : List Def) (new : Def) → find new.name ds ≡ none → Unique ds → Unique (ds ++ new ∷ [])
unfolding find
append-Unique [] new h u = (refl, tt)
append-Unique (d ∷ ds) new h u = ground (
  arith,
  append-Unique ds new,
  find-append d.name ds new,
  str_eq_iff d.name new.name,
  str_eq_iff new.name d.name,
)

-- In a table without double names: after `def_set` there is none either, and a lookup of `q`
-- gives the new value if `q` is that name and the name was known or there was room, else what
-- it gave before.
pub def_set_lem :
    (name val q : Bytes) (type : Option Bytes) (ds : List Def)
    → Unique ds
    → Unique (def_set name val type ds)
      × (def_get q (def_set name val type ds) ≡ (
          if str_eq name q && (is_some (def_get name ds) || ltb (length ds) max_defs)
          then some val
          else def_get q ds))
unfolding def_get def_set
def_set_lem name val q type ds u = (
  ground (arith, append-Unique ds new, update_def-Unique new ds u),
  ground (arith, find-append q ds new, find-update_def q new ds),
)
  where
    new : Def
    new = record { name = name; val = val; type = type }
