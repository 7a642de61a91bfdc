-- ===== src/Tests/Library.antt =====
-- The runtime library and the error kinds on small data.
use fermi.Base.{
  true, ◌^◌, ◌-◌, ◌≤◌, length, ◌≡◌, refl, arith, not, ◌&&◌, ◌||◌, [], ◌∷◌, some, if◌then◌else◌,
  get_or, ℕ, zero, suc, ◌<◌,
}
use fermi.Base.Int.{pos, negsuc}
use fermi.Base.Text.{codes, str_eq}
use fermi.IoError.{Errno}
use fermi.Opt.Const.{atoll}
use fermi.Runtime.Array.{FeArray, fe_array_push, fe_array_pop, fe_array_get, fe_array_set}
use fermi.Runtime.Array.Refines.{
  Holds, HoldsAt, replace_at, fe_array_push-Holds, fe_array_pop-Holds, fe_array_get-Holds,
  fe_array_set-Holds,
}
use fermi.Runtime.Map.{FeMap, fe_map_set, fe_map_get, fe_map_has, fe_map_delete, lookup}
use fermi.Runtime.Map.Laws.{IsValid, MapIsValid, fe_map_set_lem, fe_map_delete_lem}
use fermi.Runtime.Region.{
  Regions, closed, fe_region_pop, fe_region_push, fe_region_pop-push, fe_region_pop-outer,
  fe_region_pop-full,
}
use fermi.Runtime.Text.{fmt_i64_internal}
use fermi.Runtime.Text.Laws.{is_canonical, fmt_i64_internal-atoll}

abbrev map : FeMap
map = record { buckets = λ _. record { key = codes "k"; val = pos 7 } ∷ [] }

map-IsValid : IsValid map
unfolding lookup
map-IsValid i = (refl, tt)

fe_map_set_lem_example :
    (fe_map_get (fe_map_set (some map) (some (codes "k")) (pos 3)) (some (codes "q")) ≡ (
      if str_eq (codes "k") (codes "q") then pos 3 else fe_map_get (some map) (some (codes "q"))))
    × (fe_map_has (fe_map_set (some map) (some (codes "k")) (pos 3)) (some (codes "q"))
        ≡ (str_eq (codes "k") (codes "q") || fe_map_has (some map) (some (codes "q"))))
fe_map_set_lem_example = fe_map_set_lem map (codes "k") (codes "q") (pos 3)

fe_map_delete_lem_example :
    (fe_map_get (fe_map_delete (some map) (some (codes "k"))) (some (codes "k")) ≡ (
      if str_eq (codes "k") (codes "k") then pos 0 else fe_map_get (some map) (some (codes "k"))))
    × (fe_map_has (fe_map_delete (some map) (some (codes "k"))) (some (codes "k"))
        ≡ (not (str_eq (codes "k") (codes "k")) && fe_map_has (some map) (some (codes "k"))))
    × MapIsValid (fe_map_delete (some map) (some (codes "k")))
fe_map_delete_lem_example = fe_map_delete_lem map (codes "k") (codes "k") map-IsValid

-- A full array of one value.
abbrev array : FeArray
array = record { data_at = λ _. some (pos 5); len = 1; cap = 1 }

array-Holds : Holds array (pos 5 ∷ [])
array-Holds = record { len_is = refl; within = omega arith; room = omega arith; values = only }
  where
    only : (i : ℕ) → i < 1 → some (pos 5) ≡ some (get_or (pos 5 ∷ []) i (pos 0))
    only zero h = refl
    only (suc i) h = absurd (omega arith)

fe_array_push-Holds_example : HoldsAt (fe_array_push (some array) (pos 6)) (pos 5 ∷ pos 6 ∷ [])
fe_array_push-Holds_example = fe_array_push-Holds array (pos 5 ∷ []) (pos 6) array-Holds

fe_array_pop-Holds_example :
    ((fe_array_pop (some array)).0 ≡ some (pos 5)) × HoldsAt (fe_array_pop (some array)).1 []
fe_array_pop-Holds_example = fe_array_pop-Holds array [] (pos 5) array-Holds

fe_array_get-Holds_example :
    (fe_array_get (some array) (pos 1) ≡ some (get_or (pos 5 ∷ []) 1 (pos 0)))
    × (fe_array_get (some array) (negsuc 1) ≡ some (pos 0))
fe_array_get-Holds_example = fe_array_get-Holds array (pos 5 ∷ []) 1 array-Holds

fe_array_set-Holds_example :
    HoldsAt (fe_array_set (some array) (pos 0) (pos 8)) (replace_at (pos 5 ∷ []) 0 (pos 8))
    × (fe_array_set (some array) (negsuc 0) (pos 8) ≡ some array)
fe_array_set-Holds_example = fe_array_set-Holds array (pos 5 ∷ []) 0 (pos 8) array-Holds

-- One open region with the block 9, and 32 of them.
abbrev one_region : Regions
one_region = record { heads = λ _. 9 ∷ []; depth = 1 }

abbrev all_regions : Regions
all_regions = record { heads = λ _. 9 ∷ []; depth = 32 }

fe_region_pop-push_example :
    ((closed one_region (4 ∷ 3 ∷ [])).0 ≡ 4 ∷ 3 ∷ [])
    × ((closed one_region (4 ∷ 3 ∷ [])).1.depth ≡ 1)
fe_region_pop-push_example = fe_region_pop-push one_region (4 ∷ 3 ∷ []) (omega arith)

fe_region_pop-outer_example : (closed one_region (4 ∷ [])).1.heads 0 ≡ 9 ∷ []
fe_region_pop-outer_example = fe_region_pop-outer one_region (4 ∷ []) 0 (omega arith) (omega arith)

fe_region_pop-full_example : (fe_region_pop (fe_region_push all_regions)).0 ≡ 9 ∷ []
fe_region_pop-full_example = fe_region_pop-full all_regions refl

fmt_i64_internal-atoll_example :
    (atoll (fmt_i64_internal (negsuc (2 ^ 63 - 1))) ≡ negsuc (2 ^ 63 - 1))
    × (length (fmt_i64_internal (negsuc (2 ^ 63 - 1))) ≤ 20)
    × (is_canonical (fmt_i64_internal (negsuc (2 ^ 63 - 1))) ≡ true)
fmt_i64_internal-atoll_example = fmt_i64_internal-atoll (negsuc (2 ^ 63 - 1)) (omega arith)

-- The numbers that Linux has.
abbrev linux : Errno
linux = record { enoent = 2; eacces = 13; eexist = 17; enospc = 28; enomem = 12; eintr = 4 }
