-- ===== src/Runtime/Map.antt =====
-- rt/fermi_rt.c, `FeMap`: a hash table of 64 chains. `none` is a null pointer. The chains are a
-- function of the bucket; `fe_map_free` only gives memory back.
pub mod Laws
use Prim.Native.Nat.{bit_xor}
use fermi.Base.{
  ℕ, ◌*◌, ◌%◌, ◌^◌, Bool, true, false, List, [], ◌∷◌, Option, none, some, if◌then◌else◌, ◌==◌,
}
use fermi.Base.Int.{ℤ, pos}
use fermi.Base.Text.{Bytes, str_eq}

pub record FeMapEntry : Type 0 where
  pub key : Bytes
  pub val : ℤ

pub record FeMap : Type 0 where
  pub buckets : ℕ → List FeMapEntry

-- `h = (h ^ (uint8_t)*k) * 16777619u` over the bytes of the key.
unfoldable pub hash_from : ℕ → Bytes → ℕ
hash_from h [] = h
hash_from h (k ∷ ks) = hash_from (bit_xor h (k % 256) * 16777619 % 2 ^ 32) ks

-- `h & (FE_MAP_BUCKETS - 1)` keeps the low 6 bits.
unfoldable pub fe_map_hash : Bytes → ℕ
fe_map_hash k = hash_from 2166136261 k % 64

unfoldable pub fe_map_new : FeMap
fe_map_new = record { buckets = λ _. [] }

-- The value of the first entry with the key.
unfoldable pub lookup : Bytes → List FeMapEntry → Option ℤ
lookup key [] = none
lookup key (e ∷ es) = if str_eq e.key key then some e.val else lookup key es

unfoldable pub update : Bytes → ℤ → List FeMapEntry → List FeMapEntry
update key val [] = []
update key val (e ∷ es) =
    if str_eq e.key key then record e { val = val } ∷ es else e ∷ update key val es

unfoldable pub enter : Bytes → ℤ → List FeMapEntry → List FeMapEntry
enter key val es = elim (lookup key es) [
  | some old ↦ update key val es
  | none ↦ record { key = key; val = val } ∷ es
]

unfoldable pub remove : Bytes → List FeMapEntry → List FeMapEntry
remove key [] = []
remove key (e ∷ es) = if str_eq e.key key then es else e ∷ remove key es

-- `m->buckets[h] = es`
unfoldable pub set_bucket : FeMap → ℕ → List FeMapEntry → FeMap
set_bucket m h es = record { buckets = λ i. if i == h then es else m.buckets i }

unfoldable pub fe_map_set : Option FeMap → Option Bytes → ℤ → Option FeMap
fe_map_set none key val = none
fe_map_set (some m) none val = some m
fe_map_set (some m) (some key) val =
    some (set_bucket m (fe_map_hash key) (enter key val (m.buckets (fe_map_hash key))))

-- What a search returns: 0 where no entry has the key.
abbrev pub or_zero : Option ℤ → ℤ
or_zero none = pos 0
or_zero (some v) = v

abbrev pub is_found : Option ℤ → Bool
is_found none = false
is_found (some v) = true

unfoldable pub fe_map_get : Option FeMap → Option Bytes → ℤ
fe_map_get none key = pos 0
fe_map_get (some m) none = pos 0
fe_map_get (some m) (some key) = or_zero (lookup key (m.buckets (fe_map_hash key)))

unfoldable pub fe_map_has : Option FeMap → Option Bytes → Bool
fe_map_has none key = false
fe_map_has (some m) none = false
fe_map_has (some m) (some key) = is_found (lookup key (m.buckets (fe_map_hash key)))

unfoldable pub fe_map_delete : Option FeMap → Option Bytes → Option FeMap
fe_map_delete none key = none
fe_map_delete (some m) none = some m
fe_map_delete (some m) (some key) =
    some (set_bucket m (fe_map_hash key) (remove key (m.buckets (fe_map_hash key))))
