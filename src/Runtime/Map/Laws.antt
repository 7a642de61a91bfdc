-- ===== src/Runtime/Map/Laws.antt =====
-- The hash table is a finite map from keys to values.
use fermi.Base.{
  ℕ, ◌≡◌, ◌≢◌, ◌∙◌, refl, sym, ap, arith, Bool, true, false, not, ◌&&◌, ◌||◌, List, [], ◌∷◌, Option,
  none, some, if◌then◌else◌, ◌==◌, ==_iff, Bool-cases, Option-cases, inl, inr,
}
use fermi.Base.Int.{ℤ, pos}
use fermi.Base.Text.{Bytes, str_eq, str_eq_iff}
use fermi.Runtime.Map.{
  FeMapEntry, FeMap, fe_map_hash, lookup, update, enter, remove, set_bucket, fe_map_new, fe_map_set,
  fe_map_get, fe_map_has, fe_map_delete, or_zero, is_found,
}

lookup-update :
    (key q : Bytes) (val : ℤ) (es : List FeMapEntry)
    → lookup key es ≢ none
    → lookup q (update key val es) ≡ (if str_eq key q then some val else lookup q es)
unfolding lookup update
lookup-update key q val [] h = ground arith
lookup-update key q val (e ∷ es) h =
    ground (
      arith,
      lookup-update key q val es,
      str_eq_iff e.key key,
      str_eq_iff key q,
      str_eq_iff e.key q,
    )

lookup-enter :
    (key q : Bytes) (val : ℤ) (es : List FeMapEntry)
    → lookup q (enter key val es) ≡ (if str_eq key q then some val else lookup q es)
unfolding enter
lookup-enter key q val es = elim (Option-cases (lookup key es)) [
  | inl e ↦ rw (e, enter) (unfold lookup in refl)
  | inr (v, e) ↦ rw (e, enter) (lookup-update key q val es (ground arith))
]

-- No key has two entries in a chain.
abbrev pub Distinct : List FeMapEntry → Type 0
Distinct [] = Unit
Distinct (e ∷ es) = (lookup e.key es ≡ none) × Distinct es

lookup-remove :
    (key q : Bytes) (es : List FeMapEntry)
    → Distinct es
    → lookup q (remove key es) ≡ (if str_eq key q then none else lookup q es)
unfolding lookup remove
lookup-remove key q [] d = ground arith
lookup-remove key q (e ∷ es) d =
    ground
      (arith, lookup-remove key q es, str_eq_iff e.key key, str_eq_iff key q, str_eq_iff e.key q)

lookup-update-none :
    (key q : Bytes) (val : ℤ) (es : List FeMapEntry)
    → lookup q es ≡ none
    → lookup q (update key val es) ≡ none
unfolding lookup update
lookup-update-none key q val [] h = refl
lookup-update-none key q val (e ∷ es) h = ground (arith, lookup-update-none key q val es)

update-Distinct :
    (key : Bytes) (val : ℤ) (es : List FeMapEntry) → Distinct es → Distinct (update key val es)
unfolding update
update-Distinct key val [] d = tt
update-Distinct key val (e ∷ es) d =
    ground (arith, update-Distinct key val es, lookup-update-none key e.key val es)

enter-Distinct :
    (key : Bytes) (val : ℤ) (es : List FeMapEntry) → Distinct es → Distinct (enter key val es)
unfolding enter
enter-Distinct key val es d = elim (Option-cases (lookup key es)) [
  | inl e ↦ rw (e, enter) (e, d)
  | inr (v, e) ↦ rw (e, enter) (update-Distinct key val es d)
]

lookup-remove-none :
    (key q : Bytes) (es : List FeMapEntry) → lookup q es ≡ none → lookup q (remove key es) ≡ none
unfolding lookup remove
lookup-remove-none key q [] h = refl
lookup-remove-none key q (e ∷ es) h = ground (arith, lookup-remove-none key q es)

remove-Distinct : (key : Bytes) (es : List FeMapEntry) → Distinct es → Distinct (remove key es)
unfolding remove
remove-Distinct key [] d = tt
remove-Distinct key (e ∷ es) d =
    ground (arith, remove-Distinct key es, lookup-remove-none key e.key es)

-- Every chain is without double keys.
abbrev pub IsValid : FeMap → Type 0
IsValid m = (i : ℕ) → Distinct (m.buckets i)

set_bucket-IsValid :
    (m : FeMap) (h : ℕ) (es : List FeMapEntry)
    → IsValid m
    → Distinct es
    → IsValid (set_bucket m h es)
unfolding set_bucket
set_bucket-IsValid m h es v d i = elim (Bool-cases (i == h)) [ inl e ↦ rw e d | inr e ↦ rw e (v i) ]

-- What a table holds for a key.
abbrev pub stored : FeMap → Bytes → Option ℤ
stored m q = lookup q (m.buckets (fe_map_hash q))

-- Keys in different buckets differ.
str_eq-hash : (key q : Bytes) → (fe_map_hash q == fe_map_hash key) ≡ false → str_eq key q ≡ false
str_eq-hash key q e = elim (Bool-cases (str_eq key q)) [
  | inl s ↦
      let same : fe_map_hash q ≡ fe_map_hash key = ap fe_map_hash (sym ((str_eq_iff key q).0 s)) in
      absurd (ground (arith, same))
  | inr s ↦ s
]

-- A chain that answers for one changed key gives a table that does.
stored-set_bucket :
    (m : FeMap) (key q : Bytes) (es : List FeMapEntry) (new : Option ℤ)
    → ((p : Bytes)
        → lookup p es ≡ (if str_eq key p then new else lookup p (m.buckets (fe_map_hash key))))
    → stored (set_bucket m (fe_map_hash key) es) q ≡ (if str_eq key q then new else stored m q)
unfolding set_bucket
stored-set_bucket m key q es new h = elim (Bool-cases (fe_map_hash q == fe_map_hash key)) [
  | inl e ↦ let same : fe_map_hash q ≡ fe_map_hash key = (==_iff _ _).0 e in rw (e, same) (h q)
  | inr e ↦ let apart : str_eq key q ≡ false = str_eq-hash key q e in rw (e, apart) refl
]

or_zero-set :
    (b : Bool) (v : ℤ) (o : Option ℤ)
    → or_zero (if b then some v else o) ≡ (if b then v else or_zero o)
or_zero-set true v o = refl
or_zero-set false v o = refl

is_found-set :
    (b : Bool) (v : ℤ) (o : Option ℤ) → is_found (if b then some v else o) ≡ (b || is_found o)
is_found-set true v o = refl
is_found-set false v o = refl

or_zero-delete :
    (b : Bool) (o : Option ℤ) → or_zero (if b then none else o) ≡ (if b then pos 0 else or_zero o)
or_zero-delete true o = refl
or_zero-delete false o = refl

is_found-delete :
    (b : Bool) (o : Option ℤ) → is_found (if b then none else o) ≡ (not b && is_found o)
is_found-delete true o = refl
is_found-delete false o = refl

-- `fe_map_set` makes the key's value `val`, and `fe_map_has` true of it, and leaves all other keys
-- alone, whatever the table.
pub fe_map_set_lem :
    (m : FeMap) (key q : Bytes) (val : ℤ)
    → (fe_map_get (fe_map_set (some m) (some key) val) (some q)
        ≡ (if str_eq key q then val else fe_map_get (some m) (some q)))
      × (fe_map_has (fe_map_set (some m) (some key) val) (some q)
          ≡ (str_eq key q || fe_map_has (some m) (some q)))
unfolding fe_map_set fe_map_get fe_map_has
fe_map_set_lem m key q val =
    let es = enter key val (m.buckets (fe_map_hash key)) in
    let e =
      stored-set_bucket m key q es (some val)
        (λ p. lookup-enter key p val (m.buckets (fe_map_hash key))) in
    (
      ap or_zero e ∙ or_zero-set (str_eq key q) val (stored m q),
      ap is_found e ∙ is_found-set (str_eq key q) val (stored m q),
    )

-- The table that a pointer leads to is valid.
abbrev pub MapIsValid : Option FeMap → Type 0
MapIsValid none = Unit
MapIsValid (some m) = IsValid m

-- In a table without double keys: after `fe_map_delete` the key has no value, all other keys have
-- the one they had, and no key is double.
pub fe_map_delete_lem :
    (m : FeMap) (key q : Bytes)
    → IsValid m
    → (fe_map_get (fe_map_delete (some m) (some key)) (some q)
        ≡ (if str_eq key q then pos 0 else fe_map_get (some m) (some q)))
      × (fe_map_has (fe_map_delete (some m) (some key)) (some q)
          ≡ (not (str_eq key q) && fe_map_has (some m) (some q)))
      × MapIsValid (fe_map_delete (some m) (some key))
unfolding fe_map_delete fe_map_get fe_map_has
fe_map_delete_lem m key q v =
    let es = remove key (m.buckets (fe_map_hash key)) in
    let e =
      stored-set_bucket m key q es none
        (λ p. lookup-remove key p (m.buckets (fe_map_hash key)) (v (fe_map_hash key))) in
    (
      ap or_zero e ∙ or_zero-delete (str_eq key q) (stored m q),
      ap is_found e ∙ is_found-delete (str_eq key q) (stored m q),
      set_bucket-IsValid m _ _ v (remove-Distinct key _ (v _)),
    )

-- A new table has no double keys, and neither setting nor deleting a key makes one, with a null
-- table or key too.
FeMap-IsValid :
    (m : Option FeMap) (key : Option Bytes) (val : ℤ)
    → MapIsValid m
    → IsValid fe_map_new × MapIsValid (fe_map_set m key val) × MapIsValid (fe_map_delete m key)
unfolding fe_map_new fe_map_set fe_map_delete
FeMap-IsValid none key val v = (λ i. tt, tt, tt)
FeMap-IsValid (some m) none val v = (λ i. tt, v, v)
FeMap-IsValid (some m) (some key) val v = (
  λ i. tt,
  set_bucket-IsValid m _ _ v (enter-Distinct key val _ (v _)),
  set_bucket-IsValid m _ _ v (remove-Distinct key _ (v _)),
)
