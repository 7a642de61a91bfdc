-- ===== src/Hir/Noted.antt =====
-- The flags that lowering notes of one import.
use fermi.Base.{
  ◌≡◌, ◌∙◌, refl, sym, Bool, true, false, ◌||◌, List, [], ◌∷◌, ◌++◌, Option, none, some, Bool-cases,
  inl, inr, arith,
}
use fermi.Base.Text.{Bytes, codes, str_eq, str_eq_iff}
use fermi.Hir.{Hir, lower_path, lower_import}
use fermi.Hir.Paths.{std_path}

-- Whether one of two paths is imported.
unfoldable pub has_either : Bytes → Bytes → List Bytes → Bool
has_either p q [] = false
has_either p q (x ∷ xs) = (str_eq x p || str_eq x q) || has_either p q xs

-- Each flag of `h'` is that of `h`, or that one of its paths is imported.
pub record Noted (paths : List Bytes) (h h' : Hir) : Type 0 where
  pub io : h'.std_io ≡ (h.std_io || has_either (codes "std.io") (codes "io") paths)
  pub math : h'.std_math ≡ (h.std_math || has_either (codes "std.math") (codes "math") paths)
  pub string : h'.std_string ≡ (h.std_string || has_either (codes "std.string") (codes "str") paths)
  pub mem : h'.std_mem ≡ (h.std_mem || has_either (codes "std.mem") (codes "mem") paths)
  pub os : h'.std_os ≡ (h.std_os || has_either (codes "std.os") (codes "os") paths)
  pub collections :
      h'.std_collections
      ≡ (h.std_collections || has_either (codes "std.collections") (codes "std.collections") paths)

or_false : (b : Bool) → b ≡ (b || false)
or_false true = refl
or_false false = refl

or_assoc : (a b c : Bool) → ((a || b) || c) ≡ (a || (b || c))
or_assoc true b c = refl
or_assoc false b c = refl

has_either-append :
    (p q : Bytes) (xs ys : List Bytes)
    → has_either p q (xs ++ ys) ≡ (has_either p q xs || has_either p q ys)
unfolding has_either
has_either-append p q [] ys = refl
has_either-append p q (x ∷ xs) ys =
    rw (has_either-append p q xs ys) (sym (or_assoc (str_eq x p || str_eq x q) _ _))

-- A flag after two lists of paths.
flag_trans :
    (p q : Bytes) (xs ys : List Bytes) (a : Bool) {b c : Bool}
    → b ≡ (a || has_either p q xs)
    → c ≡ (b || has_either p q ys)
    → c ≡ (a || has_either p q (xs ++ ys))
flag_trans p q xs ys a e f = rw (has_either-append p q xs ys) (f ∙ rw e (or_assoc a _ _))

pub done : (h : Hir) → Noted [] h h
unfolding has_either
done h = record {
  io = or_false _;
  math = or_false _;
  string = or_false _;
  mem = or_false _;
  os = or_false _;
  collections = or_false _;
}

pub then-Noted :
    {xs ys : List Bytes} {h h' h'' : Hir} → Noted xs h h' → Noted ys h' h'' → Noted (xs ++ ys) h h''
then-Noted {xs} {ys} m n = record {
  io = flag_trans _ _ xs ys _ m.io n.io;
  math = flag_trans _ _ xs ys _ m.math n.math;
  string = flag_trans _ _ xs ys _ m.string n.string;
  mem = flag_trans _ _ xs ys _ m.mem n.mem;
  os = flag_trans _ _ xs ys _ m.os n.os;
  collections = flag_trans _ _ xs ys _ m.collections n.collections;
}

-- Whether a path is one of two.
abbrev one_of : Bytes → Bytes → Bytes → Bool
one_of path p q = str_eq path p || str_eq path q

exclusive :
    (path p p' q q' : Bytes)
    → one_of p q q' ≡ false
    → one_of p' q q' ≡ false
    → one_of path p p' ≡ true
    → one_of path q q' ≡ false
exclusive path p p' q q' e f h = elim (Bool-cases (str_eq path p)) [
  | inl a ↦ rw ((str_eq_iff path p).0 a) e
  | inr a ↦ rw ((str_eq_iff path p').0 (rw a at h)) f
]

-- The flag of each test: the tests before it rule it out where they hold.
lower_path-io :
    (path : Bytes) (h : Hir)
    → (lower_path path h).std_io
      ≡ (h.std_io || has_either (codes "std.io") (codes "io") (path ∷ []))
unfolding lower_path has_either str_eq
lower_path-io path h = ground arith

lower_path-math :
    (path : Bytes) (h : Hir)
    → (lower_path path h).std_math
      ≡ (h.std_math || has_either (codes "std.math") (codes "math") (path ∷ []))
unfolding lower_path has_either str_eq
lower_path-math path h =
    let x0 =
      exclusive path (codes "std.io") (codes "io") (codes "std.math") (codes "math") refl refl in
    ground arith

lower_path-string :
    (path : Bytes) (h : Hir)
    → (lower_path path h).std_string
      ≡ (h.std_string || has_either (codes "std.string") (codes "str") (path ∷ []))
unfolding lower_path has_either str_eq
lower_path-string path h =
    let x0 =
      exclusive path (codes "std.io") (codes "io") (codes "std.string") (codes "str") refl refl in
    let x1 =
      exclusive path (codes "std.math") (codes "math") (codes "std.string") (codes "str") refl
        refl in
    ground arith

lower_path-mem :
    (path : Bytes) (h : Hir)
    → (lower_path path h).std_mem
      ≡ (h.std_mem || has_either (codes "std.mem") (codes "mem") (path ∷ []))
unfolding lower_path has_either str_eq
lower_path-mem path h =
    let x0 =
      exclusive path (codes "std.io") (codes "io") (codes "std.mem") (codes "mem") refl refl in
    let x1 =
      exclusive path (codes "std.math") (codes "math") (codes "std.mem") (codes "mem") refl refl in
    let x2 =
      exclusive path (codes "std.string") (codes "str") (codes "std.mem") (codes "mem") refl refl in
    ground arith

lower_path-os :
    (path : Bytes) (h : Hir)
    → (lower_path path h).std_os
      ≡ (h.std_os || has_either (codes "std.os") (codes "os") (path ∷ []))
unfolding lower_path has_either str_eq
lower_path-os path h =
    let x0 = exclusive path (codes "std.io") (codes "io") (codes "std.os") (codes "os") refl refl in
    let x1 =
      exclusive path (codes "std.math") (codes "math") (codes "std.os") (codes "os") refl refl in
    let x2 =
      exclusive path (codes "std.string") (codes "str") (codes "std.os") (codes "os") refl refl in
    let x3 =
      exclusive path (codes "std.mem") (codes "mem") (codes "std.os") (codes "os") refl refl in
    ground arith

lower_path-collections :
    (path : Bytes) (h : Hir)
    → (lower_path path h).std_collections ≡ (
        h.std_collections
        || has_either (codes "std.collections") (codes "std.collections") (path ∷ []))
unfolding lower_path has_either str_eq
lower_path-collections path h =
    let x0 =
      exclusive path (codes "std.io") (codes "io") (codes "std.collections")
        (codes "std.collections") refl refl in
    let x1 =
      exclusive path (codes "std.math") (codes "math") (codes "std.collections")
        (codes "std.collections") refl refl in
    let x2 =
      exclusive path (codes "std.string") (codes "str") (codes "std.collections")
        (codes "std.collections") refl refl in
    let x3 =
      exclusive path (codes "std.mem") (codes "mem") (codes "std.collections")
        (codes "std.collections") refl refl in
    let x4 =
      exclusive path (codes "std.os") (codes "os") (codes "std.collections")
        (codes "std.collections") refl refl in
    ground arith

lower_path-Noted : (path : Bytes) (h : Hir) → Noted (path ∷ []) h (lower_path path h)
lower_path-Noted path h = record {
  io = lower_path-io path h;
  math = lower_path-math path h;
  string = lower_path-string path h;
  mem = lower_path-mem path h;
  os = lower_path-os path h;
  collections = lower_path-collections path h;
}

pub lower_import-Noted :
    (path : Option Bytes) (is_std : Bool) (h : Hir)
    → Noted (std_path path is_std) h (lower_import path is_std h)
unfolding lower_import std_path
lower_import-Noted (some path) true h = lower_path-Noted path h
lower_import-Noted (some path) false h = done h
lower_import-Noted none is_std h = done h
