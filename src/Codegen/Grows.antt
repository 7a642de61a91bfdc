-- ===== src/Codegen/Grows.antt =====
-- What the steps of the generator do to the module: they write at the end of the current function,
-- and what they add besides are whole functions, whose blocks all end with a jump.
pub mod Writes
pub mod Steps
pub mod Calls
pub mod Around
pub mod Blocks
pub mod Loops
pub mod Values
pub mod Operators
pub mod Objects
pub mod FnCalls
pub mod Aggregates
pub mod Fns
pub mod Bodies
pub mod Emitter
pub mod Program
pub mod Statements
use fermi.Base.{
  ℕ, zero, suc, ◌+◌, ◌≤◌, ◌<◌, ◌≡◌, refl, sym, ap, ◌∙◌, ◌≢◌, arith, Bool, true, false, ◌&&◌, List,
  [], ◌∷◌, ◌++◌, Option, none, some, get_elem?, set, length, get_elem?-lt, length-set,
  get_elem?-set, get_elem?-set_other, Bool-cases, Option-cases, inl, inr, ◌⊎◌, if◌then◌else◌,
}
use fermi.Base.Text.{Bytes}
use fermi.Ast.{AstNode}
use fermi.Fir.{FirInstr, FirBlock, FirFn, last}
use fermi.Codegen.{
  Codegen, Gen, pure, ◌>>=◌, ◌>>◌, reads, modify, fns, with_fns, fn_at, on_blocks, put_blocks,
  add_instr, new_block, emit_instr, is_term, ends_term, last_ends, last_instr_is_term,
}

-- Whether all blocks end with a jump, and whether all but the last do.
unfoldable pub all_end : List FirBlock → Bool
all_end [] = true
all_end (b ∷ bs) = ends_term b && all_end bs

unfoldable pub are_sealed : List FirBlock → Bool
are_sealed [] = true
are_sealed (b ∷ []) = true
are_sealed (b ∷ d ∷ bs) = ends_term b && are_sealed (d ∷ bs)

-- The blocks of the current function.
unfoldable pub blocks_of : Option FirFn → List FirBlock
blocks_of none = []
blocks_of (some f) = f.blocks

abbrev pub blocks_now : Codegen → List FirBlock
blocks_now c = blocks_of (fn_at (fns c) c.cur_fn)

-- From one list of functions to another, with one of them the current one.
pub record Grown (k : Option ℕ) (fs gs : List FirFn) : Type 0 where
  pub longer : length fs ≤ length gs
  pub others : (i : ℕ) → i < length fs → k ≢ some i → get_elem? gs i ≡ get_elem? fs i
  pub added :
      (i : ℕ) (f : FirFn)
      → length fs ≤ i
      → k ≢ some i
      → get_elem? gs i ≡ some f
      → all_end f.blocks ≡ true
  pub sealed :
      are_sealed (blocks_of (fn_at fs k)) ≡ true → are_sealed (blocks_of (fn_at gs k)) ≡ true

-- What surrounds the place where code is emitted.
pub record Context : Type 0 where
  pub cur_fn : Option ℕ
  pub scope_base : List ℕ
  pub break_label : Option Bytes
  pub cont_label : Option Bytes
  pub cur_ret_type : Option Bytes
  pub fn_defer_base : ℕ
  pub in_region : Bool
  pub in_unsafe : Bool
  pub cur_struct : Option Bytes

abbrev pub context : Codegen → Context
context c = record {
  cur_fn = c.cur_fn;
  scope_base = c.scope_base;
  break_label = c.break_label;
  cont_label = c.cont_label;
  cur_ret_type = c.cur_ret_type;
  fn_defer_base = c.fn_defer_base;
  in_region = c.in_region;
  in_unsafe = c.in_unsafe;
  cur_struct = c.cur_struct;
}

pub record Grows (c d : Codegen) : Type 0 where
  pub grown : Grown c.cur_fn (fns c) (fns d)
  pub kept : context d ≡ context c

-- Whether the current block, the last one, is known to end with a jump.
abbrev pub Last : Bool → List FirBlock → Type 0
Last false bs = Unit
Last true bs = last_ends bs ≡ true

-- What a step leaves behind, if it gives a result.
abbrev pub Leaves : {A : Type 0} → Bool → Codegen → Option (A × Codegen) → Type 0
Leaves q c none = Unit
Leaves q c (some r) = Grows c r.1 × Last q (blocks_now r.1)

-- A step that starts as `p` says and ends as `q` says.
pub record Emits {A : Type 0} (p : Bool) (m : Gen A) (q : Bool) : Type 0 where
  pub run : (c : Codegen) → Last p (blocks_now c) → Leaves q c (m c)

pub refl-Grown : (k : Option ℕ) (fs : List FirFn) → Grown k fs fs
refl-Grown k fs = record {
  longer = omega arith;
  others = λ i h e. refl;
  added = λ i f h n e. absurd (omega (arith, get_elem?-lt fs i f e));
  sealed = λ h. h;
}

pub trans-Grown :
    {k : Option ℕ} {fs gs hs : List FirFn} → Grown k fs gs → Grown k gs hs → Grown k fs hs
trans-Grown {k} {fs} {gs} {hs} a b = record {
  longer = omega (arith, a.longer, b.longer);
  others = λ i h n. b.others i (omega (arith, a.longer)) n ∙ a.others i h n;
  added = λ i f h n e. elim (lt_or_ge i (length gs)) [
    | inl l ↦ a.added i f h n (sym (b.others i l n) ∙ e)
    | inr g ↦ b.added i f g n e
  ];
  sealed = λ h. b.sealed (a.sealed h);
}
  where
    lt_or_ge : (i n : ℕ) → (i < n) ⊎ (n ≤ i)
    lt_or_ge i n = ground arith

pub trans-Grows : {c d e : Codegen} → Grows c d → Grows d e → Grows c e
trans-Grows {c} {d} {e} a b = record {
  grown = trans-Grown a.grown (rw (ap Context.cur_fn a.kept) at b.grown);
  kept = b.kept ∙ a.kept;
}

pub refl-Grows : (c : Codegen) → Grows c c
refl-Grows c = record { grown = refl-Grown c.cur_fn (fns c); kept = refl }

-- The rules for chains of steps.
pub pure-Emits : {A : Type 0} {p : Bool} {a : A} → Emits p (pure a) p
pure-Emits = record { run = λ c h. (refl-Grows c, h) }

pub joined :
    {A : Type 0} (r : Bool) (c d : Codegen) (o : Option (A × Codegen))
    → Grows c d
    → Leaves r d o
    → Leaves r c o
joined r c d none g l = tt
joined r c d (some e) g l = (trans-Grows g l.0, l.1)

chained :
    {A B : Type 0} {q r : Bool} (k : A → Gen B) (c : Codegen) (o : Option (A × Codegen))
    → ((a : A) → Emits q (k a) r)
    → Leaves q c o
    → Leaves r c (elim o [ none ↦ none | some e ↦ k e.0 e.1 ])
chained k c none y l = tt
chained {r = r} k c (some e) y l = joined r c e.1 (k e.0 e.1) l.0 ((y e.0).run e.1 l.1)

pub bind-Emits :
    {A B : Type 0} {p q r : Bool} {m : Gen A} {k : A → Gen B}
    → Emits p m q
    → ((a : A) → Emits q (k a) r)
    → Emits p (m >>= k) r
unfolding ◌>>=◌
bind-Emits {m = m} {k} x y = record { run = λ c h. chained k c (m c) y (x.run c h) }

pub then-Emits :
    {A B : Type 0} {p q r : Bool} {m : Gen A} {k : Gen B}
    → Emits p m q
    → Emits q k r
    → Emits p (m >> k) r
unfolding ◌>>◌
then-Emits x y = bind-Emits x λ a. y

-- The same with what lies between the steps given.
module _ {A B : Type 0} {p r : Bool} {m : Gen A} where
  pub bind_open :
      {k : A → Gen B} → Emits p m false → ((a : A) → Emits false (k a) r) → Emits p (m >>= k) r
  bind_open x y = bind-Emits x y

  pub bind_ended :
      {k : A → Gen B} → Emits p m true → ((a : A) → Emits true (k a) r) → Emits p (m >>= k) r
  bind_ended x y = bind-Emits x y

  pub then_open : {k : Gen B} → Emits p m false → Emits false k r → Emits p (m >> k) r
  then_open x y = then-Emits x y

  pub then_ended : {k : Gen B} → Emits p m true → Emits true k r → Emits p (m >> k) r
  then_ended x y = then-Emits x y

pub if-Emits :
    {A : Type 0} {p q : Bool} (b : Bool) {m n : Gen A}
    → Emits p m q
    → Emits p n q
    → Emits p (if b then m else n) q
if-Emits true x y = x
if-Emits false x y = y

pub option-Emits :
    {A B : Type 0} {p q : Bool} (o : Option A) {m : Gen B} {k : A → Gen B}
    → Emits p m q
    → ((a : A) → Emits p (k a) q)
    → Emits p (elim o [ none ↦ m | some a ↦ k a ]) q
option-Emits none x y = x
option-Emits (some a) x y = y a

-- A step that is known to end a block may be taken for any step, and the other way round before it.
pub weaken-Emits : {A : Type 0} {p : Bool} {m : Gen A} → Emits p m true → Emits p m false
weaken-Emits {A = A} {m = m} x = record { run = λ c h. weaker c (m c) (x.run c h) }
  where
    weaker : (c : Codegen) (o : Option (A × Codegen)) → Leaves true c o → Leaves false c o
    weaker c none l = tt
    weaker c (some r) l = (l.0, tt)

pub anyhow-Emits : {A : Type 0} {p q : Bool} {m : Gen A} → Emits false m q → Emits p m q
anyhow-Emits x = record { run = λ c h. x.run c tt }

-- A step without a result.
pub none-Emits : {A : Type 0} {p q : Bool} → Emits {A = A} p (λ c. none) q
none-Emits = record { run = λ c h. tt }

pub reads-Emits : {A : Type 0} {p : Bool} (f : Codegen → A) → Emits p (reads f) p
reads-Emits f = unfold reads in record { run = λ c h. (refl-Grows c, h) }
