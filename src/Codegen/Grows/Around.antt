-- ===== src/Codegen/Grows/Around.antt =====
-- Steps between a change of what surrounds them and its undoing: scopes, loops, unsafe blocks and
-- regions.
use fermi.Base.{
  ℕ, ◌≡◌, refl, sym, ap, ◌∙◌, Bool, true, false, List, [], ◌∷◌, Option, none, some, length, ltb,
  if◌then◌else◌,
}
use fermi.Base.Text.{Bytes}
use fermi.Codegen.{◌>>=◌, ◌>>◌, Gen, reads, modify, Codegen, fns}
use fermi.Codegen.Scope.{scope_push, scope_pop, leave_scope}
use fermi.Codegen.Blocks.{in_scope, with_unsafe, with_region}
use fermi.Codegen.Loops.{in_loop}
use fermi.Codegen.Grows.{Emits, blocks_now, Context, context, Grows, Last, Leaves}

-- `c` is changed to `d` before a step, and the state behind it by `f`.
module _ (c d : Codegen) (f : Codegen → Codegen) (same_fns : fns d ≡ fns c)
    (same_fn : d.cur_fn ≡ c.cur_fn) (kept_fns : (e : Codegen) → fns (f e) ≡ fns e)
    (undone : (e : Codegen) → context e ≡ context d → context (f e) ≡ context c) where
  between : (e : Codegen) → Grows d e → Grows c (f e)
  between e g = record {
    grown = rw (kept_fns e) (rw (same_fns, same_fn) at g.grown);
    kept = undone e g.kept;
  }

  ends_between :
      (q : Bool) (e : Codegen) → Grows d e → Last q (blocks_now e) → Last q (blocks_now (f e))
  ends_between q e g h =
      let same : (f e).cur_fn ≡ e.cur_fn =
        ap Context.cur_fn (undone e g.kept) ∙ sym same_fn ∙ sym (ap Context.cur_fn g.kept) in
      rw (kept_fns e, same) h

  pub around :
      {A : Type 0} (q : Bool) (o : Option (A × Codegen))
      → Leaves q d o
      → Leaves q c (elim o [ none ↦ none | some r ↦ some (r.0, f r.1) ])
  around q none l = tt
  around q (some r) l = (between r.1 l.0, ends_between q r.1 l.0 l.1)

abbrev with_scopes : List ℕ → Context → Context
with_scopes bs k = record k { scope_base = bs }

abbrev with_labels : Option Bytes → Option Bytes → Context → Context
with_labels brk cnt k = record k { break_label = brk; cont_label = cnt }

leave_scope-context :
    (e : Codegen) (b : ℕ) (bs : List ℕ)
    → e.scope_base ≡ b ∷ bs
    → context (leave_scope e e.scope_base) ≡ with_scopes bs (context e)
leave_scope-context e b bs h = rw h refl

leave_scope-fns : (e : Codegen) (bs : List ℕ) → fns (leave_scope e bs) ≡ fns e
leave_scope-fns e [] = refl
leave_scope-fns e (b ∷ bs) = refl

scoped :
    {A : Type 0} {p q : Bool} (m : Gen A) (c : Codegen) (b : Bool)
    → Emits p m q
    → Last p (blocks_now c)
    → Leaves q c
        (elim (if◌then◌else◌ {0} {A = Option (Unit × Codegen)} b
            (some (tt, record c { scope_base = length c.vars ∷ c.scope_base }))
            none)
          as (λ _. Option (A × Codegen)) [
            | none ↦ none
            | some r ↦ elim (m r.1) [
              | none ↦ none
              | some x ↦ some (x.0, leave_scope x.1 x.1.scope_base)
            ]
          ])
scoped m c false x h = tt
scoped {q = q} m c true x h =
    let d : Codegen = record c { scope_base = length c.vars ∷ c.scope_base } in
    around c d (λ e. leave_scope e e.scope_base) refl refl (λ e. leave_scope-fns e e.scope_base)
      (λ e k.
        leave_scope-context e (length c.vars) c.scope_base (ap Context.scope_base k)
        ∙ ap (with_scopes c.scope_base) k)
      q (m d) (x.run d h)

pub in_scope-Emits : {A : Type 0} {p q : Bool} (m : Gen A) → Emits p m q → Emits p (in_scope m) q
unfolding in_scope scope_push scope_pop ◌>>=◌ ◌>>◌
in_scope-Emits m x = record { run = λ c h. scoped m c (ltb (length c.scope_base) 64) x h }

pub in_loop-Emits :
    {A : Type 0} {p q : Bool} (brk cnt : Bytes) (m : Gen A)
    → Emits p m q
    → Emits p (in_loop brk cnt m) q
unfolding in_loop reads modify ◌>>=◌ ◌>>◌
in_loop-Emits {q = q} brk cnt m x = record {
  run = λ c h.
      let d : Codegen = record c { break_label = some brk; cont_label = some cnt } in
      around c d (λ e. record e { break_label = c.break_label; cont_label = c.cont_label }) refl
        refl (λ e. refl) (λ e k. ap (with_labels c.break_label c.cont_label) k) q (m d) (x.run d h);
}

pub with_unsafe-Emits :
    {A : Type 0} {p q : Bool} (m : Gen A) → Emits p m q → Emits p (with_unsafe m) q
unfolding with_unsafe reads modify ◌>>=◌ ◌>>◌
with_unsafe-Emits {q = q} m x = record {
  run = λ c h.
      let d : Codegen = record c { in_unsafe = true } in
      around c d (λ e. record e { in_unsafe = c.in_unsafe }) refl refl (λ e. refl)
        (λ e k. ap (λ (y : Context). record y { in_unsafe = c.in_unsafe }) k) q (m d) (x.run d h);
}

pub with_region-Emits :
    {A : Type 0} {p q : Bool} (m : Gen A) → Emits p m q → Emits p (with_region m) q
unfolding with_region reads modify ◌>>=◌ ◌>>◌
with_region-Emits {q = q} m x = record {
  run = λ c h.
      let d : Codegen = record c { in_region = true } in
      around c d (λ e. record e { in_region = c.in_region }) refl refl (λ e. refl)
        (λ e k. ap (λ (y : Context). record y { in_region = c.in_region }) k) q (m d) (x.run d h);
}
