-- ===== src/Codegen/Grows/Fns.antt =====
-- Functions: what is written between their opening and their end, and that all their blocks then end
-- with a jump.
use fermi.Base.{
  ℕ, ◌≤◌, ◌<◌, ◌≡◌, refl, ◌∙◌, arith, true, false, List, [], ◌∷◌, ◌++◌, Option, none, some, length,
  length-append, get_elem?, get_elem?-append, Option-cases, inl, inr, ◌⊎◌,
}
use fermi.Base.Text.{Bytes}
use fermi.Fir.{FirFn, FirParam, FirBlock}
use fermi.Codegen.{fn_at, last_ends}
use fermi.Codegen.Fns.{bind_param, bind_params, emit_default_ret}
use fermi.Codegen.Grows.{Grown, blocks_of, all_end, are_sealed, Emits, pure-Emits, then_open}
use fermi.Codegen.Grows.Steps.{emit_alloca-Emits, emit_store-Emits, var_def-Emits}
use fermi.Codegen.Grows.Blocks.{emit_ret-Emits}

pub bind_params-Emits : (ps : List FirParam) → Emits false (bind_params ps) false
unfolding bind_params bind_param
bind_params-Emits [] = pure-Emits
bind_params-Emits (p ∷ ps) =
    then_open
      (then_open (emit_alloca-Emits _ _) (then_open (emit_store-Emits _ _ _) (var_def-Emits _ _ _)))
      (bind_params-Emits ps)

pub emit_default_ret-Emits : (ret_type : Bytes) → Emits false (emit_default_ret ret_type) true
unfolding emit_default_ret
emit_default_ret-Emits ret_type = emit_ret-Emits _

-- All blocks end with a jump where all but the last do, and the last too.
pub sealed-all_end :
    (bs : List FirBlock) → are_sealed bs ≡ true → last_ends bs ≡ true → all_end bs ≡ true
unfolding are_sealed last_ends all_end
sealed-all_end [] s e = refl
sealed-all_end (b ∷ []) s e = ground arith
sealed-all_end (b ∷ d ∷ bs) s e = ground (arith, sealed-all_end (d ∷ bs))

pub all_end-sealed : (bs : List FirBlock) → all_end bs ≡ true → are_sealed bs ≡ true
unfolding are_sealed all_end
all_end-sealed [] e = refl
all_end-sealed (b ∷ []) e = refl
all_end-sealed (b ∷ d ∷ bs) e = ground (arith, all_end-sealed (d ∷ bs))

-- A new function whose blocks all end with a jump, and what is added behind it, is growth of any
-- function before it.
module _ (fs gs : List FirFn) (f : FirFn) (g : Grown (some (length fs)) (fs ++ f ∷ []) gs)
    (ended : all_end (blocks_of (get_elem? gs (length fs))) ≡ true) where
  ended_behind :
      (i : ℕ) (h : FirFn) → length fs ≤ i → get_elem? gs i ≡ some h → all_end h.blocks ≡ true
  unfolding blocks_of
  ended_behind i h l e = elim (eq_or_lt (length fs) i l) [
    | inl q ↦ rw (q, e, blocks_of) at ended
    | inr q ↦
        g.added i h (omega (arith, length-append fs (f ∷ [])))
          (λ m. let same : length fs ≡ i = cc in omega arith) e
  ]
    where
      eq_or_lt : (m n : ℕ) → m ≤ n → (m ≡ n) ⊎ (m < n)
      eq_or_lt m n h = ground arith

  kept_before : (i : ℕ) → i < length fs → get_elem? gs i ≡ get_elem? fs i
  kept_before i l =
      g.others i (omega (arith, length-append fs (f ∷ [])))
        (λ m. let same : length fs ≡ i = cc in omega arith)
      ∙ get_elem?-append fs (f ∷ []) i l

  sealed_at :
      (j : ℕ)
      → are_sealed (blocks_of (get_elem? fs j)) ≡ true
      → are_sealed (blocks_of (get_elem? gs j)) ≡ true
  unfolding blocks_of are_sealed
  sealed_at j h = elim (lt_or_ge j (length fs)) [
    | inl l ↦ rw (kept_before j l) h
    | inr l ↦ elim (Option-cases (get_elem? gs j)) [
      | inl n ↦ rw (n, blocks_of, are_sealed) refl
      | inr x ↦ rw (x.1, blocks_of) (all_end-sealed x.0.blocks (ended_behind j x.0 l x.1))
    ]
  ]
    where
      lt_or_ge : (m n : ℕ) → (m < n) ⊎ (n ≤ m)
      lt_or_ge m n = ground arith

  pub fn-Grown : (k : Option ℕ) → Grown k fs gs
  fn-Grown k = record {
    longer = omega (arith, g.longer, length-append fs (f ∷ []));
    others = λ i l n. kept_before i l;
    added = λ i h l n e. ended_behind i h l e;
    sealed = sealed_in k;
  }
    where
      sealed_in :
          (o : Option ℕ)
          → are_sealed (blocks_of (fn_at fs o)) ≡ true
          → are_sealed (blocks_of (fn_at gs o)) ≡ true
      sealed_in none h = h
      sealed_in (some j) h = sealed_at j h
