-- ===== src/Codegen/Defects.antt =====
-- Two consequences of the generator's code: conversions of Booleans, and deferred returns.
use fermi.Base.{
  ℕ, zero, suc, ◌+◌, ◌-◌, ◌≤◌, ◌≡◌, ◌≢◌, refl, arith, Bool, true, false, List, [], ◌∷◌, ◌++◌,
  Option, none, some, length, get_elem?, get_elem?-snoc, length-append,
}
use fermi.Base.Text.{Bytes}
use fermi.Ast.{AstNode, NodeInfo, no_node, node_return}
use fermi.Fir.{FirOp, fir_zext}
use fermi.Codegen.{Codegen, Gen, ◌>>=◌, ◌>>◌, reads}
use fermi.Codegen.Types.{conversion, is_int_type}
use fermi.Codegen.Calls.{Emit}
use fermi.Codegen.Defers.{emit_deferred, defers_from, emit_defers, emit_ret_with_defers}
use fermi.Codegen.Blocks.{emit_return}
use fermi.Codegen.Stmt.{emit_stmt_with}
use fermi.Codegen.Values.{FloatTexts}
use fermi.Codegen.Expr.{emitter}

is_zext : Option FirOp → Bool
is_zext (some fir_zext) = true
is_zext _ = false

conversion-is_zext : (from to : Bytes) → is_zext (conversion from to) ≡ false
unfolding conversion is_zext is_int_type
conversion-is_zext from to = ground arith

-- No conversion extends a value with zeros, so that a Boolean that is true is converted to -1.
conversion-zext : (from to : Bytes) → conversion from to ≢ some fir_zext
unfolding is_zext
conversion-zext from to e = absurd (ground (arith, conversion-is_zext from to))

-- Nothing comes of a step if nothing comes of its first part.
none_first :
    {A B : Type 0} (m : Gen A) (k : A → Gen B) (c : Codegen) → m c ≡ none → (m >>= k) c ≡ none
unfolding ◌>>=◌
none_first m k c e = rw (e, ◌>>=◌) refl

-- The same behind a value that is read.
reads_none :
    {A B : Type 0} (f : Codegen → A) (k : A → Gen B) (c : Codegen)
    → k (f c) c ≡ none
    → (reads f >>= k) c ≡ none
unfolding reads ◌>>=◌
reads_none f k c e = e

then_none : {A B : Type 0} (m : Gen A) (k : Gen B) (c : Codegen) → m c ≡ none → (m >> k) c ≡ none
unfolding ◌>>◌
then_none m k c e = none_first m (λ a. k) c e

emit_deferred-none :
    (emit : Emit) (i : ℕ) (n : AstNode) (c : Codegen)
    → emit.stmt n c ≡ none
    → emit_deferred emit i (some n) c ≡ none
unfolding emit_deferred
emit_deferred-none emit i n c e = none_first (emit.stmt n) _ c e

defers_from-none :
    (emit : Emit) (base count : ℕ) (c : Codegen) (n : AstNode)
    → get_elem? c.defer_stack (base + count) ≡ some n
    → emit.stmt n c ≡ none
    → defers_from emit base (suc count) c ≡ none
unfolding defers_from
defers_from-none emit base count c n e h =
    reads_none _ _ c (then_none _ _ c (rw e (emit_deferred-none emit (base + count) n c h)))

emit_defers-none :
    (emit : Emit) (c : Codegen) (ds : List AstNode) (n : AstNode)
    → c.defer_stack ≡ ds ++ n ∷ []
    → c.fn_defer_base ≤ length ds
    → emit.stmt n c ≡ none
    → emit_defers emit c ≡ none
unfolding emit_defers
emit_defers-none emit c ds n e h x =
    let count = length ds - c.fn_defer_base in
    let top : length c.defer_stack ≡ suc (length ds) =
      rw e (omega (arith, length-append ds (n ∷ []))) in
    let more : length c.defer_stack - c.fn_defer_base ≡ suc count = omega arith in
    let place : c.fn_defer_base + count ≡ length ds = omega arith in
    reads_none _ _ c (
      reads_none _ _ c (
        rw more (
          defers_from-none emit c.fn_defer_base count c n (rw (place, e) (get_elem?-snoc ds n)) x)))

stmt-none :
    (emit : Emit) (i : NodeInfo) (c : Codegen)
    → emit_defers emit c ≡ none
    → emit_stmt_with emit (node_return i no_node) c ≡ none
unfolding emit_stmt_with emit_return emit_ret_with_defers
stmt-none emit i c e = none_first _ _ c (reads_none _ _ c (then_none _ _ c (then_none _ _ c e)))

more_fuel :
    (texts : FloatTexts) (fuel : ℕ) (n : AstNode) (c : Codegen)
    → emit_stmt_with (emitter texts fuel) n c ≡ none
    → (emitter texts (suc fuel)).stmt n c ≡ none
unfolding emitter
more_fuel texts fuel n c e = e

module _ (texts : FloatTexts) (i : NodeInfo) where
  -- Where the statement deferred last is the same return without a value, no fuel is enough for it:
  -- the source's calls never end.
  pub stmt-deferred_return :
      (fuel : ℕ) (c : Codegen) (ds : List AstNode)
      → c.defer_stack ≡ ds ++ node_return i no_node ∷ []
      → c.fn_defer_base ≤ length ds
      → (emitter texts fuel).stmt (node_return i no_node) c ≡ none
  stmt-deferred_return zero c ds e h = unfold emitter in refl
  stmt-deferred_return (suc fuel) c ds e h = more_fuel texts fuel (node_return i no_node) c (
      stmt-none (emitter texts fuel) i c (
        emit_defers-none (emitter texts fuel) c ds (node_return i no_node) e h
          (stmt-deferred_return fuel c ds e h)))
