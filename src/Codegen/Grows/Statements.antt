-- ===== src/Codegen/Grows/Statements.antt =====
-- What emitting a single statement leaves as it is.
use fermi.Base.{◌<◌, ◌≢◌, ℕ, ◌≡◌, sym, ap, true, false, Option, none, some, length, get_elem?}
use fermi.Ast.{AstNode}
use fermi.Codegen.{Codegen, fns}
use fermi.Codegen.Values.{FloatTexts}
use fermi.Codegen.Expr.{emitter}
use fermi.Codegen.Grows.{context, are_sealed, Grows, blocks_now, Context, Grows, Leaves}
use fermi.Codegen.Grows.Emitter.{emitter-Emitting}

leaves-Grows :
    {A : Type 0} (c : Codegen) (o : Option (A × Codegen)) (m : A) (d : Codegen)
    → Leaves false c o
    → o ≡ some (m, d)
    → Grows c d
leaves-Grows c none m d l e = absurd cc
leaves-Grows {A} c (some r) m d l e =
    let same : r ≡ (m, d) = cc in rw (ap (λ (x : A × Codegen). x.1) (sym same)) l.0

emit_stmt-Grows :
    (texts : FloatTexts) (fuel : ℕ) (n m : AstNode) (c d : Codegen)
    → (emitter texts fuel).stmt n c ≡ some (m, d)
    → Grows c d
emit_stmt-Grows texts fuel n m c d e =
    leaves-Grows c _ m d (((emitter-Emitting texts fuel).stmts n).run c tt) e

-- Where a statement is emitted, what surrounds it is afterwards as before: the current function and
-- its type, the open scopes, the labels of the loop around, the first deferred statement of the
-- function, and whether the place is in a region, in an unsafe block and in a class.
pub emit_stmt-context :
    (texts : FloatTexts) (fuel : ℕ) (n m : AstNode) (c d : Codegen)
    → (emitter texts fuel).stmt n c ≡ some (m, d)
    → context d ≡ context c
emit_stmt-context texts fuel n m c d e = (emit_stmt-Grows texts fuel n m c d e).kept

-- Where a statement is emitted, a function that is not the current one stays as it is; and if all
-- blocks of the current function but the last one end with a jump, so do they afterwards.
pub emit_stmt-are_sealed :
    (texts : FloatTexts) (fuel : ℕ) (n m : AstNode) (c d : Codegen) (i : ℕ)
    → (emitter texts fuel).stmt n c ≡ some (m, d)
    → i < length (fns c)
    → c.cur_fn ≢ some i
    → are_sealed (blocks_now c) ≡ true
    → (get_elem? (fns d) i ≡ get_elem? (fns c) i) × (are_sealed (blocks_now d) ≡ true)
emit_stmt-are_sealed texts fuel n m c d i e l h s =
    let g = emit_stmt-Grows texts fuel n m c d e in
    (g.grown.others i l h, rw (ap Context.cur_fn g.kept) (g.grown.sealed s))
