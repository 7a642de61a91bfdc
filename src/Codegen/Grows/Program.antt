-- ===== src/Codegen/Grows/Program.antt =====
-- The functions of a program, one behind the other.
use fermi.Base.{
  ℕ, ◌≡◌, refl, ap, ◌∙◌, Bool, true, false, List, [], ◌∷◌, ◌++◌, Option, none, some, length,
  get_elem?, get_elem?-snoc, if◌then◌else◌, arith,
}
use fermi.Base.Text.{Bytes}
use fermi.Ast.{
  FnHead, AstNode, AstList, node_program, node_fn_decl, node_enum_decl, node_class_decl,
  node_comptime_let, nil, cons,
}
use fermi.Fir.{FirFn}
use fermi.Codegen.{◌>>=◌, ◌>>◌, Codegen, codegen_new, Gen, modify, fns}
use fermi.Codegen.Values.{FloatTexts}
use fermi.Codegen.Fns.{new_fn, add_fn}
use fermi.Codegen.Decls.{
  add_enum, declare_struct, add_class, collect_decl, collect_decls, leave_fn, close_fn, emit_body,
  emit_fn, emit_fn_decl, emit_methods, emit_decl, emit_decls, codegen_emit,
}
use fermi.Codegen.Expr.{generate}
use fermi.Codegen.Calls.{Emit}
use fermi.Codegen.Grows.{
  all_end, blocks_of, Grown, Context, Leaves, Emits, refl-Grown, trans-Grown, pure-Emits, bind_open,
  then_open, none-Emits, reads-Emits,
}
use fermi.Codegen.Grows.Steps.{if_open-Emits}
use fermi.Codegen.Grows.Calls.{Emitting}
use fermi.Codegen.Grows.Blocks.{the_name-Emits, emit_defers-Emits, emit_block-Emits}
use fermi.Codegen.Grows.Fns.{bind_params-Emits, emit_default_ret-Emits, fn-Grown}
use fermi.Codegen.Grows.Bodies.{AllLeft, in_fn-AllLeft}
use fermi.Codegen.Grows.Emitter.{comptime_let-Emits, emitter-Emitting}

-- What a step outside all functions leaves: more functions, which are complete.
Declared : {A : Type 0} → Codegen → Option (A × Codegen) → Type 0
Declared c none = Unit
Declared c (some r) = Grown none (fns c) (fns r.1) × (r.1.cur_fn ≡ none)

record Declares {A : Type 0} (m : Gen A) : Type 0 where
  run : (c : Codegen) → c.cur_fn ≡ none → Declared c (m c)

trans-Declared :
    {A : Type 0} (c d : Codegen) (o : Option (A × Codegen))
    → Grown none (fns c) (fns d)
    → Declared d o
    → Declared c o
unfolding Declared
trans-Declared c d none g l = tt
trans-Declared c d (some r) g l = (trans-Grown g l.0, l.1)

chained-Declared :
    {A B : Type 0} (k : A → Gen B) (c : Codegen) (o : Option (A × Codegen))
    → ((a : A) → Declares (k a))
    → Declared c o
    → Declared c (elim o [ none ↦ none | some e ↦ k e.0 e.1 ])
unfolding Declared
chained-Declared k c none y l = tt
chained-Declared k c (some r) y l = trans-Declared c r.1 (k r.0 r.1) l.0 ((y r.0).run r.1 l.1)

bind-Declares :
    {A B : Type 0} {m : Gen A} {k : A → Gen B}
    → Declares m
    → ((a : A) → Declares (k a))
    → Declares (m >>= k)
unfolding ◌>>=◌
bind-Declares {m = m} {k} x y = record { run = λ c h. chained-Declared k c (m c) y (x.run c h) }

then-Declares : {A B : Type 0} {m : Gen A} {k : Gen B} → Declares m → Declares k → Declares (m >> k)
unfolding ◌>>◌
then-Declares x y = bind-Declares x λ a. y

if-Declares :
    {A : Type 0} (b : Bool) {m k : Gen A} → Declares m → Declares k → Declares (if b then m else k)
if-Declares true x y = x
if-Declares false x y = y

leaves-Declared :
    {A : Type 0} (c : Codegen) (o : Option (A × Codegen))
    → c.cur_fn ≡ none
    → Leaves false c o
    → Declared c o
unfolding Declared
leaves-Declared c none h l = tt
leaves-Declared c (some r) h l = (rw h at l.0.grown, ap Context.cur_fn l.0.kept ∙ h)

-- A step that emits may stand here too.
Emits-Declares : {A : Type 0} {m : Gen A} → Emits false m false → Declares m
Emits-Declares {m = m} x = record { run = λ c h. leaves-Declared c (m c) h (x.run c tt) }

add_fn-Declares : (f : FirFn) → f.blocks ≡ [] → Declares (add_fn f)
unfolding add_fn modify Declared
add_fn-Declares f e = record {
  run = λ c h. (fn-Grown (fns c) (fns c ++ f ∷ []) f (refl-Grown _ _) (ended c) none, h);
}
  where
    ended :
        (c : Codegen) → all_end (blocks_of (get_elem? (fns c ++ f ∷ []) (length (fns c)))) ≡ true
    ended c = rw (get_elem?-snoc (fns c) f) (unfold blocks_of all_end in rw e refl)

fn-Declared :
    {A : Type 0} (f : FirFn) (s : Codegen → Option Bytes) (c : Codegen) (o : Option (A × Codegen))
    → AllLeft f s leave_fn c o
    → Declared c o
unfolding Declared
fn-Declared f s c none l = tt
fn-Declared f s c (some r) l = (rw l.is_left (l.grown none), rw l.is_left refl)

-- The tables of enums and structs are kept outside the list of functions.
abbrev Same : Codegen → Codegen → Type 0
Same c d = (fns d ≡ fns c) × (d.cur_fn ≡ c.cur_fn)

declare_struct-Same :
    (name : Bytes) (fields : List (Bytes × Bytes)) (c : Codegen)
    → Same c (declare_struct name fields c)
unfolding declare_struct
declare_struct-Same name [] c = (refl, refl)
declare_struct-Same name (f ∷ fs) c = (refl, refl)

if-Same : (b : Bool) (c d : Codegen) → Same c d → Same c (if b then d else c)
if-Same true c d h = h
if-Same false c d h = (refl, refl)

collect_decl-Same : (n : AstNode) (c : Codegen) → Same c (collect_decl n c)
unfolding collect_decl add_enum add_class
collect_decl-Same (node_enum_decl i name variants) c = if-Same _ c _ (refl, refl)
collect_decl-Same (node_class_decl i name privates publics) c =
    if-Same _ c _ (declare_struct-Same name _ _)
collect_decl-Same n c = (refl, refl)

collect_decls-Same : (ns : AstList) (c : Codegen) → Same c (collect_decls ns c)
unfolding collect_decls
collect_decls-Same nil c = (refl, refl)
collect_decls-Same (cons n ns) c =
    let rest = collect_decls-Same ns (collect_decl n c) in
    let first = collect_decl-Same n c in (rest.0 ∙ first.0, rest.1 ∙ first.1)

collect_decls-Declares : (ns : AstList) → Declares (modify (collect_decls ns))
unfolding modify Declared
collect_decls-Declares ns = record {
  run = λ c h.
      let same = collect_decls-Same ns c in (rw same.0 (refl-Grown none (fns c)), same.1 ∙ h);
}

module _ {emit : Emit} (e : Emitting emit) where
  close_fn-Emits : (ret_type : Bytes) → Emits false (close_fn emit ret_type) true
  unfolding close_fn
  close_fn-Emits ret_type =
      if_open-Emits _ (then_open (emit_defers-Emits e) (emit_default_ret-Emits ret_type))

  emit_body-Declares :
      (s : Option Bytes) (f : FirFn) (ret_type : Bytes) (body : AstNode)
      → f.blocks ≡ []
      → Declares (emit_body emit s f ret_type body)
  unfolding emit_body
  emit_body-Declares s f ret_type body h = record {
    run = λ c k. fn-Declared f _ c _ (
        in_fn-AllLeft f _ leave_fn c h _ (
          then_open (bind_params-Emits f.params)
            (bind_open (emit_block-Emits e body) λ m. close_fn-Emits ret_type)));
  }

  emit_fn-Declares :
      (h : FnHead) (s : Option Bytes) (params : AstList) (body : AstNode)
      → Declares (emit_fn emit h s params body)
  unfolding emit_fn new_fn
  emit_fn-Declares h s params body = bind-Declares (Emits-Declares (the_name-Emits h.name)) λ name.
      bind-Declares (Emits-Declares (reads-Emits _)) λ ret_type.
        bind-Declares (Emits-Declares (reads-Emits _)) λ ps.
          bind-Declares (Emits-Declares (reads-Emits _)) λ plain.
            if-Declares _ (add_fn-Declares _ refl) (emit_body-Declares s _ ret_type body refl)

  emit_fn_decl-Declares : (s : Option Bytes) (n : AstNode) → Declares (emit_fn_decl emit s n)
  unfolding emit_fn_decl
  emit_fn_decl-Declares s (node_fn_decl i h params body) = emit_fn-Declares h s params body
  emit_fn_decl-Declares s n = Emits-Declares pure-Emits

  emit_methods-Declares : (name : Bytes) (ns : AstList) → Declares (emit_methods emit name ns)
  unfolding emit_methods
  emit_methods-Declares name nil = Emits-Declares pure-Emits
  emit_methods-Declares name (cons n ns) =
      then-Declares (emit_fn_decl-Declares (some name) n) (emit_methods-Declares name ns)

  emit_decl-Declares : (n : AstNode) → Declares (emit_decl emit n)
  unfolding emit_decl
  emit_decl-Declares (node_comptime_let i name init) = Emits-Declares (comptime_let-Emits name init)
  emit_decl-Declares (node_fn_decl i h params body) =
      emit_fn_decl-Declares none (node_fn_decl i h params body)
  emit_decl-Declares (node_class_decl i name privates publics) =
      then-Declares (emit_methods-Declares name privates) (emit_methods-Declares name publics)
  emit_decl-Declares n = Emits-Declares pure-Emits

  emit_decls-Declares : (ns : AstList) → Declares (emit_decls emit ns)
  unfolding emit_decls
  emit_decls-Declares nil = Emits-Declares pure-Emits
  emit_decls-Declares (cons n ns) = then-Declares (emit_decl-Declares n) (emit_decls-Declares ns)

  codegen_emit-Declares : (program : AstNode) → Declares (codegen_emit emit program)
  unfolding codegen_emit
  codegen_emit-Declares (node_program i decls is_module) =
      then-Declares (collect_decls-Declares decls) (emit_decls-Declares decls)
  codegen_emit-Declares n = Emits-Declares none-Emits

all_end-Declared :
    {A : Type 0} (c : Codegen) (o : Option (A × Codegen)) (d : Codegen) (i : ℕ) (f : FirFn)
    → fns c ≡ []
    → Declared c o
    → elim o [ none ↦ none | some r ↦ some r.1 ] ≡ some d
    → get_elem? (fns d) i ≡ some f
    → all_end f.blocks ≡ true
unfolding Declared
all_end-Declared c none d i f n l e h = absurd cc
all_end-Declared c (some r) d i f n l e h =
    let same : r.1 ≡ d = cc in l.0.added i f (rw n (omega arith)) (λ m. cc) (rw same h)

-- In the module that the generator gives for a program, every block of every function ends with an
-- instruction that leaves it.
pub generate-all_end :
    (texts : FloatTexts) (fuel : ℕ) (path : Option Bytes) (program : AstNode) (d : Codegen) (i : ℕ)
    (f : FirFn)
    → generate texts fuel program (codegen_new path) ≡ some d
    → get_elem? (fns d) i ≡ some f
    → all_end f.blocks ≡ true
unfolding generate codegen_new
generate-all_end texts fuel path program d i f e h =
    all_end-Declared (codegen_new path) _ d i f refl
      ((codegen_emit-Declares (emitter-Emitting texts fuel) program).run (codegen_new path) refl) e
      h
