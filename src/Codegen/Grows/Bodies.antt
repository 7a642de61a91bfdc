-- ===== src/Codegen/Grows/Bodies.antt =====
-- Whole functions: lambdas within a function, and the functions of a program.
use fermi.Base.{ℕ, ◌≡◌, refl, ap, Bool, true, false, [], Option, none, some, get_elem?-snoc}
use fermi.Base.Text.{Bytes, codes}
use fermi.Ast.{TypeNode, NodeInfo, AstNode, AstList, no_node, node_block}
use fermi.Codegen.Grows.Steps.{quiet-Emits, if_open-Emits}
use fermi.Codegen.Grows.Calls.{coerce_to-Emits, ast_type_str-Emits, Emitting}
use fermi.Codegen.Grows.Blocks.{emit_ret-Emits, blocks, emit_stmts-Emits}
use fermi.Codegen.Calls.{Emit}
use fermi.Fir.{FirFn}
use fermi.Codegen.{◌>>=◌, ◌>>◌, Codegen, Gen, reads, modify, fns, new_block}
use fermi.Codegen.Fns.{new_fn, open_fn, in_fn}
use fermi.Codegen.Lambda.{leave_lambda, lambda_name, emit_lambda_body, emit_lambda_fn, emit_lambda}
use fermi.Codegen.Blocks.{in_scope}
use fermi.Codegen.Grows.{
  are_sealed, blocks_of, blocks_now, Grown, Context, context, Leaves, Emits, pure-Emits, joined,
  bind_open, then_open, then_ended, weaken-Emits, reads-Emits,
}
use fermi.Codegen.Grows.Writes.{moved-Grows, on_blocks-Leaves}
use fermi.Codegen.Grows.Around.{in_scope-Emits}
use fermi.Codegen.Grows.Fns.{bind_params-Emits, emit_default_ret-Emits, sealed-all_end, fn-Grown}

-- The state behind a function: what `leave` makes of one in which the function's blocks all end with
-- a jump and whose surroundings are the function's.
pub record Left (f : FirFn) (s : Codegen → Option Bytes) (leave : Codegen → Codegen → Codegen)
    (c d : Codegen) : Type 0 where
  pub inner : Codegen
  pub is_left : d ≡ leave c inner
  pub grown : (k : Option ℕ) → Grown k (fns c) (fns inner)
  pub kept : context inner ≡ context (open_fn f s c)

abbrev pub AllLeft :
    {A : Type 0} (f : FirFn) (s : Codegen → Option Bytes) (leave : Codegen → Codegen → Codegen)
    (c : Codegen)
    → Option (A × Codegen)
    → Type 0
AllLeft f s leave c none = Unit
AllLeft f s leave c (some r) = Left f s leave c r.1

module _ (f : FirFn) (s : Codegen → Option Bytes) (leave : Codegen → Codegen → Codegen)
    (c : Codegen) (h : f.blocks ≡ []) where
  no_blocks : blocks_now (open_fn f s c) ≡ []
  unfolding blocks_of
  no_blocks = rw (get_elem?-snoc (fns c) f, blocks_of) h

  entered : (label : Bytes) → Leaves false (open_fn f s c) (new_block label (open_fn f s c))
  entered label =
      unfold new_block in
      on_blocks-Leaves (λ bs. bs ≡ []) false _ (λ bs e. (λ t. rw e (unfold are_sealed in refl), tt))
        (open_fn f s c) no_blocks

  left :
      {A : Type 0} (o : Option (A × Codegen))
      → Leaves true (open_fn f s c) o
      → AllLeft f s leave c (elim o [ none ↦ none | some x ↦ some (x.0, leave c x.1) ])
  left none l = tt
  left (some x) l =
      let start : are_sealed (blocks_now (open_fn f s c)) ≡ true =
        rw no_blocks (unfold are_sealed in refl) in
      record {
        inner = x.1;
        is_left = refl;
        grown =
            fn-Grown (fns c) (fns x.1) f l.0.grown
              (sealed-all_end _ (l.0.grown.sealed start) (rw (ap Context.cur_fn l.0.kept) at l.1));
        kept = l.0.kept;
      }

  filled :
      {A : Type 0} (m : Gen A) (o : Option (Unit × Codegen))
      → Emits false m true
      → Leaves false (open_fn f s c) o
      → AllLeft f s leave c (elim o [
        | none ↦ none
        | some r ↦ elim (m r.1) [ none ↦ none | some x ↦ some (x.0, leave c x.1) ]
      ])
  filled m none x l = tt
  filled m (some r) x l = left (m r.1) (joined true (open_fn f s c) r.1 (m r.1) l.0 (x.run r.1 tt))

  pub in_fn-AllLeft :
      {A : Type 0} (m : Gen A) → Emits false m true → AllLeft f s leave c (in_fn f s leave m c)
  unfolding in_fn reads modify ◌>>=◌ ◌>>◌
  in_fn-AllLeft m x =
      filled (in_scope m) (new_block (codes "entry") (open_fn f s c)) (in_scope-Emits m x)
        (entered (codes "entry"))

lambda_name-Emits : {p : Bool} → Emits p lambda_name p
unfolding lambda_name
lambda_name-Emits = quiet-Emits λ c q h. (moved-Grows c _ refl refl, h)

-- Behind a lambda all is as before it: its function is complete, and the one around it is the current
-- one again.
outside : Codegen → Context → Context
outside c k = record k {
  cur_fn = c.cur_fn;
  cur_ret_type = c.cur_ret_type;
  fn_defer_base = c.fn_defer_base;
}

lambda-Leaves :
    {A : Type 0} (f : FirFn) (c : Codegen) (o : Option (A × Codegen))
    → AllLeft f (λ d. d.cur_struct) leave_lambda c o
    → Leaves false c o
unfolding outside
lambda-Leaves f c none l = tt
lambda-Leaves f c (some r) l = (
  record { grown = rw l.is_left (l.grown c.cur_fn); kept = rw l.is_left (ap (outside c) l.kept) },
  tt,
)

module _ {emit : Emit} (e : Emitting emit) where
  emit_lambda_body-Emits :
      (ret_type : Bytes) (n : AstNode) → Emits false (emit_lambda_body emit ret_type n) false
  unfolding emit_lambda_body
  emit_lambda_body-Emits ret_type no_node = pure-Emits
  emit_lambda_body-Emits ret_type (node_block i stmts) = search (blocks, emit_stmts-Emits)
  emit_lambda_body-Emits ret_type n = bind_open (e.exprs n) λ r.
      bind_open (ast_type_str-Emits r.1) λ rty.
        bind_open (coerce_to-Emits r.0 rty ret_type)
          λ rv. then_ended (if_open-Emits _ (emit_ret-Emits _)) (weaken-Emits pure-Emits)

  emit_lambda_fn-Emits :
      (f : FirFn) (ret_type : Bytes) (body : AstNode)
      → f.blocks ≡ []
      → Emits false (emit_lambda_fn emit f ret_type body) false
  unfolding emit_lambda_fn
  emit_lambda_fn-Emits f ret_type body h = record {
    run = λ c u. lambda-Leaves f c _ (
        in_fn-AllLeft f _ leave_lambda c h _ (
          then_open (bind_params-Emits f.params) (
            bind_open (emit_lambda_body-Emits ret_type body)
              λ m. then_ended (if_open-Emits _ (emit_default_ret-Emits ret_type)) pure-Emits)));
  }

  pub emit_lambda-Emits :
      (i : NodeInfo) (params : AstList) (t : TypeNode) (body : AstNode)
      → Emits false (emit_lambda emit i params t body) false
  unfolding emit_lambda new_fn
  emit_lambda-Emits i params t body = bind_open lambda_name-Emits λ name.
      bind_open (reads-Emits _) λ ret_type. bind_open (reads-Emits _) λ ps.
        bind_open (emit_lambda_fn-Emits (new_fn name ret_type ps false) ret_type body refl)
          λ m. pure-Emits
