-- ===== src/Codegen.antt =====
-- src/fecodegen/codegen.c and codegen.h: the generator of intermediate code. Its functions take the
-- state and give a result and the next state, or `none` where the source has no result: where the
-- fuel runs out, where there is no current function or block to write to, and where a 65th scope
-- would be written behind the end of `scope_base`. The arrays of a fixed size are lists, the latest
-- entry first where the source reads them from their end, and what the source does when they are
-- full is written out; the counters are not taken to overflow. What is written to the standard error
-- is left out. A function that sets the type of a node returns the node.
pub mod Scope
pub mod Types
pub mod Nodes
pub mod Comptime
pub mod Calls
pub mod Namespaces
pub mod Defers
pub mod Blocks
pub mod Loops
pub mod Match
pub mod Stmt
pub mod Fns
pub mod Values
pub mod Operators
pub mod Objects
pub mod Assign
pub mod Native
pub mod FnCalls
pub mod Intrinsics
pub mod Aggregates
pub mod Lambda
pub mod Expr
pub mod Grows
pub mod Defects
pub mod Decls
use fermi.Base.{
  ℕ, suc, ◌+◌, Bool, true, false, List, [], ◌∷◌, ◌++◌, Option, none, some, get_elem?, set, length,
}
use fermi.Base.Text.{Bytes, codes}
use fermi.Base.Decimal.{decimal}
use fermi.Base.Int.{ℤ}
use fermi.Fir.{
  FirOp, FirInstr, FirBlock, FirFn, FirModule, fir_alloca, fir_store, fir_load, fir_br, fir_br_cond,
  fir_ret, fir_ret_void, fir_unreachable, last,
}
use fermi.Ast.{AstNode}

pub record VarEntry : Type 0 where
  pub name : Bytes
  pub type : Bytes
  pub slot : Bytes
  pub is_mut : Bool

-- The variants, each with the type of its payload.
pub record EnumInfo : Type 0 where
  pub name : Bytes
  pub variants : List (Bytes × Bytes)

-- The fields, each with its type.
pub record StructInfo : Type 0 where
  pub name : Bytes
  pub fields : List (Bytes × Bytes)
  pub is_class : Bool

-- `cur_fn` is the place of the current function in the list of all; `vars` and `scope_base` have
-- their latest entry first.
pub record Codegen : Type 0 where
  pub src_path : Bytes
  pub mod_ : FirModule
  pub cur_fn : Option ℕ
  pub tmp : ℕ
  pub lbl : ℕ
  pub vars : List VarEntry
  pub scope_base : List ℕ
  pub enums : List EnumInfo
  pub structs : List StructInfo
  pub break_label : Option Bytes
  pub cont_label : Option Bytes
  pub cur_ret_type : Option Bytes
  pub defer_stack : List AstNode
  pub fn_defer_base : ℕ
  pub in_region : Bool
  pub in_unsafe : Bool
  pub cur_struct : Option Bytes
  pub comptime : List (Option Bytes × ℤ)

unfoldable pub codegen_new : Option Bytes → Codegen
codegen_new src_path = record {
  src_path = elim src_path [ none ↦ codes "<unknown>" | some path ↦ path ];
  mod_ = record { fns = []; struct_decls = []; globals = [] };
  cur_fn = none;
  tmp = 0;
  lbl = 0;
  vars = [];
  scope_base = [];
  enums = [];
  structs = [];
  break_label = none;
  cont_label = none;
  cur_ret_type = none;
  defer_stack = [];
  fn_defer_base = 0;
  in_region = false;
  in_unsafe = false;
  cur_struct = none;
  comptime = [];
}

abbrev pub Gen : Type 0 → Type 0
Gen A = Codegen → Option (A × Codegen)

abbrev pub pure : {A : Type 0} → A → Gen A
pure a c = some (a, c)

infixl 15 ◌>>=◌ ◌>>◌
unfoldable pub ◌>>=◌ : {A B : Type 0} → Gen A → (A → Gen B) → Gen B
(m >>= k) c = elim (m c) [ none ↦ none | some r ↦ k r.0 r.1 ]

unfoldable pub ◌>>◌ : {A B : Type 0} → Gen A → Gen B → Gen B
m >> k = m >>= λ _. k

-- A value read from the state, and a change of the state.
unfoldable pub reads : {A : Type 0} → (Codegen → A) → Gen A
reads f c = some (f c, c)

unfoldable pub modify : (Codegen → Codegen) → Gen Unit
modify f c = some (tt, f c)

unfoldable pub fmt_int : Bytes → ℕ → Bytes
fmt_int pfx n = pfx ++ decimal n

unfoldable pub newtmp : Gen Bytes
newtmp c = some (fmt_int (codes "t") c.tmp, record c { tmp = suc c.tmp })

unfoldable pub newlbl : Bytes → Gen Bytes
newlbl prefix c = some (fmt_int prefix c.lbl, record c { lbl = suc c.lbl })

abbrev pub fns : Codegen → List FirFn
fns c = c.mod_.fns

abbrev pub with_fns : Codegen → List FirFn → Codegen
with_fns c fs = record c { mod_ = record c.mod_ { fns = fs } }

-- The current function.
abbrev pub fn_at : List FirFn → Option ℕ → Option FirFn
fn_at fs none = none
fn_at fs (some k) = get_elem? fs k

-- Functions with other blocks for the current one.
abbrev pub put_blocks : List FirFn → Option ℕ → FirFn → List FirBlock → List FirFn
put_blocks fs none f bs = fs
put_blocks fs (some k) f bs = set fs k (record f { blocks = bs })

-- A change of the blocks of the current function; `none` where there is no such function.
unfoldable pub on_blocks : (List FirBlock → Option (List FirBlock)) → Gen Unit
on_blocks g c = elim (fn_at (fns c) c.cur_fn) [
  | none ↦ none
  | some f ↦ elim (g f.blocks) [
    | none ↦ none
    | some bs ↦ some (tt, with_fns c (put_blocks (fns c) c.cur_fn f bs))
  ]
]

unfoldable pub new_block : Bytes → Gen Unit
new_block label =
    on_blocks λ bs. some (bs ++ record { label = label; instrs = []; dead = false } ∷ [])

-- An instruction at the end of the last block, which is the current one.
unfoldable pub add_instr : FirInstr → List FirBlock → Option (List FirBlock)
add_instr i [] = none
add_instr i (b ∷ []) = some (record b { instrs = b.instrs ++ i ∷ [] } ∷ [])
add_instr i (b ∷ d ∷ bs) = elim (add_instr i (d ∷ bs)) [ none ↦ none | some rest ↦ some (b ∷ rest) ]

unfoldable pub emit_instr : FirInstr → Gen Unit
emit_instr i = on_blocks (add_instr i)

abbrev pub mk_instr : FirOp → FirInstr
mk_instr op = record {
  op = op;
  dst = none;
  type = none;
  src1 = none;
  src2 = none;
  src3 = none;
  args = [];
  arg_types = [];
  is_tail = false;
}

unfoldable pub emit_alloca : Bytes → Bytes → Gen Unit
emit_alloca dst type =
    emit_instr (record (mk_instr fir_alloca) { dst = some dst; type = some type })

unfoldable pub emit_store : Bytes → Bytes → Bytes → Gen Unit
emit_store val slot type =
    emit_instr (record (mk_instr fir_store) { src1 = some val; dst = some slot; type = some type })

unfoldable pub emit_load : Bytes → Bytes → Gen Bytes
emit_load slot type = do
  dst ← newtmp
  emit_instr (record (mk_instr fir_load) { dst = some dst; src1 = some slot; type = some type })
  pure dst

unfoldable pub emit_br : Bytes → Gen Unit
emit_br label = emit_instr (record (mk_instr fir_br) { src1 = some label })

unfoldable pub emit_br_cond : Bytes → Bytes → Bytes → Gen Unit
emit_br_cond cond t f =
    emit_instr (record (mk_instr fir_br_cond) { src1 = some cond; src2 = some t; src3 = some f })

abbrev pub is_term : FirOp → Bool
is_term fir_br = true
is_term fir_br_cond = true
is_term fir_ret = true
is_term fir_ret_void = true
is_term fir_unreachable = true
is_term _ = false

-- Whether a block ends with an instruction that leaves it.
unfoldable pub ends_term : FirBlock → Bool
ends_term b = elim (last b.instrs) [ none ↦ false | some i ↦ is_term i.op ]

unfoldable pub last_ends : List FirBlock → Bool
last_ends [] = false
last_ends (b ∷ []) = ends_term b
last_ends (b ∷ d ∷ bs) = last_ends (d ∷ bs)

unfoldable pub last_instr_is_term : Gen Bool
last_instr_is_term c = elim (fn_at (fns c) c.cur_fn) [
  | none ↦ none
  | some f ↦ some (last_ends f.blocks, c)
]
