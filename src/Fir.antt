-- ===== src/Fir.antt =====
-- src/fecodegen/fir.h: the intermediate code. A null `char *` is `none`; the linked lists of the
-- source are lists, so that a block's `tail` is the last of its instructions.
pub mod Print
pub mod Instr
use fermi.Base.{Bool, List, [], ◌∷◌, Option, none, some}
use fermi.Base.Text.{Bytes}

pub data FirOp : Type 0 where
  fir_alloca fir_store fir_load fir_add fir_sub fir_mul fir_div fir_mod fir_udiv : FirOp
  fir_urem fir_fadd fir_fsub fir_fmul fir_fdiv fir_icmp fir_fcmp fir_and fir_or : FirOp
  fir_xor fir_not fir_bitnot fir_shl fir_shr fir_lshr fir_br fir_br_cond fir_call : FirOp
  fir_call_indirect fir_ret fir_ret_void fir_label fir_zext fir_sext fir_trunc : FirOp
  fir_fpext fir_fptrunc fir_sitofp fir_uitofp fir_fptosi fir_fptoui fir_gep : FirOp
  fir_gep_struct fir_ptr_add fir_ptrtoint fir_inttoptr fir_bitcast fir_neg fir_fneg : FirOp
  fir_const_str fir_phi fir_select fir_nop fir_unreachable fir_memcpy fir_memset_i : FirOp

pub record FirInstr : Type 0 where
  pub op : FirOp
  pub dst : Option Bytes
  pub type : Option Bytes
  pub src1 : Option Bytes
  pub src2 : Option Bytes
  pub src3 : Option Bytes
  pub args : List Bytes
  pub arg_types : List Bytes
  pub is_tail : Bool

pub record FirBlock : Type 0 where
  pub label : Bytes
  pub instrs : List FirInstr
  pub dead : Bool

pub record FirParam : Type 0 where
  pub name : Bytes
  pub type : Bytes

pub record FirFn : Type 0 where
  pub name : Bytes
  pub ret_type : Option Bytes
  pub params : List FirParam
  pub blocks : List FirBlock
  pub is_extern : Bool
  pub is_vararg : Bool

pub record FirStructDecl : Type 0 where
  pub name : Bytes
  pub field_types : List Bytes

pub record FirGlobal : Type 0 where
  pub name : Bytes
  pub type : Option Bytes
  pub init : Option Bytes
  pub is_const : Bool

pub record FirModule : Type 0 where
  pub fns : List FirFn
  pub struct_decls : List FirStructDecl
  pub globals : List FirGlobal

-- `b->tail`
abbrev pub last : List FirInstr → Option FirInstr
last [] = none
last (i ∷ []) = some i
last (i ∷ j ∷ is) = last (j ∷ is)
