-- ===== src/Hir/Paths.antt =====
-- The paths of the standard imports that lowering reaches.
use fermi.Base.{Bool, true, List, [], ◌∷◌, ◌++◌, Option, some}
use fermi.Base.Text.{Bytes}
use fermi.Ast.{
  AstNode, AstList, node_program, node_import, node_fn_decl, node_class_decl, node_var_decl,
  node_block, node_if, node_while, node_for_c, node_for_in, node_match, node_match_arm, node_return,
  node_defer, node_expr_stmt, node_assign, node_compound_assign, node_binary, node_unary, node_call,
  node_index, node_field, node_struct_init, node_ref, node_deref, node_region, nil, cons,
}

unfoldable pub std_path : Option Bytes → Bool → List Bytes
std_path (some path) true = path ∷ []
std_path _ _ = []

-- The paths of the standard imports that lowering reaches, from the first.
unfoldable mutual
  unfolding std_path

  pub imports : AstNode → List Bytes
  imports (node_program i decls is_module) = imports_list decls
  imports (node_import i path is_std) = std_path path is_std
  imports (node_fn_decl i f params body) = imports_list params ++ imports body
  imports (node_var_decl i v init) = imports init
  imports (node_block i stmts) = imports_list stmts
  imports (node_if i cond body els) = imports cond ++ (imports body ++ imports els)
  imports (node_while i is_do cond body) = imports cond ++ imports body
  imports (node_for_c i init cond step body) =
      imports init ++ (imports cond ++ (imports step ++ imports body))
  imports (node_for_in i var iter body) = imports iter ++ imports body
  imports (node_match i expr arms) = imports expr ++ imports_list arms
  imports (node_match_arm i a body) = imports body
  imports (node_return i val) = imports val
  imports (node_expr_stmt i expr) = imports expr
  imports (node_assign i left right) = imports left ++ imports right
  imports (node_compound_assign i op left right) = imports left ++ imports right
  imports (node_binary i op left right) = imports left ++ imports right
  imports (node_unary i op operand prefix) = imports operand
  imports (node_call i callee args) = imports callee ++ imports_list args
  imports (node_field i obj field) = imports obj
  imports (node_index i obj idx) = imports obj ++ imports idx
  imports (node_ref i expr) = imports expr
  imports (node_deref i expr) = imports expr
  imports (node_struct_init i type_name fields) = imports_list fields
  imports (node_region i body name) = imports_list body
  imports (node_class_decl i name privates publics) = imports_list privates ++ imports_list publics
  imports (node_defer i expr) = imports expr
  imports _ = []

  pub imports_list : AstList → List Bytes
  imports_list nil = []
  imports_list (cons n ns) = imports n ++ imports_list ns
