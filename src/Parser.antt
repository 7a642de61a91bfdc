-- ===== src/Parser.antt =====
-- src/feparser/parser.c and parser.h: the parser's state and its basic steps. A parsing function takes
-- the state and gives a result and the next state, or `none` where its fuel runs out.
-- The allocations of nodes and of copies of strings are left out, and a string is cut at its first
-- NUL where the source copies or compares it. The path
-- that messages name is left out. `no_struct_lit` is a count; what is written to the
-- standard error is the list of diagnostics, the last one first.
pub mod Kinds
pub mod Types
pub mod Calls
pub mod Binary
pub mod Interp
pub mod Named
pub mod Primary
pub mod Postfix
pub mod Decl
pub mod Control
pub mod Match
pub mod Stmt
pub mod Program
pub mod Measure
pub mod Ends
use Prim.Native.String.{String}
use fermi.Base.{
  ℕ, suc, ◌+◌, ◌-◌, Bool, true, false, List, [], ◌∷◌, Option, none, some, if◌then◌else◌, ◌==◌,
}
use fermi.Base.Text.{c_string, Bytes, codes}
use fermi.Arena.{Arena}
use fermi.Token.{TokenType, Token}
use fermi.Lexer.{Lexer, lexer_new}
use fermi.Lexer.Next.{lexer_next}
use fermi.Ast.{TypeKind, NodeInfo, ty_unknown}
use Kinds.{is}

pub record ParseDiag : Type 0 where
  pub line : ℕ
  pub col : ℕ
  pub msg : Bytes
  pub found : Bytes

pub record Parser : Type 0 where
  pub lexer : Lexer
  pub cur : Token
  pub peek : Token
  pub had_error : Bool
  pub no_struct_lit : ℕ
  pub diags : List ParseDiag

abbrev pub Parsing : Type 0 → Type 0
Parsing A = Parser → Option (A × Parser)

abbrev pub pure : {A : Type 0} → A → Parsing A
pure a p = some (a, p)

infixl 15 ◌>>=◌ ◌>>◌
unfoldable pub ◌>>=◌ : {A B : Type 0} → Parsing A → (A → Parsing B) → Parsing B
(m >>= k) p = elim (m p) [ none ↦ none | some r ↦ k r.0 r.1 ]

unfoldable pub ◌>>◌ : {A B : Type 0} → Parsing A → Parsing B → Parsing B
m >> k = m >>= λ _. k

abbrev pub text : Token → Bytes
text t = c_string t.value

abbrev pub current : Parsing Token
current p = some (p.cur, p)

abbrev pub kind_now : Parsing TokenType
kind_now p = some (p.cur.type, p)

-- What `nd` sets in a new node; the kind is the constructor.
unfoldable pub nd : Parsing NodeInfo
nd p = some (record { line = p.cur.line; col = p.cur.col; ty = ty_unknown; ty_name = none }, p)

-- `n->ty = k`
abbrev pub with_kind : TypeKind → NodeInfo → NodeInfo
with_kind k i = record i { ty = k }

unfoldable pub chk : TokenType → Parsing Bool
chk t p = some (is p.cur.type t, p)

unfoldable pub chkp : TokenType → Parsing Bool
chkp t p = some (is p.peek.type t, p)

-- The state after `adv`, which returns the token that was current.
unfoldable pub advance : Parser → Parser
advance p = let (t, l) = lexer_next p.lexer in record p { lexer = l; cur = p.peek; peek = t }

unfoldable pub adv : Parsing Token
adv p = some (p.cur, advance p)

unfoldable pub mat : TokenType → Parsing Bool
mat t p = if is p.cur.type t then some (true, advance p) else some (false, p)

unfoldable pub report : Bytes → Parser → Parser
report msg p = record p {
  had_error = true;
  diags = record { line = p.cur.line; col = p.cur.col; msg = msg; found = text p.cur } ∷ p.diags;
}

unfoldable pub err : String → Parsing Unit
err msg p = some (tt, report (codes msg) p)

unfoldable pub expect : TokenType → String → Parsing Unit
unfolding mat
expect t msg = do found ← mat t; if found then pure tt else err msg

-- `p->no_struct_lit++` and `p->no_struct_lit--` around a call.
unfoldable pub no_struct_lit_in : {A : Type 0} → Parsing A → Parsing A
no_struct_lit_in m = do
  λ p. some (tt, record p { no_struct_lit = p.no_struct_lit + 1 })
  a ← m
  λ p. some (a, record p { no_struct_lit = p.no_struct_lit - 1 })

-- Fuel for what takes a token in each round: a token takes a character of the source, but for the
-- last one, and two are read ahead.
abbrev pub rounds : Parser → ℕ
rounds p = suc (suc (suc (p.lexer.len - p.lexer.pos)))

unfoldable pub parser_new : Bytes → ℕ → Arena → Parser
parser_new src src_len arena =
    let (c, l) = lexer_next (lexer_new src src_len arena) in
    let (n, l') = lexer_next l in
    record { lexer = l'; cur = c; peek = n; had_error = false; no_struct_lit = 0; diags = [] }
