-- ===== src/Parser/Binary/Climb.antt =====
-- The grouping of binary operators. A tree of operators stands for the node that is built of it; an
-- operand is what `unary` reads, whatever node that is.
use fermi.Base.{
  ℕ, zero, suc, ◌+◌, ◌*◌, ◌≤◌, ◌<◌, ◌≡◌, refl, ◌∙◌, arith, false, List, [], ◌∷◌, ◌++◌, Option, none,
  some, inl, inr, Option-cases,
}
use fermi.Token.{TokenType, Token, tok_eof}
use fermi.Ast.{ty_unknown, NodeInfo, AstNode, node_binary}
use fermi.Parser.{Parser, Parsing, ◌>>=◌, ◌>>◌, text, adv, advance, nd, rounds}
use fermi.Parser.Kinds.{is, place}
use fermi.Parser.Measure.{measure, measure-rounds, measure-advance_open}
use fermi.Parser.Ends.{Ends}
use fermi.Parser.Binary.{bin_prec, at_least, binary_within, binary_loop, parse_binary}

pub data Tree : Type 0 where
  operand : AstNode → Tree
  operation : NodeInfo → Token → (prec : ℕ) → Tree → Tree → Tree

pub to_ast : Tree → AstNode
to_ast (operand n) = n
to_ast (operation i t prec l r) = node_binary i (text t) (to_ast l) (to_ast r)

-- The operator at the root does not bind weaker than `min_prec`.
pub RootAtLeast : ℕ → Tree → Type 0
RootAtLeast min_prec (operand n) = Unit
RootAtLeast min_prec (operation i t prec l r) = min_prec ≤ prec

-- Each operation has its operator's precedence. On its left no operator binds weaker, and on its
-- right all bind stronger.
pub Grouped : Tree → Type 0
Grouped (operand n) = Unit
Grouped (operation i t prec l r) =
    (bin_prec t.type ≡ some prec)
    × RootAtLeast prec l
    × RootAtLeast (suc prec) r
    × Grouped l
    × Grouped r

pub data Item : Type 0 where
  read_operand : AstNode → Item
  read_operator : Token → Item

-- The operands and operators of a tree, from left to right.
pub items : Tree → List Item
items (operand n) = read_operand n ∷ []
items (operation i t prec l r) = items l ++ read_operator t ∷ items r

-- Reading the items takes one state to the other: an operand by `unary`, an operator as the current
-- token.
pub data Reads (unary : Parsing AstNode) : Parser → List Item → Parser → Type 0 where
  all_read : {p : Parser} → Reads unary p [] p
  by_unary :
      {p q r : Parser} {n : AstNode} {xs : List Item}
      → unary p ≡ some (n, q)
      → Reads unary q xs r
      → Reads unary p (read_operand n ∷ xs) r
  by_advance :
      {p r : Parser} {xs : List Item}
      → Reads unary (advance p) xs r
      → Reads unary p (read_operator p.cur ∷ xs) r

Reads-append :
    {unary : Parsing AstNode} {p q r : Parser} {xs ys : List Item}
    → Reads unary p xs q
    → Reads unary q ys r
    → Reads unary p (xs ++ ys) r
Reads-append all_read s = s
Reads-append (by_unary e c) s = by_unary e (Reads-append c s)
Reads-append (by_advance c) s = by_advance (Reads-append c s)

-- A result: the node of a grouped tree whose items were read from `start`, with no operator left that
-- is not below `min_prec`.
pub record Climbed (unary : Parsing AstNode) (min_prec : ℕ) (start : Parser) (bound : ℕ)
    (o : Option (AstNode × Parser)) : Type 0 where
  pub tree : Tree
  pub state : Parser
  pub gives : o ≡ some (to_ast tree, state)
  pub read : Reads unary start (items tree) state
  pub grouped : Grouped tree
  pub root : RootAtLeast min_prec tree
  pub stopped : at_least min_prec (bin_prec state.cur.type) ≡ none
  pub within : measure state ≤ bound

operator_open : (t : TokenType) (prec : ℕ) → bin_prec t ≡ some prec → is t tok_eof ≡ false
unfolding bin_prec place
operator_open tok_eof prec e = cc
operator_open _ prec e = refl

at_least-some :
    (min_prec prec : ℕ) (o : Option ℕ)
    → at_least min_prec o ≡ some prec
    → (o ≡ some prec) × (min_prec ≤ prec)
at_least-some min_prec prec none e = cc
at_least-some min_prec prec (some q) e = ground arith

at_least-none :
    (min_prec prec : ℕ) (o : Option ℕ)
    → at_least min_prec o ≡ none
    → o ≡ some prec
    → prec < min_prec
at_least-none min_prec prec none e f = cc
at_least-none min_prec prec (some q) e f = ground arith

wider-Climbed :
    {unary : Parsing AstNode} {min_prec : ℕ} {start : Parser} {k n : ℕ}
    {o : Option (AstNode × Parser)}
    → Climbed unary min_prec start k o
    → k ≤ n
    → Climbed unary min_prec start n o
wider-Climbed c h = record {
  tree = c.tree;
  state = c.state;
  gives = c.gives;
  read = c.read;
  grouped = c.grouped;
  root = c.root;
  stopped = c.stopped;
  within = omega (arith, c.within);
}

some_injective : {a b : ℕ} → some a ≡ some b → a ≡ b
some_injective e = cc

-- A choice between two ways to go on, where it is known.
choose_none :
    (m : Parsing AstNode) (k : ℕ → Parsing AstNode) (o : Option ℕ) (p : Parser)
    → o ≡ none
    → (elim o as (λ _. Parsing AstNode) [ none ↦ m | some prec ↦ k prec ]) p ≡ m p
choose_none m k none p e = refl
choose_none m k (some prec) p e = cc

choose_some :
    (m : Parsing AstNode) (k : ℕ → Parsing AstNode) (o : Option ℕ) (prec : ℕ) (p : Parser)
    → o ≡ some prec
    → (elim o as (λ _. Parsing AstNode) [ none ↦ m | some prec ↦ k prec ]) p ≡ k prec p
choose_some m k none prec p e = cc
choose_some m k (some q) prec p e = rw (some_injective e)

loop_stop :
    (unary : Parsing AstNode) (fuel min_prec : ℕ) (left : AstNode) (p : Parser)
    → at_least min_prec (bin_prec p.cur.type) ≡ none
    → binary_loop unary (suc fuel) min_prec left p ≡ some (left, p)
unfolding binary_loop ◌>>=◌
loop_stop unary fuel min_prec left p e =
    choose_none _ _ (at_least min_prec (bin_prec p.cur.type)) p e

-- What `nd` reads.
abbrev info : Parser → NodeInfo
info p = record { line = p.cur.line; col = p.cur.col; ty = ty_unknown; ty_name = none }

loop_step :
    (unary : Parsing AstNode) (fuel min_prec prec : ℕ) (left right : AstNode) (p q : Parser)
    → at_least min_prec (bin_prec p.cur.type) ≡ some prec
    → binary_within unary fuel (suc prec) (advance p) ≡ some (right, q)
    → binary_loop unary (suc fuel) min_prec left p
      ≡ binary_loop unary fuel min_prec (node_binary (info q) (text p.cur) left right) q
unfolding binary_loop ◌>>=◌ ◌>>◌ adv nd
loop_step unary fuel min_prec prec left right p q e f =
    choose_some _ _ (at_least min_prec (bin_prec p.cur.type)) prec p e ∙ rw (f, ◌>>=◌)

-- No operator that stands at `p` binds stronger than the root of the tree to its left.
abbrev Joins : Tree → Parser → Type 0
Joins l p = (prec : ℕ) → bin_prec p.cur.type ≡ some prec → RootAtLeast prec l

module _ (unary : Parsing AstNode) (ends : (p : Parser) → Ends (measure p) (unary p)) where
  mutual
    unfolding binary_within binary_loop ◌>>=◌ ◌>>◌ adv nd to_ast items RootAtLeast Grouped

    within-Climbed :
        (fuel min_prec : ℕ) (p : Parser)
        → measure p * 2 + 2 ≤ fuel
        → Climbed unary min_prec p (measure p) (binary_within unary fuel min_prec p)
    within-Climbed zero min_prec p h = absurd (omega arith)
    within-Climbed (suc fuel) min_prec p h =
        let u = ends p in
        rw (u.gives, ◌>>=◌)
          (wider-Climbed
            (loop-Climbed fuel min_prec p (operand u.value) u.state (omega (arith, h, u.within))
              (by_unary u.gives all_read) tt tt (λ prec e. tt))
            u.within)

    loop-Climbed :
        (fuel min_prec : ℕ) (start : Parser) (l : Tree) (p : Parser)
        → measure p * 2 + 1 ≤ fuel
        → Reads unary start (items l) p
        → Grouped l
        → RootAtLeast min_prec l
        → Joins l p
        → Climbed unary min_prec start (measure p) (binary_loop unary fuel min_prec (to_ast l) p)
    loop-Climbed zero min_prec start l p h c g m j = absurd (omega arith)
    loop-Climbed (suc fuel) min_prec start l p h c g m j =
        elim (Option-cases (at_least min_prec (bin_prec p.cur.type))) [
          | inl e ↦ rw (loop_stop unary fuel min_prec (to_ast l) p e) (record {
            tree = l;
            state = p;
            gives = refl;
            read = c;
            grouped = g;
            root = m;
            stopped = e;
            within = omega arith;
          })
          | inr (prec, e) ↦
              let f = at_least-some min_prec prec (bin_prec p.cur.type) e in
              let less = measure-advance_open p (operator_open p.cur.type prec f.0) in
              let r = within-Climbed fuel (suc prec) (advance p) (omega (arith, h, less)) in
              rw (loop_step unary fuel min_prec prec (to_ast l) (to_ast r.tree) p r.state e r.gives)
                (wider-Climbed
                  (loop-Climbed fuel min_prec start (operation (info r.state) p.cur prec l r.tree)
                    r.state (omega (arith, h, less, r.within)) (Reads-append c (by_advance r.read))
                    (f.0, j prec f.0, r.root, g, r.grouped) f.1
                    (λ next k. omega (arith, at_least-none (suc prec) next _ r.stopped k)))
                  (omega (arith, less, r.within)))
        ]

  -- With operands that are read to their end in every state, `parse_binary` ends in every state with
  -- at most as much left as there was. Its node is that of a tree whose operands and operators, from
  -- left to right, are what was read. In the tree each operator has its precedence, none on its left
  -- binds weaker and all on its right bind stronger; its root is not below the bound, and the
  -- operator that stands behind it, if any, is.
  pub parse_binary-Climbed :
      (min_prec : ℕ) (p : Parser)
      → Climbed unary min_prec p (measure p) (parse_binary unary min_prec p)
  unfolding parse_binary
  parse_binary-Climbed min_prec p =
      within-Climbed (rounds p * 2) min_prec p (omega (arith, measure-rounds p))
