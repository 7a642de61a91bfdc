-- ===== src/Parser/Measure.antt =====
-- What is left to read, and that the steps of the parser make it less. The tokens that are read ahead
-- count unless they are the end of the source.
use fermi.Base.{ℕ, ◌+◌, ◌-◌, ◌≤◌, ◌<◌, ◌≡◌, refl, arith, true, false, if◌then◌else◌, inl, inr}
use fermi.Token.{TokenType, tok_eof}
use fermi.Lexer.{Lexer}
use fermi.Lexer.Moves.{Moves-Onward}
use fermi.Lexer.Next.{lexer_next}
use fermi.Lexer.Tokens.{lexer_next-progress, lexer_next-Moves}
use fermi.Parser.{Parser, advance, rounds}
use fermi.Parser.Kinds.{is, place}

pub weight : TokenType → ℕ
weight t = if is t tok_eof then 0 else 1

abbrev pub measure : Parser → ℕ
measure p = (p.lexer.len - p.lexer.pos) + weight p.cur.type + weight p.peek.type

weight_eof : weight tok_eof ≡ 0
unfolding weight place
weight_eof = refl

weight_small : (t : TokenType) → weight t ≤ 1
unfolding weight
weight_small t = ground arith

-- A token that is of another kind counts.
weight_taken : (t u : TokenType) → is t u ≡ true → is u tok_eof ≡ false → weight t ≡ 1
unfolding weight
weight_taken t u e f = ground arith

-- A call of the lexer takes as much as its token weighs.
lexer_next-weight :
    (l : Lexer)
    → ((lexer_next l).1.len - (lexer_next l).1.pos) + weight (lexer_next l).0.type ≤ l.len - l.pos
lexer_next-weight l =
    let moved = Moves-Onward (lexer_next-Moves l) in
    elim (lexer_next-progress l) [
      | inl e ↦ rw (e, weight_eof) (omega (arith, moved.onward, moved.same_len))
      | inr h ↦ omega (arith, h.0, h.1, h.2, weight_small (lexer_next l).0.type)
    ]

pub measure-advance : (p : Parser) → measure (advance p) + weight p.cur.type ≤ measure p
unfolding advance
measure-advance p = omega (arith, lexer_next-weight p.lexer)

-- Taking a token that is not the end of the source leaves less.
pub measure-advance_taken :
    (p : Parser) (u : TokenType)
    → is p.cur.type u ≡ true
    → is u tok_eof ≡ false
    → measure (advance p) < measure p
measure-advance_taken p u e f = omega (arith, measure-advance p, weight_taken p.cur.type u e f)

-- The same where the current token is known not to be the end of the source.
pub measure-advance_open :
    (p : Parser) → is p.cur.type tok_eof ≡ false → measure (advance p) < measure p
unfolding weight
measure-advance_open p e = let w = measure-advance p in ground arith

pub measure-rounds : (p : Parser) → measure p < rounds p
measure-rounds p = omega (arith, weight_small p.cur.type, weight_small p.peek.type)
