-- ===== src/Lexer/Trivia.antt =====
-- src/felexer/lexer.c, `skip_ws`: blanks, line comments and block comments.
use fermi.Base.{
  ℕ, ◌-◌, ◌<◌, ◌≡◌, arith, Bool, true, false, not, ◌&&◌, ◌||◌, ltb, ◌==◌, if◌then◌else◌, Bool-cases,
  inl, inr,
}
use fermi.Base.Loops.{while, while_keeps, while_ends}
use fermi.Lexer.{Lexer, pk, pk2, lx_adv, skip_while, rounds}
use fermi.Lexer.Moves.{
  Moves, stay, step, trans, if-Moves, skip_while-Moves, Moves-Onward, pos-lx_adv,
}

abbrev pub is_blank : ℕ → Bool
is_blank c = c == b' ' || c == b'\t' || c == b'\r' || c == b'\n'

-- `c=='/'&&pk2(l)=='/'` and `c=='/'&&pk2(l)=='*'`
abbrev pub at_line_comment : Lexer → Bool
at_line_comment l = pk l == b'/' && pk2 l == b'/'

abbrev pub at_block_comment : Lexer → Bool
at_block_comment l = pk l == b'/' && pk2 l == b'*'

abbrev pub at_comment_end : Lexer → Bool
at_comment_end l = pk l == b'*' && pk2 l == b'/'

-- The inner loop of a block comment, with its `break` behind the loop: it stops before `*/`.
unfoldable pub skip_block : Lexer → Lexer
unfolding while
skip_block l =
    let inside = lx_adv (lx_adv l) in
    let m = while (rounds inside) (λ m. ltb m.pos m.len && not (at_comment_end m)) lx_adv inside in
    if ltb m.pos m.len then lx_adv (lx_adv m) else m

-- One round of the outer loop.
unfoldable pub skip_one : Lexer → Lexer
unfolding skip_block skip_while
skip_one l =
    if is_blank (pk l)
    then lx_adv l
    else if at_line_comment l
    then skip_while (λ c. not (c == b'\n')) l
    else skip_block l

-- Its test, with the last `else break`.
abbrev pub at_trivia : Lexer → Bool
at_trivia l = ltb l.pos l.len && (is_blank (pk l) || at_line_comment l || at_block_comment l)

unfoldable pub skip_ws : Lexer → Lexer
unfolding skip_one while
skip_ws l = while (rounds l) at_trivia skip_one l

skip_block-Moves : (l : Lexer) → Moves l (skip_block l)
unfolding skip_block
skip_block-Moves l =
    let inside = lx_adv (lx_adv l) in
    let m = while (rounds inside) (λ m. ltb m.pos m.len && not (at_comment_end m)) lx_adv inside in
    let reach : Moves l m =
      while_keeps (λ m. Moves l m) (λ m. ltb m.pos m.len && not (at_comment_end m)) lx_adv
        (λ m p e. step p) (rounds inside) inside (step (step stay)) in
    if-Moves (ltb m.pos m.len) (lx_adv (lx_adv m)) m (step (step reach)) reach

skip_one-Moves : (l : Lexer) → Moves l (skip_one l)
unfolding skip_one
skip_one-Moves l = if-Moves (is_blank (pk l)) _ _ (step stay) (
    if-Moves (at_line_comment l) _ _ (skip_while-Moves (λ c. not (c == b'\n')) l)
      (skip_block-Moves l))

pub skip_ws-Moves : (l : Lexer) → Moves l (skip_ws l)
unfolding skip_ws
skip_ws-Moves l =
    while_keeps (λ m. Moves l m) at_trivia skip_one (λ m p e. trans p (skip_one-Moves m)) (rounds l)
      l stay

-- A first round that passes its test moves on.
pub skip_while_first :
    (test : ℕ → Bool) (l : Lexer)
    → (ltb l.pos l.len && test (pk l)) ≡ true
    → Moves (lx_adv l) (skip_while test l)
unfolding skip_while
skip_while_first test l e =
    rw (e, while)
      (while_keeps (λ m. Moves (lx_adv l) m) (λ m. ltb m.pos m.len && test (pk m)) lx_adv
        (λ m p e. step p) (l.len - l.pos) (lx_adv l) stay)

skip_block_first : (l : Lexer) → Moves (lx_adv l) (skip_block l)
unfolding skip_block
skip_block_first l =
    let inside = lx_adv (lx_adv l) in
    let m = while (rounds inside) (λ m. ltb m.pos m.len && not (at_comment_end m)) lx_adv inside in
    let reach : Moves (lx_adv l) m =
      while_keeps (λ m. Moves (lx_adv l) m) (λ m. ltb m.pos m.len && not (at_comment_end m)) lx_adv
        (λ m p e. step p) (rounds inside) inside (step stay) in
    if-Moves (ltb m.pos m.len) (lx_adv (lx_adv m)) m (step (step reach)) reach

at_line_comment-more :
    (l : Lexer)
    → at_trivia l ≡ true
    → at_line_comment l ≡ true
    → (ltb l.pos l.len && not (pk l == b'\n')) ≡ true
at_line_comment-more l t c = ground arith

skip_one_first : (l : Lexer) → at_trivia l ≡ true → Moves (lx_adv l) (skip_one l)
unfolding skip_one
skip_one_first l t = elim (Bool-cases (is_blank (pk l))) [
  | inl e ↦ rw e stay
  | inr e ↦ elim (Bool-cases (at_line_comment l)) [
    | inl c ↦ rw (e, c) (skip_while_first (λ c. not (c == b'\n')) l (at_line_comment-more l t c))
    | inr c ↦ rw (e, c) (skip_block_first l)
  ]
]

skip_one-shorter :
    (l : Lexer) → at_trivia l ≡ true → (skip_one l).len - (skip_one l).pos < l.len - l.pos
skip_one-shorter l t =
    let first = Moves-Onward (skip_one_first l t) in
    let all = Moves-Onward (skip_one-Moves l) in
    let room : l.pos < l.len = ground arith in
    omega (arith, first.onward, all.same_len, pos-lx_adv l, room)

-- Where `skip_ws` stops, neither a blank nor a comment follows: its loop ends by its test,
-- whatever the source.
pub skip_ws-at_trivia : (l : Lexer) → at_trivia (skip_ws l) ≡ false
unfolding skip_ws
skip_ws-at_trivia l =
    while_ends (λ m. m.len - m.pos) at_trivia skip_one skip_one-shorter (rounds l) l (omega arith)
