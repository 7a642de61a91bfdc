-- ===== src/Lexer/Skipped.antt =====
-- What `skip_ws` passes over: blanks and comments.
use fermi.Base.{
  ℕ, ◌+◌, ◌<◌, ◌≤◌, ◌≡◌, ◌⊎◌, refl, arith, Bool, true, false, not, ◌&&◌, ◌||◌, ltb, ◌==◌,
  if◌then◌else◌, Bool-cases, inl, inr,
}
use fermi.Base.Loops.{while_keeps}
use fermi.Lexer.{Lexer, pk, pk2, lx_adv, skip_while, rounds}
use fermi.Lexer.Moves.{pos-lx_adv}
use fermi.Lexer.Trivia.{
  is_blank, at_line_comment, at_block_comment, at_trivia, skip_block, skip_one, skip_ws,
  skip_ws-at_trivia,
}
use fermi.Lexer.Gaps.{
  byte_at, is_white, begins_trivia, ends_comment, UpTo, Trivia, nothing, blank, line, closed,
  unclosed, Same, lx_adv-Same, byte_at-pk, byte_at-pk2, skip_line-UpTo, block_end, block_end-UpTo,
}

-- What is passed over from a place of the source on.
record Passed (l : Lexer) (i : ℕ) (m : Lexer) : Type 0 where
  same : Same l m
  within : m.pos ≤ l.len
  trivia : Trivia l i m.pos

pos-lx_adv_twice : (m : Lexer) → (lx_adv (lx_adv m)).pos ≡ m.pos + 2
pos-lx_adv_twice m = omega (arith, pos-lx_adv m, pos-lx_adv (lx_adv m))

blank-Passed :
    (l : Lexer) (i : ℕ) (m : Lexer)
    → Passed l i m
    → m.pos < m.len
    → is_blank (pk m) ≡ true
    → Passed l i (lx_adv m)
blank-Passed l i m p h e =
    let room : m.pos < l.len = rw p.same.same_len at h in
    record {
      same = lx_adv-Same l m p.same;
      within = omega (arith, pos-lx_adv m);
      trivia =
          rw (pos-lx_adv m) (blank p.trivia room (rw (byte_at-pk l m p.same) at (white (pk m) e)));
    }
  where
    white : (c : ℕ) → is_blank c ≡ true → is_white c ≡ true
    white c e = ground arith

line-Passed :
    (l : Lexer) (i : ℕ) (m : Lexer)
    → Passed l i m
    → at_line_comment m ≡ true
    → Passed l i (skip_while (λ c. not (c == b'\n')) m)
line-Passed l i m p e =
    let (same, up) = skip_line-UpTo l m p.same p.within in
    let first : byte_at l m.pos ≡ b'/' = rw (byte_at-pk l m p.same) at (slash m e) in
    let second : byte_at l (m.pos + 1) ≡ b'/' = rw (byte_at-pk2 l m p.same) at (next m e) in
    record { same = same; within = up.within; trivia = line p.trivia first second up }
  where
    slash : (m : Lexer) → at_line_comment m ≡ true → pk m ≡ b'/'
    slash m e = ground arith

    next : (m : Lexer) → at_line_comment m ≡ true → pk2 m ≡ b'/'
    next m e = ground arith

-- Behind the loop of a block comment.
close-Passed :
    (l : Lexer) (i j begin : ℕ) (m : Lexer)
    → Trivia l i j
    → byte_at l j ≡ b'/'
    → byte_at l (j + 1) ≡ b'*'
    → Same l m
    → begin ≡ j + 2
    → UpTo l (ends_comment l) begin m.pos
    → Passed l i (if ltb m.pos m.len then lx_adv (lx_adv m) else m)
close-Passed l i j begin m t first second s b from =
    let up : UpTo l (ends_comment l) (j + 2) m.pos = rw b at from in
    elim up.stops [
      | inl e ↦
          let stop : ltb m.pos m.len ≡ false = rw s.same_len (ground arith) in
          rw stop (record { same = s; within = up.within; trivia = unclosed t first second up e })
      | inr e ↦
          let room : m.pos + 1 < l.len = ground arith in
          let go : ltb m.pos m.len ≡ true = rw s.same_len (ground arith) in
          rw go (record {
            same = lx_adv-Same l _ (lx_adv-Same l m s);
            within = omega (arith, pos-lx_adv_twice m);
            trivia = rw (pos-lx_adv_twice m) (closed t first second up e);
          })
    ]

block-Passed :
    (l : Lexer) (i : ℕ) (m : Lexer)
    → Passed l i m
    → at_block_comment m ≡ true
    → Passed l i (skip_block m)
unfolding skip_block block_end
block-Passed l i m p e =
    let first : byte_at l m.pos ≡ b'/' = rw (byte_at-pk l m p.same) at (slash m e) in
    let second : byte_at l (m.pos + 1) ≡ b'*' = rw (byte_at-pk2 l m p.same) at (star m e) in
    let room : m.pos + 1 < l.len = ground arith in
    let inside = lx_adv-Same l _ (lx_adv-Same l m p.same) in
    let (same, up) =
      block_end-UpTo l (lx_adv (lx_adv m)) inside (omega (arith, pos-lx_adv_twice m)) in
    close-Passed l i m.pos _ _ p.trivia first second same (pos-lx_adv_twice m) up
  where
    slash : (m : Lexer) → at_block_comment m ≡ true → pk m ≡ b'/'
    slash m e = ground arith

    star : (m : Lexer) → at_block_comment m ≡ true → pk2 m ≡ b'*'
    star m e = ground arith

skip_one-Passed :
    (l : Lexer) (i : ℕ) (m : Lexer) → Passed l i m → at_trivia m ≡ true → Passed l i (skip_one m)
unfolding skip_one
skip_one-Passed l i m p t = elim (Bool-cases (is_blank (pk m))) [
  | inl e ↦ rw e (blank-Passed l i m p (ground arith) e)
  | inr e ↦ elim (Bool-cases (at_line_comment m)) [
    | inl c ↦ rw (e, c) (line-Passed l i m p c)
    | inr c ↦ rw (e, c) (block-Passed l i m p (ground arith))
  ]
]

skip_ws-Passed : (l : Lexer) → l.pos ≤ l.len → Passed l l.pos (skip_ws l)
unfolding skip_ws
skip_ws-Passed l h =
    while_keeps (λ m. Passed l l.pos m) at_trivia skip_one (λ m p e. skip_one-Passed l l.pos m p e)
      (rounds l) l
      (record { same = record { same_src = refl; same_len = refl }; within = h; trivia = nothing })

begins_trivia-at_trivia :
    (l m : Lexer)
    → Same l m
    → m.pos ≤ l.len
    → at_trivia m ≡ false
    → (m.pos ≡ l.len) ⊎ (begins_trivia l m.pos ≡ false)
begins_trivia-at_trivia l m s h e = elim (Bool-cases (ltb m.pos l.len)) [
  | inl room ↦ inr (
      none (byte_at l m.pos) (byte_at l (m.pos + 1)) (ltb m.pos l.len) room
        (rw (byte_at-pk l m s, byte_at-pk2 l m s, s.same_len) at e))
  | inr room ↦ inl (ground arith)
]
  where
    none :
        (c d : ℕ) (b : Bool)
        → b ≡ true
        → (b && (is_blank c || c == b'/' && d == b'/' || c == b'/' && d == b'*')) ≡ false
        → (is_white c || c == b'/' && (d == b'/' || d == b'*')) ≡ false
    none c d b t e = ground arith

-- From a place within the source, `skip_ws` passes over blanks and whole comments, stays within the
-- source, and stops at its end or where neither a blank nor a comment begins.
pub skip_ws-Trivia :
    (l : Lexer)
    → l.pos ≤ l.len
    → Trivia l l.pos (skip_ws l).pos
      × ((skip_ws l).pos ≤ l.len)
      × (((skip_ws l).pos ≡ l.len) ⊎ (begins_trivia l (skip_ws l).pos ≡ false))
skip_ws-Trivia l h =
    let p = skip_ws-Passed l h in
    (
      p.trivia,
      p.within,
      begins_trivia-at_trivia l (skip_ws l) p.same p.within (skip_ws-at_trivia l),
    )
