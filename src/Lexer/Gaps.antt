-- ===== src/Lexer/Gaps.antt =====
-- The blanks and comments of a source, told from its bytes, and the loops that pass over a comment.
use fermi.Base.{
  ℕ, ◌+◌, ◌-◌, ◌<◌, ◌≤◌, ◌≡◌, ◌⊎◌, refl, sym, ◌∙◌, arith, Bool, true, false, not, ◌&&◌, ◌||◌, ltb,
  ◌==◌, if◌then◌else◌, Bool-cases, inl, inr, get_or,
}
use fermi.Base.Loops.{while, while_keeps, while_ends}
use fermi.Lexer.{Lexer, pk, pk2, lx_adv, skip_while, rounds}
use fermi.Lexer.Moves.{Moves-Onward, adv, pos-lx_adv}
use fermi.Lexer.Trivia.{at_comment_end}

-- The byte at a place of the source, 0 behind it.
abbrev pub byte_at : Lexer → ℕ → ℕ
byte_at l k = if ltb k l.len then get_or l.src k 0 else 0

-- Tab, line feed, carriage return and space.
abbrev pub is_white : ℕ → Bool
is_white c = c == 9 || c == 10 || c == 13 || c == 32

-- A blank or a comment begins at a place.
abbrev pub begins_trivia : Lexer → ℕ → Bool
begins_trivia l k =
    is_white (byte_at l k)
    || byte_at l k == b'/' && (byte_at l (k + 1) == b'/' || byte_at l (k + 1) == b'*')

-- `*/` stands at a place.
abbrev pub ends_comment : Lexer → ℕ → Bool
ends_comment l k = byte_at l k == b'*' && byte_at l (k + 1) == b'/'

abbrev pub is_newline : Lexer → ℕ → Bool
is_newline l k = byte_at l k == b'\n'

-- Between two places no place has a property, and it has it at the second one, or the source ends
-- there.
pub record UpTo (l : Lexer) (test : ℕ → Bool) (i k : ℕ) : Type 0 where
  pub from : i ≤ k
  pub within : k ≤ l.len
  pub before : (j : ℕ) → i ≤ j → j < k → test j ≡ false
  pub stops : (k ≡ l.len) ⊎ (test k ≡ true)

-- The bytes between two places are blanks and comments. A line comment goes up to the line feed, a
-- block comment over the first `*/` behind its `/*`, and either to the end of the source where there
-- is none.
pub data Trivia (l : Lexer) (i : ℕ) : ℕ → Type 0 where
  nothing : Trivia l i i
  blank : {j : ℕ} → Trivia l i j → j < l.len → is_white (byte_at l j) ≡ true → Trivia l i (j + 1)
  line :
      {j k : ℕ}
      → Trivia l i j
      → byte_at l j ≡ b'/'
      → byte_at l (j + 1) ≡ b'/'
      → UpTo l (is_newline l) j k
      → Trivia l i k
  closed :
      {j k : ℕ}
      → Trivia l i j
      → byte_at l j ≡ b'/'
      → byte_at l (j + 1) ≡ b'*'
      → UpTo l (ends_comment l) (j + 2) k
      → ends_comment l k ≡ true
      → Trivia l i (k + 2)
  unclosed :
      {j k : ℕ}
      → Trivia l i j
      → byte_at l j ≡ b'/'
      → byte_at l (j + 1) ≡ b'*'
      → UpTo l (ends_comment l) (j + 2) k
      → k ≡ l.len
      → Trivia l i k

-- The same source.
pub record Same (l m : Lexer) : Type 0 where
  pub same_src : m.src ≡ l.src
  pub same_len : m.len ≡ l.len

pub lx_adv-Same : (l m : Lexer) → Same l m → Same l (lx_adv m)
lx_adv-Same l m s =
    let o = Moves-Onward (adv m) in
    record { same_src = o.same_src ∙ s.same_src; same_len = o.same_len ∙ s.same_len }

where_it_stops :
    (l : Lexer) (test : ℕ → Bool) (k : ℕ)
    → k ≤ l.len
    → (ltb k l.len && not (test k)) ≡ false
    → (k ≡ l.len) ⊎ (test k ≡ true)
where_it_stops l test k h e = elim (Bool-cases (test k)) [
  | inl t ↦ inr t
  | inr t ↦ inl (ground arith)
]

-- A loop that advances while a property does not hold.
module _ (l : Lexer) (test : ℕ → Bool) (going : Lexer → Bool)
    (reads : (m : Lexer) → Same l m → going m ≡ (ltb m.pos l.len && not (test m.pos)))
    (room : (m : Lexer) → going m ≡ true → m.pos < m.len) where
  record Ran (i : ℕ) (m : Lexer) : Type 0 where
    same : Same l m
    from : i ≤ m.pos
    within : m.pos ≤ l.len
    before : (j : ℕ) → i ≤ j → j < m.pos → test j ≡ false

  round-Ran : (i : ℕ) (m : Lexer) → Ran i m → going m ≡ true → Ran i (lx_adv m)
  round-Ran i m r e =
      let p = pos-lx_adv m in
      let g : (ltb m.pos l.len && not (test m.pos)) ≡ true = sym (reads m r.same) ∙ e in
      let room : m.pos < l.len = ground arith in
      let here : test m.pos ≡ false = ground arith in
      record {
        same = lx_adv-Same l m r.same;
        from = omega (arith, r.from);
        within = omega arith;
        before = λ j a b. elim (Bool-cases (ltb j m.pos)) [
          | inl x ↦ r.before j a (ground arith)
          | inr x ↦ let e : j ≡ m.pos = ground arith in rw e here
        ];
      }

  loop-UpTo :
      (m : Lexer)
      → Same l m
      → m.pos ≤ l.len
      → Same l (while (rounds m) going lx_adv m)
        × UpTo l test m.pos ((while (rounds m) going lx_adv m).pos)
  loop-UpTo m s h =
      let r : Ran m.pos (while (rounds m) going lx_adv m) =
        while_keeps (λ n. Ran m.pos n) going lx_adv (λ n x e. round-Ran m.pos n x e) (rounds m) m
          (record {
            same = s;
            from = omega arith;
            within = h;
            before = λ j a b. absurd (omega arith);
          }) in
      let ended : going (while (rounds m) going lx_adv m) ≡ false =
        while_ends (λ n. n.len - n.pos) going lx_adv
          (λ n e. omega (arith, (Moves-Onward (adv n)).same_len, pos-lx_adv n, room n e)) (rounds m)
          m (omega arith) in
      let stop = sym (reads (while (rounds m) going lx_adv m) r.same) ∙ ended in
      (
        r.same,
        record {
          from = r.from;
          within = r.within;
          before = r.before;
          stops = where_it_stops l test _ r.within stop;
        },
      )

pub byte_at-pk : (l m : Lexer) → Same l m → pk m ≡ byte_at l m.pos
byte_at-pk l m s = rw (s.same_src, s.same_len) refl

pub byte_at-pk2 : (l m : Lexer) → Same l m → pk2 m ≡ byte_at l (m.pos + 1)
byte_at-pk2 l m s = rw (s.same_src, s.same_len) refl

-- A line comment.
pub skip_line-UpTo :
    (l m : Lexer)
    → Same l m
    → m.pos ≤ l.len
    → Same l (skip_while (λ c. not (c == b'\n')) m)
      × UpTo l (is_newline l) m.pos ((skip_while (λ c. not (c == b'\n')) m).pos)
unfolding skip_while
skip_line-UpTo l m s h =
    loop-UpTo l (is_newline l) (λ n. ltb n.pos n.len && not (pk n == b'\n'))
      (λ n x. rw (byte_at-pk l n x, x.same_len) refl) (λ n e. ground arith) m s h

-- A block comment, of which the loop leaves the `*/`.
unfoldable pub block_end : Lexer → Lexer
block_end m = while (rounds m) (λ n. ltb n.pos n.len && not (at_comment_end n)) lx_adv m

pub block_end-UpTo :
    (l m : Lexer)
    → Same l m
    → m.pos ≤ l.len
    → Same l (block_end m) × UpTo l (ends_comment l) m.pos ((block_end m).pos)
unfolding block_end
block_end-UpTo l m s h =
    loop-UpTo l (ends_comment l) (λ n. ltb n.pos n.len && not (at_comment_end n))
      (λ n x. rw (byte_at-pk l n x, byte_at-pk2 l n x, x.same_len) refl) (λ n e. ground arith) m s h
