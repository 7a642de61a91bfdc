-- ===== src/Lexer/Moves.antt =====
-- How the lexer's state may change: by single advances, and by allocations. All the scanners are
-- such sequences, and the facts about positions and the arena are proved once, by induction.
use fermi.Base.{ℕ, suc, ◌+◌, ◌≤◌, ◌≡◌, refl, ◌∙◌, some, arith, true, ltb, ◌&&◌, if◌then◌else◌, Bool}
use fermi.Base.Loops.{while, while_keeps}
use fermi.Base.Text.{Bytes}
use fermi.Arena.{arena_alloc, arena_strndup}
use fermi.Lexer.{Lexer, lx_adv, mktok, skip_while, rounds, pk}
use fermi.Token.{TokenType}

pub data Moves (l : Lexer) : Lexer → Type 0 where
  stay : Moves l l
  step : {m : Lexer} → Moves l m → Moves l (lx_adv m)
  alloc : {m : Lexer} (n : ℕ) → Moves l m → Moves l (record m { arena = (arena_alloc m.arena n).1 })
  copy :
      {m : Lexer} (v : Bytes) (n : ℕ)
      → Moves l m
      → Moves l (record m { arena = (arena_strndup m.arena (some v) n).1 })

pub trans : {l m : Lexer} {k : Lexer} → Moves l m → Moves m k → Moves l k
trans p stay = p
trans p (step q) = step (trans p q)
trans p (alloc n q) = alloc n (trans p q)
trans p (copy v n q) = copy v n (trans p q)

pub adv : (l : Lexer) → Moves l (lx_adv l)
adv l = step stay

pub mktok-Moves :
    (l : Lexer) (t : TokenType) (v : Bytes) (n line col : ℕ) → Moves l (mktok l t v n line col).1
unfolding mktok
mktok-Moves l t v n line col = copy v n stay

pub if-Moves :
    {l : Lexer} (b : Bool) (m k : Lexer) → Moves l m → Moves l k → Moves l (if b then m else k)
if-Moves true m k p q = p
if-Moves _ m k p q = q

pub skip_while-Moves : (test : ℕ → Bool) (l : Lexer) → Moves l (skip_while test l)
unfolding skip_while
skip_while-Moves test l =
    while_keeps (λ m. Moves l m) (λ m. ltb m.pos m.len && test (pk m)) lx_adv (λ m p e. step p)
      (rounds l) l stay

-- The source and its length never change, and the position never goes back.
pub record Onward (l m : Lexer) : Type 0 where
  pub same_src : m.src ≡ l.src
  pub same_len : m.len ≡ l.len
  pub onward : l.pos ≤ m.pos

lx_adv-src : (l : Lexer) → (lx_adv l).src ≡ l.src
unfolding lx_adv
lx_adv-src l = ground arith

lx_adv-len : (l : Lexer) → (lx_adv l).len ≡ l.len
unfolding lx_adv
lx_adv-len l = ground arith

pub pos-lx_adv : (l : Lexer) → (lx_adv l).pos ≡ l.pos + 1
unfolding lx_adv
pos-lx_adv l = ground arith

pub Moves-Onward : {l m : Lexer} → Moves l m → Onward l m
Moves-Onward stay = record { same_src = refl; same_len = refl; onward = omega arith }
Moves-Onward (step {m} p) =
    let q = Moves-Onward p in
    record {
      same_src = lx_adv-src m ∙ q.same_src;
      same_len = lx_adv-len m ∙ q.same_len;
      onward = omega (arith, pos-lx_adv m, q.onward);
    }
Moves-Onward (alloc n p) =
    let q = Moves-Onward p in
    record { same_src = q.same_src; same_len = q.same_len; onward = q.onward }
Moves-Onward (copy v n p) =
    let q = Moves-Onward p in
    record { same_src = q.same_src; same_len = q.same_len; onward = q.onward }

-- A loop whose rounds are moves is a move; where its first round is made, from behind that round.
pub while-Moves :
    {S : Type 0} (lexer : S → Lexer) (test : S → Bool) (body : S → S)
    → ((s : S) → Moves (lexer s) (lexer (body s)))
    → (fuel : ℕ) (s : S) → Moves (lexer s) (lexer (while fuel test body s))
while-Moves lexer test body moves fuel s =
    while_keeps (λ t. Moves (lexer s) (lexer t)) test body (λ t p e. trans p (moves t)) fuel s stay

pub while-Moves_first :
    {S : Type 0} (lexer : S → Lexer) (test : S → Bool) (body : S → S)
    → ((s : S) → Moves (lexer s) (lexer (body s)))
    → (fuel : ℕ) (s : S) → test s ≡ true
    → Moves (lexer (body s)) (lexer (while (suc fuel) test body s))
unfolding while
while-Moves_first lexer test body moves fuel s e =
    rw (e, while) (while-Moves lexer test body moves fuel (body s))
