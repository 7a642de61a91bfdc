-- ===== src/Lexer/Position.antt =====
-- The line and column that the lexer carries are those of its position in the source, and so are
-- those of each token.
use native.Mathlib.Numerals.{add-one}
use fermi.Base.{
  ℕ, zero, suc, ◌+◌, ◌≤◌, ◌<◌, ◌≡◌, refl, ap, ◌∙◌, arith, Bool, true, ◌&&◌, ◌||◌, [], ◌∷◌, ◌++◌,
  leb, ◌==◌, if◌then◌else◌, length, get_or, take,
}
use fermi.Base.Text.{Bytes}
use fermi.Arena.{Arena}
use fermi.Lexer.Moves.{Moves, stay, step, adv, alloc, copy, Moves-Onward, pos-lx_adv}
use fermi.Lexer.Next.{lex_token, lexer_next, lex_word, lex_operator}
use fermi.Lexer.Literal.{lex_ident, lex_string, lex_raw_string, lex_char}
use fermi.Lexer.Number.{lex_number, lex_hex, lex_radix, lex_decimal, has_prefix}
use fermi.Lexer.Tokens.{lexer_next-Moves}
use fermi.Lexer.Trivia.{skip_ws, skip_ws-Moves}
use fermi.Lexer.{Lexer, lexer_new, here, lx_adv, pk, pk2, isalpha, isdigit}
use fermi.Token.{Token}

-- The number of line feeds in a text.
pub newlines : Bytes → ℕ
newlines [] = 0
newlines (c ∷ cs) = (if c == b'\n' then 1 else 0) + newlines cs

-- The column behind a text that begins at column `col`.
pub column_from : ℕ → Bytes → ℕ
column_from col [] = col
column_from col (c ∷ cs) = column_from (if c == b'\n' then 1 else col + 1) cs

-- The line and column of a position of the source, both from 1.
abbrev pub line_at : Bytes → ℕ → ℕ
line_at src pos = newlines (take pos src) + 1

abbrev pub column_at : Bytes → ℕ → ℕ
column_at src pos = column_from 1 (take pos src)

take-suc : (xs : Bytes) (n : ℕ) → n < length xs → take (suc n) xs ≡ take n xs ++ get_or xs n 0 ∷ []
take-suc [] n h = absurd (omega arith)
take-suc (x ∷ xs) zero h = refl
take-suc (x ∷ xs) (suc n) h = ap (◌∷◌ x) (take-suc xs n (omega arith))

newlines-snoc :
    (cs : Bytes) (c : ℕ) → newlines (cs ++ c ∷ []) ≡ newlines cs + (if c == b'\n' then 1 else 0)
unfolding newlines
newlines-snoc [] c = omega arith
newlines-snoc (d ∷ cs) c = omega (arith, newlines-snoc cs c)

column_from-snoc :
    (cs : Bytes) (col c : ℕ)
    → column_from col (cs ++ c ∷ []) ≡ (if c == b'\n' then 1 else column_from col cs + 1)
unfolding column_from
column_from-snoc [] col c = refl
column_from-snoc (d ∷ cs) col c = column_from-snoc cs (if d == b'\n' then 1 else col + 1) c

-- The state's line and column are right, unless the position lies behind the source.
pub record IsPlaced (l : Lexer) : Type 0 where
  pub line_is : l.pos ≤ length l.src → l.line ≡ line_at l.src l.pos
  pub col_is : l.pos ≤ length l.src → l.col ≡ column_at l.src l.pos

lx_adv-line :
    (l : Lexer)
    → l.pos < length l.src
    → l.line ≡ line_at l.src l.pos
    → (lx_adv l).line ≡ line_at (lx_adv l).src (lx_adv l).pos
unfolding lx_adv
lx_adv-line l h e =
    ground (arith, add-one l.pos, take-suc l.src l.pos h, newlines-snoc (take l.pos l.src) (here l))

lx_adv-col :
    (l : Lexer)
    → l.pos < length l.src
    → l.col ≡ column_at l.src l.pos
    → (lx_adv l).col ≡ column_at (lx_adv l).src (lx_adv l).pos
unfolding lx_adv
lx_adv-col l h e =
    ground
      (arith, add-one l.pos, take-suc l.src l.pos h, column_from-snoc (take l.pos l.src) 1 (here l))

lx_adv-IsPlaced : (l : Lexer) → IsPlaced l → IsPlaced (lx_adv l)
lx_adv-IsPlaced l p =
    let o = Moves-Onward (adv l) in
    record {
      line_is = λ h.
          let h' : l.pos < length l.src = omega (arith, pos-lx_adv l, ap length o.same_src, h) in
          lx_adv-line l h' (p.line_is (omega arith));
      col_is = λ h.
          let h' : l.pos < length l.src = omega (arith, pos-lx_adv l, ap length o.same_src, h) in
          lx_adv-col l h' (p.col_is (omega arith));
    }

-- Every scanner keeps that.
pub Moves-IsPlaced : {l m : Lexer} → Moves l m → IsPlaced l → IsPlaced m
Moves-IsPlaced stay p = p
Moves-IsPlaced (step {m} q) p = lx_adv-IsPlaced m (Moves-IsPlaced q p)
Moves-IsPlaced (alloc n q) p =
    let r = Moves-IsPlaced q p in record { line_is = r.line_is; col_is = r.col_is }
Moves-IsPlaced (copy v n q) p =
    let r = Moves-IsPlaced q p in record { line_is = r.line_is; col_is = r.col_is }

pub lexer_new-IsPlaced : (src : Bytes) (len : ℕ) (a : Arena) → IsPlaced (lexer_new src len a)
unfolding lexer_new newlines column_from
lexer_new-IsPlaced src len a = record { line_is = λ h. refl; col_is = λ h. refl }

-- The token's place is that of the state at which it was begun.
abbrev At : Lexer → Token × Lexer → Type 0
At l r = (r.0.line ≡ l.line) × (r.0.col ≡ l.col)

if-At : (l : Lexer) (b : Bool) (s t : Token × Lexer) → At l s → At l t → At l (if b then s else t)
if-At l true s t p q = p
if-At l _ s t p q = q

lex_word-At : (l : Lexer) → At l (lex_word l)
unfolding lex_word lex_raw_string lex_ident
lex_word-At l =
    if-At l ((pk l == b'r' || pk l == b'R') && pk2 l == b'"') _ _ (refl, refl) (refl, refl)

lex_number-At : (l : Lexer) → At l (lex_number l)
unfolding lex_number lex_hex lex_radix lex_decimal
lex_number-At l =
    if-At l (has_prefix b'x' b'X' l) _ _ (refl, refl)
      (if-At l (has_prefix b'b' b'B' l) _ _ (refl, refl)
        (if-At l (has_prefix b'o' b'O' l) _ _ (refl, refl) (refl, refl)))

lex_token-At : (l : Lexer) → At l (lex_token l)
unfolding lex_token lex_string lex_char lex_operator
lex_token-At l = if-At l (isalpha (pk l) || pk l == b'_') _ _ (lex_word-At l) (
    if-At l (isdigit (pk l)) _ _ (lex_number-At l) (
      if-At l (pk l == b'"') _ _ (refl, refl)
        (if-At l (pk l == b'\'') _ _ (refl, refl) (refl, refl))))

lexer_next-At : (l : Lexer) → At (skip_ws l) (lexer_next l)
unfolding lexer_next
lexer_next-At l =
    if-At (skip_ws l) (leb (skip_ws l).len (skip_ws l).pos) _ _ (refl, refl)
      (lex_token-At (skip_ws l))

-- From a state that is placed, and where the blanks and comments do not lead behind the source:
-- the line and column of the token are those of the place where it begins, behind the blanks
-- and comments, and the state behind the token is placed again.
pub lexer_next-place :
    (l : Lexer)
    → IsPlaced l
    → (skip_ws l).pos ≤ length l.src
    → ((lexer_next l).0.line ≡ line_at l.src (skip_ws l).pos)
      × ((lexer_next l).0.col ≡ column_at l.src (skip_ws l).pos)
      × IsPlaced (lexer_next l).1
lexer_next-place l p h =
    let m = skip_ws l in
    let same = (Moves-Onward (skip_ws-Moves l)).same_src in
    let q = Moves-IsPlaced (skip_ws-Moves l) p in
    let within : m.pos ≤ length m.src = omega (arith, ap length same, h) in
    (
      (lexer_next-At l).0 ∙ q.line_is within ∙ ap (λ s. line_at s m.pos) same,
      (lexer_next-At l).1 ∙ q.col_is within ∙ ap (λ s. column_at s m.pos) same,
      Moves-IsPlaced (lexer_next-Moves l) p,
    )
