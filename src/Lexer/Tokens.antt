-- ===== src/Lexer/Tokens.antt =====
-- `lexer_next` and the loop over all tokens: each call makes progress, and the loop ends.
use fermi.Base.{
  ap, ℕ, zero, suc, ◌+◌, ◌-◌, ◌≤◌, ◌<◌, ◌≡◌, ◌⊎◌, refl, arith, Bool, true, false, ◌&&◌, ◌||◌, List,
  [], ◌∷◌, some, leb, ◌==◌, if◌then◌else◌, length, Bool-cases, inl, inr,
}
use fermi.Lexer.Moves.{Moves, stay, step, copy, trans, adv, Moves-Onward, pos-lx_adv}
use fermi.Lexer.Next.{advance, lex_operator, lex_word, lex_token, lexer_next, is_eof, all_tokens}
use fermi.Lexer.Operator.{operator}
use fermi.Lexer.Progress.Digits.{if_token-Moves, lex_number-Moves}
use fermi.Lexer.Progress.{lex_ident-Moves, lex_string-Moves, lex_raw_string-Moves, lex_char-Moves}
use fermi.Lexer.Trivia.{skip_ws, skip_ws-Moves}
use fermi.Lexer.{Lexer, pk, pk2, pk3, lx_adv, isalpha, isdigit}
use fermi.Token.{Token, tok_eof}

advance-Moves : (k : ℕ) (l : Lexer) → Moves (lx_adv l) (advance (suc k) l)
unfolding advance
advance-Moves zero l = stay
advance-Moves (suc k) l = step (advance-Moves k l)

lex_operator-Moves : (l : Lexer) → Moves (lx_adv l) (lex_operator l).1
unfolding lex_operator
lex_operator-Moves l = copy _ _ (advance-Moves (operator (pk l) (pk2 l) (pk3 l)).more l)

lex_word-Moves :
    (l : Lexer)
    → l.pos < l.len
    → (isalpha (pk l) || pk l == b'_') ≡ true
    → Moves (lx_adv l) (lex_word l).1
unfolding lex_word
lex_word-Moves l room e =
    if_token-Moves ((pk l == b'r' || pk l == b'R') && pk2 l == b'"') _ _
      (trans (adv (lx_adv l)) (lex_raw_string-Moves (lx_adv l) l.line l.col))
      (lex_ident-Moves l (ground arith))

-- A case that its test leads to.
if_token :
    {l : Lexer} (b : Bool) (s t : Token × Lexer)
    → (b ≡ true → Moves l s.1)
    → (b ≡ false → Moves l t.1)
    → Moves l (if b then s else t).1
if_token true s t p q = p refl
if_token false s t p q = q refl

lex_token-Moves : (l : Lexer) → l.pos < l.len → Moves (lx_adv l) (lex_token l).1
unfolding lex_token
lex_token-Moves l room = if_token (isalpha (pk l) || pk l == b'_') _ _ (lex_word-Moves l room) λ _.
    if_token (isdigit (pk l)) _ _ (λ e. lex_number-Moves l (ground arith))
      λ _.
        if_token-Moves (pk l == b'"') _ _ (lex_string-Moves l)
          (if_token-Moves (pk l == b'\'') _ _ (lex_char-Moves l) (lex_operator-Moves l))

-- The call at the end of the source, and at a token.
lexer_next_end :
    (l : Lexer) → leb (skip_ws l).len (skip_ws l).pos ≡ true → (lexer_next l).0.type ≡ tok_eof
unfolding lexer_next
lexer_next_end l e = rw e

lexer_next_token :
    (l : Lexer) → leb (skip_ws l).len (skip_ws l).pos ≡ false → lexer_next l ≡ lex_token (skip_ws l)
unfolding lexer_next
lexer_next_token l e = rw e

pub lexer_next-Moves : (l : Lexer) → Moves l (lexer_next l).1
unfolding lexer_next
lexer_next-Moves l =
    let m = skip_ws l in
    if_token (leb m.len m.pos) _ _ (λ _. copy _ _ (skip_ws-Moves l))
      λ e. trans (skip_ws-Moves l) (trans (adv m) (lex_token-Moves m (ground arith)))

-- Either the token is `tok_eof`, or there were characters left, the call has moved on by at
-- least one of them, and the length of the source is the same.
pub lexer_next-progress :
    (l : Lexer)
    → ((lexer_next l).0.type ≡ tok_eof)
      ⊎ ((l.pos < l.len) × (l.pos < (lexer_next l).1.pos) × ((lexer_next l).1.len ≡ l.len))
lexer_next-progress l = elim (Bool-cases (leb m.len m.pos)) [
  | inl e ↦ inl (lexer_next_end l e)
  | inr e ↦
      let room : m.pos < m.len = ground arith in
      let skipped = Moves-Onward (skip_ws-Moves l) in
      let taken = Moves-Onward (lex_token-Moves m room) in
      let all = Moves-Onward (lexer_next-Moves l) in
      inr (
        omega (arith, skipped.same_len, skipped.onward, room),
        rw (lexer_next_token l e) (omega (arith, taken.onward, pos-lx_adv m, skipped.onward)),
        all.same_len,
      )
]
  where
    m : Lexer
    m = skip_ws l

-- The tokens before the last are no `tok_eof`, and the last is one.
abbrev pub EndsAtEof : List Token → Type 0
EndsAtEof [] = ⊥
EndsAtEof (t ∷ []) = is_eof t.type ≡ true
EndsAtEof (t ∷ u ∷ ts) = (is_eof t.type ≡ false) × EndsAtEof (u ∷ ts)

-- The tokens that a run gives.
pub record Lexed (fuel : ℕ) (l : Lexer) : Type 0 where
  pub tokens : List Token
  pub gives : all_tokens fuel l ≡ some tokens
  pub ends : EndsAtEof tokens
  pub few : length tokens ≤ l.len - l.pos + 1

EndsAtEof-cons :
    (t : Token) (ts : List Token) → is_eof t.type ≡ false → EndsAtEof ts → EndsAtEof (t ∷ ts)
EndsAtEof-cons t [] e h = absurd h
EndsAtEof-cons t (u ∷ ts) e h = (e, h)

-- With more rounds than characters are left, the loop over the tokens ends and gives a list:
-- its last token is `tok_eof` and no other is, and it has at most one token for each character
-- that is left, and one more.
pub all_tokens-Lexed : (fuel : ℕ) (l : Lexer) → l.len - l.pos < fuel → Lexed fuel l
unfolding all_tokens
all_tokens-Lexed zero l h = absurd (omega arith)
all_tokens-Lexed (suc fuel) l h = elim (Bool-cases (is_eof (lexer_next l).0.type)) [
  | inl e ↦ record {
    tokens = (lexer_next l).0 ∷ [];
    gives = rw (e, all_tokens);
    ends = e;
    few = omega arith;
  }
  | inr e ↦ elim (lexer_next-progress l) [
    | inl f ↦ cc (ap is_eof f)
    | inr p ↦
        let rest = all_tokens-Lexed fuel (lexer_next l).1 (omega (arith, p.0, p.1, p.2)) in
        record {
          tokens = (lexer_next l).0 ∷ rest.tokens;
          gives = rw (e, all_tokens, rest.gives);
          ends = EndsAtEof-cons (lexer_next l).0 rest.tokens e rest.ends;
          few = omega (arith, rest.few, p.0, p.1, p.2);
        }
  ]
]
