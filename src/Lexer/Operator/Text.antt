-- ===== src/Lexer/Operator/Text.antt =====
-- The text of an operator is what stands in the source, and its kind is printed as that text.
use fermi.Base.{
  ℕ, suc, ◌≡◌, ◌⊎◌, arith, [], ◌∷◌, Bool-cases, inl, inr, ==_iff, ◌==◌, if◌then◌else◌, take, length,
}
use fermi.Base.Text.{Bytes, codes}
use fermi.Lexer.Operator.{
  Operator, operator, punctuation, after_plus, after_minus, after_star, after_slash, after_percent,
  after_amp, after_pipe, after_caret, after_assign, after_not, after_colon, after_lt, after_gt,
  after_dot,
}
use fermi.Token.{token_type_str}

-- The text is that of the characters taken, and the kind has that name or none of its own.
pub record Spelled (cs : Bytes) (o : Operator) : Type 0 where
  pub text_is : o.text ≡ take (suc o.more) cs
  pub length_is : length o.text ≡ suc o.more
  pub name_is : (token_type_str o.type ≡ o.text) ⊎ (token_type_str o.type ≡ codes "unknown")

after_plus-Spelled : (c1 c2 : ℕ) → Spelled (b'+' ∷ c1 ∷ c2 ∷ []) (after_plus c1)
unfolding after_plus token_type_str
after_plus-Spelled c1 c2 = ground arith

after_minus-Spelled : (c1 c2 : ℕ) → Spelled (b'-' ∷ c1 ∷ c2 ∷ []) (after_minus c1)
unfolding after_minus token_type_str
after_minus-Spelled c1 c2 = ground arith

after_star-Spelled : (c1 c2 : ℕ) → Spelled (b'*' ∷ c1 ∷ c2 ∷ []) (after_star c1)
unfolding after_star token_type_str
after_star-Spelled c1 c2 = ground arith

after_slash-Spelled : (c1 c2 : ℕ) → Spelled (b'/' ∷ c1 ∷ c2 ∷ []) (after_slash c1)
unfolding after_slash token_type_str
after_slash-Spelled c1 c2 = ground arith

after_percent-Spelled : (c1 c2 : ℕ) → Spelled (b'%' ∷ c1 ∷ c2 ∷ []) (after_percent c1)
unfolding after_percent token_type_str
after_percent-Spelled c1 c2 = ground arith

after_amp-Spelled : (c1 c2 : ℕ) → Spelled (b'&' ∷ c1 ∷ c2 ∷ []) (after_amp c1)
unfolding after_amp token_type_str
after_amp-Spelled c1 c2 = ground arith

after_pipe-Spelled : (c1 c2 : ℕ) → Spelled (b'|' ∷ c1 ∷ c2 ∷ []) (after_pipe c1)
unfolding after_pipe token_type_str
after_pipe-Spelled c1 c2 = ground arith

after_caret-Spelled : (c1 c2 : ℕ) → Spelled (b'^' ∷ c1 ∷ c2 ∷ []) (after_caret c1)
unfolding after_caret token_type_str
after_caret-Spelled c1 c2 = ground arith

after_assign-Spelled : (c1 c2 : ℕ) → Spelled (b'=' ∷ c1 ∷ c2 ∷ []) (after_assign c1)
unfolding after_assign token_type_str
after_assign-Spelled c1 c2 = ground arith

after_not-Spelled : (c1 c2 : ℕ) → Spelled (b'!' ∷ c1 ∷ c2 ∷ []) (after_not c1)
unfolding after_not token_type_str
after_not-Spelled c1 c2 = ground arith

after_colon-Spelled : (c1 c2 : ℕ) → Spelled (b':' ∷ c1 ∷ c2 ∷ []) (after_colon c1)
unfolding after_colon token_type_str
after_colon-Spelled c1 c2 = ground arith

after_lt-Spelled : (c1 c2 : ℕ) → Spelled (b'<' ∷ c1 ∷ c2 ∷ []) (after_lt c1 c2)
unfolding after_lt token_type_str
after_lt-Spelled c1 c2 = ground arith

after_gt-Spelled : (c1 c2 : ℕ) → Spelled (b'>' ∷ c1 ∷ c2 ∷ []) (after_gt c1 c2)
unfolding after_gt token_type_str
after_gt-Spelled c1 c2 = ground arith

after_dot-Spelled : (c1 c2 : ℕ) → Spelled (b'.' ∷ c1 ∷ c2 ∷ []) (after_dot c1 c2)
unfolding after_dot token_type_str
after_dot-Spelled c1 c2 = ground arith

punctuation-Spelled : (c c1 c2 : ℕ) → Spelled (c ∷ c1 ∷ c2 ∷ []) (punctuation c)
unfolding punctuation token_type_str
punctuation-Spelled c c1 c2 = ground arith

if-Spelled :
    (c : ℕ) (cs : Bytes) (d : ℕ) (o p : Operator)
    → Spelled (d ∷ cs) o
    → Spelled (c ∷ cs) p
    → Spelled (c ∷ cs) (if c == d then o else p)
if-Spelled c cs d o p x y = elim (Bool-cases (c == d)) [
  | inl e ↦ rw (e, (==_iff c d).0 e) x
  | inr e ↦ rw e y
]

-- An operator or a punctuation mark takes as many characters as its text has, its text is exactly
-- those characters, and its kind is printed as that text or as "unknown".
pub operator-Spelled : (c c1 c2 : ℕ) → Spelled (c ∷ c1 ∷ c2 ∷ []) (operator c c1 c2)
unfolding operator
operator-Spelled c c1 c2 = if-Spelled c (c1 ∷ c2 ∷ []) b'+' _ _ (after_plus-Spelled c1 c2) (
    if-Spelled c (c1 ∷ c2 ∷ []) b'-' _ _ (after_minus-Spelled c1 c2) (
      if-Spelled c (c1 ∷ c2 ∷ []) b'*' _ _ (after_star-Spelled c1 c2) (
        if-Spelled c (c1 ∷ c2 ∷ []) b'/' _ _ (after_slash-Spelled c1 c2) (
          if-Spelled c (c1 ∷ c2 ∷ []) b'%' _ _ (after_percent-Spelled c1 c2) (
            if-Spelled c (c1 ∷ c2 ∷ []) b'&' _ _ (after_amp-Spelled c1 c2) (
              if-Spelled c (c1 ∷ c2 ∷ []) b'|' _ _ (after_pipe-Spelled c1 c2) (
                if-Spelled c (c1 ∷ c2 ∷ []) b'^' _ _ (after_caret-Spelled c1 c2) (
                  if-Spelled c (c1 ∷ c2 ∷ []) b'=' _ _ (after_assign-Spelled c1 c2) (
                    if-Spelled c (c1 ∷ c2 ∷ []) b'!' _ _ (after_not-Spelled c1 c2) (
                      if-Spelled c (c1 ∷ c2 ∷ []) b':' _ _ (after_colon-Spelled c1 c2) (
                        if-Spelled c (c1 ∷ c2 ∷ []) b'<' _ _ (after_lt-Spelled c1 c2) (
                          if-Spelled c (c1 ∷ c2 ∷ []) b'>' _ _ (after_gt-Spelled c1 c2) (
                            if-Spelled c (c1 ∷ c2 ∷ []) b'.' _ _ (after_dot-Spelled c1 c2)
                              (punctuation-Spelled c c1 c2))))))))))))))
