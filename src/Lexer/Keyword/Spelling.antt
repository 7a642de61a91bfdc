-- ===== src/Lexer/Keyword/Spelling.antt =====
-- `kw_check` against the spelling of the keyword tokens.
use fermi.Base.{
  ℕ, ◌≢◌, sym, ap, ◌∙◌, zero, suc, ◌≡◌, ◌↔◌, ◌⊎◌, inl, inr, refl, arith, true, length, take, [],
  ◌∷◌,
}
use fermi.Base.Text.{Bytes, codes, str_eq, str_eq_iff}
use fermi.Token.{TokenType, token_type_str}
use fermi.Token.{
  tok_ident, tok_fn, tok_if, tok_in, tok_do, tok_let, tok_mut, tok_for, tok_new, tok_int, tok_str,
  tok_bool, tok_byte, tok_char, tok_null, tok_else, tok_enum, tok_long, tok_this, tok_true,
  tok_type, tok_uint, tok_unit, tok_break, tok_const, tok_class, tok_defer, tok_false, tok_float,
  tok_match, tok_short, tok_ulong, tok_while, tok_double, tok_export, tok_import, tok_module,
  tok_public, tok_return, tok_region, tok_ushort, tok_unsafe, tok_private, tok_continue,
  tok_external, tok_comptime,
}
use fermi.Lexer.Keyword.{
  memcmp_eq, is_keyword, kw_check, kw_check_2, kw_check_3, kw_check_4, kw_check_5, kw_check_6,
  kw_check_7, kw_check_8,
}

-- A keyword is spelled as its token is printed; `tok_ident` says nothing.
abbrev Spells : Bytes → TokenType → Type 0
Spells s t = (t ≡ tok_ident) ⊎ ((is_keyword t ≡ true) × (s ≡ token_type_str t))

take_all : (s : Bytes) (n : ℕ) → length s ≡ n → take n s ≡ s
take_all [] zero h = refl
take_all [] (suc n) h = refl
take_all (x ∷ s) zero h = absurd (omega arith)
take_all (x ∷ s) (suc n) h = rw (take_all s n (omega arith))

memcmp_eq-spells : (s w : Bytes) (n : ℕ) → length s ≡ n → memcmp_eq s w n ≡ true → s ≡ w
unfolding memcmp_eq
memcmp_eq-spells s w n h e = (str_eq_iff s w).0 (rw (take_all s n h) at e)

kw_check_2-Spells : (s : Bytes) → length s ≡ 2 → Spells s (kw_check_2 s)
unfolding kw_check_2 token_type_str
kw_check_2-Spells (a ∷ b ∷ []) h = ground arith
kw_check_2-Spells _ h = absurd (omega arith)

kw_check_3-Spells : (s : Bytes) → length s ≡ 3 → Spells s (kw_check_3 s)
unfolding kw_check_3 token_type_str
kw_check_3-Spells s h = ground (
  arith,
  memcmp_eq-spells s (codes "let") 3 h,
  memcmp_eq-spells s (codes "mut") 3 h,
  memcmp_eq-spells s (codes "for") 3 h,
  memcmp_eq-spells s (codes "new") 3 h,
  memcmp_eq-spells s (codes "int") 3 h,
  memcmp_eq-spells s (codes "str") 3 h,
)

kw_check_4-Spells : (s : Bytes) → length s ≡ 4 → Spells s (kw_check_4 s)
unfolding kw_check_4 token_type_str
kw_check_4-Spells s h = ground (
  arith,
  memcmp_eq-spells s (codes "bool") 4 h,
  memcmp_eq-spells s (codes "byte") 4 h,
  memcmp_eq-spells s (codes "char") 4 h,
  memcmp_eq-spells s (codes "null") 4 h,
  memcmp_eq-spells s (codes "else") 4 h,
  memcmp_eq-spells s (codes "enum") 4 h,
  memcmp_eq-spells s (codes "long") 4 h,
  memcmp_eq-spells s (codes "this") 4 h,
  memcmp_eq-spells s (codes "true") 4 h,
  memcmp_eq-spells s (codes "type") 4 h,
  memcmp_eq-spells s (codes "uint") 4 h,
  memcmp_eq-spells s (codes "unit") 4 h,
)

kw_check_5-Spells : (s : Bytes) → length s ≡ 5 → Spells s (kw_check_5 s)
unfolding kw_check_5 token_type_str
kw_check_5-Spells s h = ground (
  arith,
  memcmp_eq-spells s (codes "break") 5 h,
  memcmp_eq-spells s (codes "const") 5 h,
  memcmp_eq-spells s (codes "class") 5 h,
  memcmp_eq-spells s (codes "defer") 5 h,
  memcmp_eq-spells s (codes "false") 5 h,
  memcmp_eq-spells s (codes "float") 5 h,
  memcmp_eq-spells s (codes "match") 5 h,
  memcmp_eq-spells s (codes "model") 5 h,
  memcmp_eq-spells s (codes "short") 5 h,
  memcmp_eq-spells s (codes "ulong") 5 h,
  memcmp_eq-spells s (codes "while") 5 h,
)

kw_check_6-Spells : (s : Bytes) → length s ≡ 6 → Spells s (kw_check_6 s)
unfolding kw_check_6 token_type_str
kw_check_6-Spells s h = ground (
  arith,
  memcmp_eq-spells s (codes "double") 6 h,
  memcmp_eq-spells s (codes "export") 6 h,
  memcmp_eq-spells s (codes "import") 6 h,
  memcmp_eq-spells s (codes "module") 6 h,
  memcmp_eq-spells s (codes "public") 6 h,
  memcmp_eq-spells s (codes "return") 6 h,
  memcmp_eq-spells s (codes "region") 6 h,
  memcmp_eq-spells s (codes "ushort") 6 h,
  memcmp_eq-spells s (codes "unsafe") 6 h,
)

kw_check_7-Spells : (s : Bytes) → length s ≡ 7 → Spells s (kw_check_7 s)
unfolding kw_check_7 token_type_str
kw_check_7-Spells s h = ground (arith, memcmp_eq-spells s (codes "private") 7 h)

kw_check_8-Spells : (s : Bytes) → length s ≡ 8 → Spells s (kw_check_8 s)
unfolding kw_check_8 token_type_str
kw_check_8-Spells s h = ground (
  arith,
  memcmp_eq-spells s (codes "continue") 8 h,
  memcmp_eq-spells s (codes "external") 8 h,
  memcmp_eq-spells s (codes "comptime") 8 h,
)

kw_check-Spells : (s : Bytes) → Spells s (kw_check s (length s))
unfolding kw_check
kw_check-Spells s = ground (
  arith,
  kw_check_2-Spells s,
  kw_check_3-Spells s,
  kw_check_4-Spells s,
  kw_check_5-Spells s,
  kw_check_6-Spells s,
  kw_check_7-Spells s,
  kw_check_8-Spells s,
)

-- The keyword tokens, and no others, come back from their own spelling.
kw_check-token_type_str :
    (t : TokenType)
    → is_keyword t ≡ true
    → kw_check (token_type_str t) (length (token_type_str t)) ≡ t
unfolding kw_check token_type_str str_eq
kw_check-token_type_str tok_fn h = refl
kw_check-token_type_str tok_if h = refl
kw_check-token_type_str tok_in h = refl
kw_check-token_type_str tok_do h = refl
kw_check-token_type_str tok_let h = refl
kw_check-token_type_str tok_mut h = refl
kw_check-token_type_str tok_for h = refl
kw_check-token_type_str tok_new h = refl
kw_check-token_type_str tok_int h = refl
kw_check-token_type_str tok_str h = refl
kw_check-token_type_str tok_bool h = refl
kw_check-token_type_str tok_byte h = refl
kw_check-token_type_str tok_char h = refl
kw_check-token_type_str tok_null h = refl
kw_check-token_type_str tok_else h = refl
kw_check-token_type_str tok_enum h = refl
kw_check-token_type_str tok_long h = refl
kw_check-token_type_str tok_this h = refl
kw_check-token_type_str tok_true h = refl
kw_check-token_type_str tok_type h = refl
kw_check-token_type_str tok_uint h = refl
kw_check-token_type_str tok_unit h = refl
kw_check-token_type_str tok_break h = refl
kw_check-token_type_str tok_const h = refl
kw_check-token_type_str tok_class h = refl
kw_check-token_type_str tok_defer h = refl
kw_check-token_type_str tok_false h = refl
kw_check-token_type_str tok_float h = refl
kw_check-token_type_str tok_match h = refl
kw_check-token_type_str tok_short h = refl
kw_check-token_type_str tok_ulong h = refl
kw_check-token_type_str tok_while h = refl
kw_check-token_type_str tok_double h = refl
kw_check-token_type_str tok_export h = refl
kw_check-token_type_str tok_import h = refl
kw_check-token_type_str tok_module h = refl
kw_check-token_type_str tok_public h = refl
kw_check-token_type_str tok_return h = refl
kw_check-token_type_str tok_region h = refl
kw_check-token_type_str tok_ushort h = refl
kw_check-token_type_str tok_unsafe h = refl
kw_check-token_type_str tok_private h = refl
kw_check-token_type_str tok_continue h = refl
kw_check-token_type_str tok_external h = refl
kw_check-token_type_str tok_comptime h = refl
kw_check-token_type_str _ h = cc

ident_ne_keyword : (t : TokenType) → is_keyword t ≡ true → t ≢ tok_ident
ident_ne_keyword t k e = cc (ap is_keyword e)

-- For each keyword token: `kw_check` gives it on a text if and only if the text is the one that
-- `token_type_str` prints for the token.
pub kw_check_iff :
    (s : Bytes) (t : TokenType)
    → is_keyword t ≡ true
    → (kw_check s (length s) ≡ t) ↔ (s ≡ token_type_str t)
kw_check_iff s t k = (
  λ e. elim (kw_check-Spells s) [
    | inl i ↦ absurd (ident_ne_keyword t k (sym e ∙ i))
    | inr w ↦ w.1 ∙ ap token_type_str e
  ],
  λ e. rw e (kw_check-token_type_str t k),
)

-- On every text, `kw_check` gives `tok_ident` or a keyword token.
kw_check_kinds :
    (s : Bytes) → (kw_check s (length s) ≡ tok_ident) ⊎ (is_keyword (kw_check s (length s)) ≡ true)
kw_check_kinds s = elim (kw_check-Spells s) [ inl i ↦ inl i | inr w ↦ inr w.0 ]
