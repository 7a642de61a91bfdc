-- ===== src/Parser/Ends.antt =====
-- Runs that end: their results, and rules for the steps of the parser.
use fermi.Base.{
  ℕ, ◌≤◌, ◌<◌, ◌≡◌, refl, arith, Bool, true, false, Option, some, if◌then◌else◌, Bool-cases, inl,
  inr,
}
use Prim.Native.String.{String}
use fermi.Token.{TokenType, Token, tok_eof}
use fermi.Parser.{
  Parser, Parsing, pure, ◌>>=◌, ◌>>◌, current, kind_now, advance, adv, mat, err, report, expect,
  chk,
}
use fermi.Parser.Kinds.{is}
use fermi.Parser.Measure.{measure, measure-advance, measure-advance_taken, measure-advance_open}

-- The result of a parsing function that ends with at most `bound` left.
pub record Ends {A : Type 0} (bound : ℕ) (r : Option (A × Parser)) : Type 0 where
  pub value : A
  pub state : Parser
  pub gives : r ≡ some (value, state)
  pub within : measure state ≤ bound

-- At most `bound` is left; and the current token is of a kind.
abbrev pub At : ℕ → Parser → Type 0
At bound p = measure p ≤ bound

abbrev pub On : ℕ → TokenType → Parser → Type 0
On bound t p = (measure p ≤ bound) × (p.cur.type ≡ t)

-- From states of `P` the function ends, with at most `bound` left.
abbrev pub Runs : {A : Type 0} → (Parser → Type 0) → Parsing A → ℕ → Type 0
Runs P m bound = (p : Parser) → P p → Ends bound (m p)

module _ {A : Type 0} where
  value-Ends : {bound : ℕ} (a : A) (p : Parser) → measure p ≤ bound → Ends bound (some (a, p))
  value-Ends a p h = record { value = a; state = p; gives = refl; within = h }

  pub pure-Runs : (bound : ℕ) (a : A) → Runs (At bound) (pure a) bound
  pure-Runs bound a p h = value-Ends a p h

  pub wider-Runs :
      {P : Parser → Type 0} {m : Parsing A} (n bound : ℕ) → Runs P m n → n ≤ bound → Runs P m bound
  wider-Runs n bound r h p x =
      let e = r p x in
      record { value = e.value; state = e.state; gives = e.gives; within = omega (arith, e.within) }

  pub if-Runs :
      {P : Parser → Type 0} {bound : ℕ} (b : Bool) {m n : Parsing A}
      → (b ≡ true → Runs P m bound)
      → (b ≡ false → Runs P n bound)
      → Runs P (if b then m else n) bound
  if-Runs true h k = h refl
  if-Runs false h k = k refl

pub bind-Runs :
    {A B : Type 0} {P : Parser → Type 0} (n : ℕ) {bound : ℕ} {m : Parsing A} {k : A → Parsing B}
    → Runs P m n
    → ((a : A) → Runs (At n) (k a) bound)
    → Runs P (m >>= k) bound
unfolding ◌>>=◌
bind-Runs n {m = m} {k} r s p x = let e = r p x in rw (e.gives, ◌>>=◌) (s e.value e.state e.within)

pub then-Runs :
    {A B : Type 0} {P : Parser → Type 0} (n : ℕ) {bound : ℕ} {m : Parsing A} {k : Parsing B}
    → Runs P m n
    → Runs (At n) k bound
    → Runs P (m >> k) bound
unfolding ◌>>◌
then-Runs n r s = bind-Runs n r λ _. s

pub kind-Runs :
    {A : Type 0} {n bound : ℕ} {k : TokenType → Parsing A}
    → ((t : TokenType) → Runs (On n t) (k t) bound)
    → Runs (At n) (kind_now >>= k) bound
unfolding ◌>>=◌
kind-Runs r p h = r p.cur.type p (h, refl)

pub current-Runs :
    {A : Type 0} {n bound : ℕ} {k : Token → Parsing A}
    → ((t : Token) → Runs (On n t.type) (k t) bound)
    → Runs (At n) (current >>= k) bound
unfolding ◌>>=◌
current-Runs r p h = r p.cur p (h, refl)

pub chk-Runs :
    {A : Type 0} {P : Parser → Type 0} {bound : ℕ} (u : TokenType) {k : Bool → Parsing A}
    → ((b : Bool) → Runs P (k b) bound)
    → Runs P (chk u >>= k) bound
unfolding ◌>>=◌ chk
chk-Runs u r p h = r (is p.cur.type u) p h

-- The current kind may be forgotten.
pub anywhere :
    {A : Type 0} {n bound : ℕ} {t : TokenType} {m : Parsing A}
    → Runs (At n) m bound
    → Runs (On n t) m bound
anywhere r p h = r p h.0

pub adv-Runs : (n : ℕ) → Runs (At n) adv n
unfolding adv
adv-Runs n p h = value-Ends p.cur (advance p) (omega (arith, measure-advance p))

-- Behind a token that is not the end of the source, less is left.
pub taken-Runs :
    {A : Type 0} (n : ℕ) {bound : ℕ} {t : TokenType} (u : TokenType) {m : Parsing A}
    → is t u ≡ true
    → is u tok_eof ≡ false
    → ((k : ℕ) → k < n → Runs (At k) m bound)
    → Runs (On n t) (adv >> m) bound
unfolding ◌>>=◌ ◌>>◌ adv
taken-Runs n u e f r p h =
    let less = measure-advance_taken p u (rw h.1 e) f in
    r (measure (advance p)) (omega (arith, less, h.0)) (advance p) (omega arith)

pub passed-Runs :
    {A : Type 0} (n : ℕ) {bound : ℕ} {t : TokenType} {m : Parsing A}
    → is t tok_eof ≡ false
    → ((k : ℕ) → k < n → Runs (At k) m bound)
    → Runs (On n t) (adv >> m) bound
unfolding ◌>>=◌ ◌>>◌ adv
passed-Runs n e r p h =
    let less = measure-advance_open p (rw h.1 e) in
    r (measure (advance p)) (omega (arith, less, h.0)) (advance p) (omega arith)

mat_found : (u : TokenType) (p : Parser) → is p.cur.type u ≡ true → mat u p ≡ some (true, advance p)
unfolding mat
mat_found u p e = rw e

mat_missing : (u : TokenType) (p : Parser) → is p.cur.type u ≡ false → mat u p ≡ some (false, p)
unfolding mat
mat_missing u p e = rw e

pub mat-Runs :
    {A : Type 0} (n : ℕ) {bound : ℕ} (u : TokenType) (k : Bool → Parsing A)
    → is u tok_eof ≡ false
    → ((j : ℕ) → j < n → Runs (At j) (k true) bound)
    → Runs (At n) (k false) bound
    → Runs (At n) (mat u >>= k) bound
unfolding ◌>>=◌
mat-Runs n u k f r s p h = elim (Bool-cases (is p.cur.type u)) [
  | inl e ↦
      let less = measure-advance_taken p u e f in
      rw (mat_found u p e, ◌>>=◌)
        (r (measure (advance p)) (omega (arith, less, h)) (advance p) (omega arith))
  | inr e ↦ rw (mat_missing u p e, ◌>>=◌) (s p h)
]

pub expect-Runs : (n : ℕ) (u : TokenType) (msg : String) → Runs (At n) (expect u msg) n
unfolding expect err report ◌>>=◌
expect-Runs n u msg p h = elim (Bool-cases (is p.cur.type u)) [
  | inl e ↦
      rw (mat_found u p e, expect, ◌>>=◌)
        (value-Ends tt (advance p) (omega (arith, measure-advance p)))
  | inr e ↦ rw (mat_missing u p e, expect, ◌>>=◌) (value-Ends tt _ (omega arith))
]
