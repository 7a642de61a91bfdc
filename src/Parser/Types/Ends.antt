-- ===== src/Parser/Types/Ends.antt =====
-- Types are read to their end, whatever stands in the source.
use fermi.Base.{
  ℕ, zero, suc, ◌+◌, ◌*◌, ◌≤◌, ◌<◌, ◌≡◌, refl, arith, Bool, false, ◌||◌, Option, none, some,
  if◌then◌else◌,
}
use fermi.Token.{
  TokenType, tok_int_lit, tok_fn, tok_ident, tok_star, tok_amp, tok_lt, tok_gt, tok_arrow,
  tok_colon, tok_semicolon, tok_comma, tok_lparen, tok_rparen, tok_lbracket, tok_rbracket, tok_eof,
}
use fermi.Ast.{TypeKind, TypeNode, ty_unknown}
use fermi.Parser.{Parser, Parsing, ◌>>◌, adv, rounds, pure}
use fermi.Parser.Kinds.{is, place}
use fermi.Parser.Measure.{measure, measure-rounds}
use fermi.Parser.Ends.{
  Ends, At, On, Runs, pure-Runs, wider-Runs, if-Runs, bind-Runs, then-Runs, kind-Runs, current-Runs,
  chk-Runs, anywhere, adv-Runs, taken-Runs, passed-Runs, mat-Runs, expect-Runs,
}
use fermi.Parser.Types.{
  Strtoll, plain_type, skip_nested, parse_named_type, parse_simple_type, parse_array_size,
  type_keyword, type_within, array_within, fn_ptr_within, types_within, parse_type,
}

pub skip_nested-Runs :
    (opening closing : TokenType) (fuel depth n : ℕ)
    → n < fuel
    → Runs (At n) (skip_nested opening closing fuel depth) n
unfolding skip_nested
skip_nested-Runs opening closing fuel zero n h = pure-Runs n tt
skip_nested-Runs opening closing zero (suc depth) n h = absurd (omega arith)
skip_nested-Runs opening closing (suc fuel) (suc depth) n h = kind-Runs λ t.
    let next : (d : ℕ)
        → is t tok_eof ≡ false
        → Runs (On n t) (adv >> skip_nested opening closing fuel d) n =
      λ d more. passed-Runs n more λ k less.
        wider-Runs k n (skip_nested-Runs opening closing fuel d k (omega arith)) (omega arith) in
    if-Runs (is t tok_eof) (λ e. anywhere (pure-Runs n tt))
      λ more.
        if-Runs (is t opening) (λ e. next (suc (suc depth)) more)
          λ e. if-Runs (is t closing) (λ f. next depth more) λ f. next (suc depth) more

-- The fuel that the source's state gives is enough.
skip-Runs :
    (opening closing : TokenType) (n : ℕ)
    → Runs (At n) (λ p. skip_nested opening closing (rounds p) 1 p) n
skip-Runs opening closing n p h =
    wider-Runs (measure p) n
      (skip_nested-Runs opening closing (rounds p) 1 (measure p) (measure-rounds p)) h p
      (omega arith)

parse_named_type-Runs : (n : ℕ) → Runs (At n) parse_named_type n
unfolding parse_named_type
parse_named_type-Runs n = bind-Runs n (adv-Runs n) λ t. chk-Runs tok_lt λ generic.
    then-Runs n
      (if-Runs generic (λ e. then-Runs n (adv-Runs n) (skip-Runs tok_lt tok_gt n))
        λ e. pure-Runs n tt)
      (pure-Runs n _)

simple_case :
    (n : ℕ) (o : Option TypeKind) (b : Bool)
    → Runs
        (At n)
        (elim o as (λ _. Parsing TypeNode) [
          | some k ↦ adv >> pure (plain_type k)
          | none ↦ if b then parse_named_type else pure (plain_type ty_unknown)
        ])
        n
simple_case n (some k) b = then-Runs n (adv-Runs n) (pure-Runs n _)
simple_case n none b = if-Runs b (λ e. parse_named_type-Runs n) λ e. pure-Runs n _

parse_simple_type-Runs : (n : ℕ) → Runs (At n) parse_simple_type n
unfolding parse_simple_type
parse_simple_type-Runs n = kind-Runs λ t. anywhere (simple_case n (type_keyword t) (is t tok_ident))

parse_array_size-Runs : (strtoll : Strtoll) (n : ℕ) → Runs (At n) (parse_array_size strtoll) n
unfolding parse_array_size
parse_array_size-Runs strtoll n = current-Runs λ t. anywhere (
    chk-Runs tok_int_lit λ number.
      then-Runs n
        (if-Runs number (λ e. then-Runs n (adv-Runs n) (pure-Runs n tt)) λ e. pure-Runs n tt)
        (pure-Runs n _))

-- A type, an array behind its bracket, a function pointer behind `fn`, and the types of parameters.
mutual
  unfolding type_within place

  type_within-Runs :
      (strtoll : Strtoll) (fuel n : ℕ) → n * 3 + 1 ≤ fuel → Runs (At n) (type_within strtoll fuel) n
  type_within-Runs strtoll zero n h = absurd (omega arith)
  type_within-Runs strtoll (suc fuel) n h = kind-Runs λ t.
      let inner : (k : ℕ) → k < n → Runs (At k) (type_within strtoll fuel) n =
        λ k less. wider-Runs k n (type_within-Runs strtoll fuel k (omega arith)) (omega arith) in
      if-Runs (is t tok_amp)
        (λ e. taken-Runs n tok_amp e refl λ k less. bind-Runs n (inner k less) λ a. pure-Runs n _)
        λ _.
          if-Runs (is t tok_star)
            (λ e.
              taken-Runs n tok_star e refl λ k less. bind-Runs n (inner k less) λ a. pure-Runs n _)
            λ _.
              if-Runs (is t tok_lbracket)
                (λ e. taken-Runs n tok_lbracket e refl λ k less.
                  wider-Runs k n (array_within-Runs strtoll fuel k (omega arith)) (omega arith))
                λ _.
                  if-Runs (is t tok_fn)
                    (λ e. taken-Runs n tok_fn e refl λ k less.
                      wider-Runs k n (fn_ptr_within-Runs strtoll fuel k (omega arith))
                        (omega arith))
                    λ _. anywhere (parse_simple_type-Runs n)

  array_within-Runs :
      (strtoll : Strtoll) (fuel n : ℕ)
      → n * 3 + 2 ≤ fuel
      → Runs (At n) (array_within strtoll fuel) n
  array_within-Runs strtoll zero n h = absurd (omega arith)
  array_within-Runs strtoll (suc fuel) n h = chk-Runs tok_rbracket λ closed.
      bind-Runs n
        (if-Runs closed (λ _. pure-Runs n _)
          λ _. bind-Runs n (type_within-Runs strtoll fuel n (omega arith)) λ inner.
            mat-Runs n tok_semicolon _ refl
              (λ k less.
                bind-Runs n (wider-Runs k n (parse_array_size-Runs strtoll k) (omega arith))
                  λ size. pure-Runs n _)
              (pure-Runs n _))
        λ a. then-Runs n (expect-Runs n tok_rbracket _) (pure-Runs n a)

  fn_ptr_within-Runs :
      (strtoll : Strtoll) (fuel n : ℕ)
      → n * 3 + 3 ≤ fuel
      → Runs (At n) (fn_ptr_within strtoll fuel) n
  fn_ptr_within-Runs strtoll zero n h = absurd (omega arith)
  fn_ptr_within-Runs strtoll (suc fuel) n h =
      let rest : Runs (At n) _ n = kind-Runs λ t.
        if-Runs (is t tok_colon || is t tok_arrow)
          (λ e. anywhere (
            then-Runs n (adv-Runs n)
              (bind-Runs n (type_within-Runs strtoll fuel n (omega arith)) λ inner. pure-Runs n _)))
          λ _. anywhere (pure-Runs n _) in
      mat-Runs n tok_lparen _ refl
        (λ k less.
          then-Runs n
            (then-Runs k (types_within-Runs strtoll fuel k (omega arith))
              (wider-Runs k n (expect-Runs k tok_rparen _) (omega arith)))
            rest)
        (then-Runs n (pure-Runs n tt) rest)

  types_within-Runs :
      (strtoll : Strtoll) (fuel n : ℕ)
      → n * 3 + 2 ≤ fuel
      → Runs (At n) (types_within strtoll fuel) n
  types_within-Runs strtoll zero n h = absurd (omega arith)
  types_within-Runs strtoll (suc fuel) n h = kind-Runs λ t.
      if-Runs (is t tok_rparen || is t tok_eof) (λ _. anywhere (pure-Runs n tt))
        λ _. anywhere (
          then-Runs n (type_within-Runs strtoll fuel n (omega arith)) (
            mat-Runs n tok_comma _ refl
              (λ k less.
                wider-Runs k n (types_within-Runs strtoll fuel k (omega arith)) (omega arith))
              (pure-Runs n tt)))

-- `parse_type` ends in every state, whatever the source holds, and with at most as much left as
-- there was.
pub parse_type-Ends : (strtoll : Strtoll) (p : Parser) → Ends (measure p) (parse_type strtoll p)
unfolding parse_type
parse_type-Ends strtoll p =
    type_within-Runs strtoll (rounds p * 3) (measure p) (omega (arith, measure-rounds p)) p
      (omega arith)
