-- ===== src/Lexer.antt =====
-- src/felexer/lexer.c: the lexer's state, its peeks, the advance by one character, and `mktok`.
-- The children hold the scanners and `lexer_next`, and what is proved of them.
-- `len` is the length of the source, below 2^31 as its type `int` wants. A read at or behind `len`
-- gives the NUL that `read_file` puts there.
pub mod Moves
pub mod Keyword
pub mod Utf8
pub mod Trivia
pub mod Gaps
pub mod Skipped
pub mod Literal
pub mod Number
pub mod Operator
pub mod Next
pub mod Progress
pub mod Tokens
pub mod Position
pub mod Bounds
use fermi.Base.{
  ℕ, ◌+◌, ◌-◌, suc, some, Bool, ◌&&◌, ◌||◌, ltb, leb, ◌==◌, if◌then◌else◌, get_or, take,
}
use fermi.Base.Loops.{while}
use fermi.Base.Text.{Bytes}
use fermi.Arena.{Arena, arena_strndup}
use fermi.Token.{TokenType, Token}

pub record Lexer : Type 0 where
  pub src : Bytes
  pub pos : ℕ
  pub line : ℕ
  pub col : ℕ
  pub len : ℕ
  pub arena : Arena

unfoldable pub lexer_new : Bytes → ℕ → Arena → Lexer
lexer_new src len arena = record { src = src; pos = 0; line = 1; col = 1; len = len; arena = arena }

abbrev pub pk : Lexer → ℕ
pk l = if ltb l.pos l.len then get_or l.src l.pos 0 else 0

abbrev pub pk2 : Lexer → ℕ
pk2 l = if ltb (l.pos + 1) l.len then get_or l.src (l.pos + 1) 0 else 0

abbrev pub pk3 : Lexer → ℕ
pk3 l = if ltb (l.pos + 2) l.len then get_or l.src (l.pos + 2) 0 else 0

-- `l->src[l->pos]`, the character that `lx_adv` returns.
abbrev pub here : Lexer → ℕ
here l = get_or l.src l.pos 0

-- The state after `lx_adv`.
unfoldable pub lx_adv : Lexer → Lexer
lx_adv l =
    if here l == b'\n'
    then record l { pos = l.pos + 1; line = l.line + 1; col = 1 }
    else record l { pos = l.pos + 1; col = l.col + 1 }

-- The first `n` bytes of `v` are copied into the arena, and make the token's value.
unfoldable pub mktok : Lexer → TokenType → Bytes → ℕ → ℕ → ℕ → Token × Lexer
mktok l t v n line col = (
  record { type = t; value = take n v; line = line; col = col },
  record l { arena = (arena_strndup l.arena (some v) n).1 },
)

-- Fuel for a loop that advances in each round and stops at the end of the source.
abbrev pub rounds : Lexer → ℕ
rounds l = suc (l.len - l.pos)

abbrev pub at_end : Lexer → Bool
at_end l = leb l.len l.pos

-- The character classes of <ctype.h> in the C locale.
abbrev pub isdigit : ℕ → Bool
isdigit c = leb b'0' c && leb c b'9'

abbrev pub isalpha : ℕ → Bool
isalpha c = leb b'a' c && leb c b'z' || leb b'A' c && leb c b'Z'

abbrev pub isalnum : ℕ → Bool
isalnum c = isalpha c || isdigit c

abbrev pub isxdigit : ℕ → Bool
isxdigit c = isdigit c || leb b'a' c && leb c b'f' || leb b'A' c && leb c b'F'

-- `while (l->pos < l->len && test(pk(l))) lx_adv(l);`
unfoldable pub skip_while : (ℕ → Bool) → Lexer → Lexer
unfolding lx_adv while
skip_while test l = while (rounds l) (λ m. ltb m.pos m.len && test (pk m)) lx_adv l
