-- ===== src/Tests/Parsing.antt =====
-- The parser on short programs.
use fermi.Base.{ℕ, [], ◌-◌, get_or, arith, length}
use fermi.Base.Int.{ℤ, pos}
use fermi.Base.Text.{Bytes, codes}
use fermi.Arena.{Arena}
use fermi.Ast.{AstNode, node_this}
use fermi.Parser.{Parser, Parsing, parser_new, nd, ◌>>=◌, ◌>>◌}
use fermi.Parser.Named.{take_token}
use fermi.Parser.Binary.{parse_binary}
use fermi.Parser.Binary.Climb.{Climbed, parse_binary-Climbed}
use fermi.Parser.Measure.{measure}
use fermi.Parser.Ends.{Ends, then-Runs, adv-Runs, pure-Runs}
use fermi.Parser.Types.{parse_type}
use fermi.Parser.Types.Ends.{parse_type-Ends}

-- What `strtoll` gives on a single digit.
abbrev one_digit : Bytes → ℕ → ℤ
one_digit s base = pos (get_or s 0 0 - 48)

abbrev no_arena : Arena
no_arena = record { chunks = []; block_size = 64 }

abbrev parser_at : Bytes → Parser
parser_at src = parser_new src (length src) no_arena

parse_type-Ends_example :
    Ends
      (measure (parser_at (codes "[&fn(int, [x]) -> List<int>; 4]")))
      (parse_type one_digit (parser_at (codes "[&fn(int, [x]) -> List<int>; 4]")))
parse_type-Ends_example =
    parse_type-Ends one_digit (parser_at (codes "[&fn(int, [x]) -> List<int>; 4]"))

-- Operands of one token.
abbrev one_token : Parsing AstNode
one_token = take_token node_this

one_token-Ends : (p : Parser) → Ends (measure p) (one_token p)
unfolding take_token nd ◌>>=◌ ◌>>◌
one_token-Ends p =
    then-Runs (measure p) (adv-Runs (measure p)) (pure-Runs (measure p) _) p (omega arith)

parse_binary-Climbed_example :
    Climbed one_token 0
      (parser_at (codes "a - b * c - d;"))
      (measure (parser_at (codes "a - b * c - d;")))
      (parse_binary one_token 0 (parser_at (codes "a - b * c - d;")))
parse_binary-Climbed_example =
    parse_binary-Climbed one_token one_token-Ends 0 (parser_at (codes "a - b * c - d;"))
