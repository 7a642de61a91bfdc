-- ===== src/Parser/Kinds.antt =====
-- src/felexer/token.h: the places of the kinds in their enumeration, which tell them apart.
use fermi.Base.{ℕ, Bool, ◌==◌}
use fermi.Token.{
  TokenType, tok_int_lit, tok_float_lit, tok_double_lit, tok_long_lit, tok_string_lit, tok_char_lit,
  tok_bool_lit, tok_byte, tok_short, tok_ushort, tok_int, tok_uint, tok_long, tok_ulong, tok_float,
  tok_double, tok_bool, tok_str, tok_char, tok_let, tok_mut, tok_const, tok_fn, tok_unit,
  tok_return, tok_if, tok_else, tok_while, tok_do, tok_for, tok_match, tok_import, tok_export,
  tok_module, tok_enum, tok_class, tok_public, tok_private, tok_this, tok_new, tok_true, tok_false,
  tok_in, tok_region, tok_break, tok_continue, tok_type, tok_defer, tok_external, tok_unsafe,
  tok_null, tok_at, tok_comptime, tok_ident, tok_plus, tok_minus, tok_star, tok_slash, tok_percent,
  tok_amp, tok_pipe, tok_caret, tok_tilde, tok_assign, tok_eq, tok_neq, tok_lt, tok_gt, tok_lte,
  tok_gte, tok_and, tok_or, tok_not, tok_arrow, tok_fat_arrow, tok_plus_assign, tok_minus_assign,
  tok_star_assign, tok_slash_assign, tok_percent_assign, tok_amp_assign, tok_pipe_assign,
  tok_caret_assign, tok_shl, tok_shr, tok_shl_assign, tok_shr_assign, tok_inc, tok_dec, tok_colon,
  tok_double_colon, tok_semicolon, tok_comma, tok_dot, tok_range, tok_range_eq, tok_question,
  tok_hash, tok_as, tok_lparen, tok_rparen, tok_lbrace, tok_rbrace, tok_lbracket, tok_rbracket,
  tok_interp_start, tok_eof, tok_unknown,
}

unfoldable pub place : TokenType → ℕ
place tok_int_lit = 0
place tok_float_lit = 1
place tok_double_lit = 2
place tok_long_lit = 3
place tok_string_lit = 4
place tok_char_lit = 5
place tok_bool_lit = 6
place tok_byte = 7
place tok_short = 8
place tok_ushort = 9
place tok_int = 10
place tok_uint = 11
place tok_long = 12
place tok_ulong = 13
place tok_float = 14
place tok_double = 15
place tok_bool = 16
place tok_str = 17
place tok_char = 18
place tok_let = 19
place tok_mut = 20
place tok_const = 21
place tok_fn = 22
place tok_unit = 23
place tok_return = 24
place tok_if = 25
place tok_else = 26
place tok_while = 27
place tok_do = 28
place tok_for = 29
place tok_match = 30
place tok_import = 31
place tok_export = 32
place tok_module = 33
place tok_enum = 34
place tok_class = 35
place tok_public = 36
place tok_private = 37
place tok_this = 38
place tok_new = 39
place tok_true = 40
place tok_false = 41
place tok_in = 42
place tok_region = 43
place tok_break = 44
place tok_continue = 45
place tok_type = 46
place tok_defer = 47
place tok_external = 48
place tok_unsafe = 49
place tok_null = 50
place tok_at = 51
place tok_comptime = 52
place tok_ident = 53
place tok_plus = 54
place tok_minus = 55
place tok_star = 56
place tok_slash = 57
place tok_percent = 58
place tok_amp = 59
place tok_pipe = 60
place tok_caret = 61
place tok_tilde = 62
place tok_assign = 63
place tok_eq = 64
place tok_neq = 65
place tok_lt = 66
place tok_gt = 67
place tok_lte = 68
place tok_gte = 69
place tok_and = 70
place tok_or = 71
place tok_not = 72
place tok_arrow = 73
place tok_fat_arrow = 74
place tok_plus_assign = 75
place tok_minus_assign = 76
place tok_star_assign = 77
place tok_slash_assign = 78
place tok_percent_assign = 79
place tok_amp_assign = 80
place tok_pipe_assign = 81
place tok_caret_assign = 82
place tok_shl = 83
place tok_shr = 84
place tok_shl_assign = 85
place tok_shr_assign = 86
place tok_inc = 87
place tok_dec = 88
place tok_colon = 89
place tok_double_colon = 90
place tok_semicolon = 91
place tok_comma = 92
place tok_dot = 93
place tok_range = 94
place tok_range_eq = 95
place tok_question = 96
place tok_hash = 97
place tok_as = 98
place tok_lparen = 99
place tok_rparen = 100
place tok_lbrace = 101
place tok_rbrace = 102
place tok_lbracket = 103
place tok_rbracket = 104
place tok_interp_start = 105
place tok_eof = 106
place tok_unknown = 107

abbrev pub is : TokenType → TokenType → Bool
is a b = place a == place b
