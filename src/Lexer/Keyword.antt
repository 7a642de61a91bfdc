-- ===== src/Lexer/Keyword.antt =====
-- src/felexer/lexer.c, `kw_check`: the keyword that an identifier spells, if any. The switch on the
-- length is `kw_check`; each case is a function of its own.
pub mod Spelling
use fermi.Base.{ℕ, Bool, true, false, ◌&&◌, ◌==◌, if◌then◌else◌, get_or, take}
use fermi.Base.Text.{Bytes, codes, str_eq}
use fermi.Token.{TokenType}
use fermi.Token.{
  tok_ident, tok_fn, tok_if, tok_in, tok_do, tok_let, tok_mut, tok_for, tok_new, tok_int, tok_str,
  tok_bool, tok_byte, tok_char, tok_null, tok_else, tok_enum, tok_long, tok_this, tok_true,
  tok_type, tok_uint, tok_unit, tok_break, tok_const, tok_class, tok_defer, tok_false, tok_float,
  tok_match, tok_short, tok_ulong, tok_while, tok_double, tok_export, tok_import, tok_module,
  tok_public, tok_return, tok_region, tok_ushort, tok_unsafe, tok_private, tok_continue,
  tok_external, tok_comptime,
}

-- `!memcmp(s, w, n)` for a word of `n` bytes.
memcmp_eq : Bytes → Bytes → ℕ → Bool
memcmp_eq s w n = str_eq (take n s) w

kw_check_2 : Bytes → TokenType
unfolding memcmp_eq
kw_check_2 s =
    if get_or s 0 0 == b'f' && get_or s 1 0 == b'n'
    then tok_fn
    else if get_or s 0 0 == b'i' && get_or s 1 0 == b'f'
    then tok_if
    else if get_or s 0 0 == b'i' && get_or s 1 0 == b'n'
    then tok_in
    else if get_or s 0 0 == b'd' && get_or s 1 0 == b'o'
    then tok_do
    else tok_ident

kw_check_3 : Bytes → TokenType
unfolding memcmp_eq
kw_check_3 s =
    if memcmp_eq s (codes "let") 3
    then tok_let
    else if memcmp_eq s (codes "mut") 3
    then tok_mut
    else if memcmp_eq s (codes "for") 3
    then tok_for
    else if memcmp_eq s (codes "new") 3
    then tok_new
    else if memcmp_eq s (codes "int") 3
    then tok_int
    else if memcmp_eq s (codes "str") 3
    then tok_str
    else tok_ident

kw_check_4 : Bytes → TokenType
unfolding memcmp_eq
kw_check_4 s =
    if get_or s 0 0 == b'b'
    then (if memcmp_eq s (codes "bool") 4
        then tok_bool
        else if memcmp_eq s (codes "byte") 4
        then tok_byte
        else tok_ident)
    else if get_or s 0 0 == b'c'
    then (if memcmp_eq s (codes "char") 4 then tok_char else tok_ident)
    else if get_or s 0 0 == b'n'
    then (if memcmp_eq s (codes "null") 4 then tok_null else tok_ident)
    else if get_or s 0 0 == b'e'
    then (if memcmp_eq s (codes "else") 4
        then tok_else
        else if memcmp_eq s (codes "enum") 4
        then tok_enum
        else tok_ident)
    else if get_or s 0 0 == b'l'
    then (if memcmp_eq s (codes "long") 4 then tok_long else tok_ident)
    else if get_or s 0 0 == b't'
    then (if memcmp_eq s (codes "this") 4
        then tok_this
        else if memcmp_eq s (codes "true") 4
        then tok_true
        else if memcmp_eq s (codes "type") 4
        then tok_type
        else tok_ident)
    else if get_or s 0 0 == b'u'
    then (if memcmp_eq s (codes "uint") 4
        then tok_uint
        else if memcmp_eq s (codes "unit") 4
        then tok_unit
        else tok_ident)
    else tok_ident

kw_check_5 : Bytes → TokenType
unfolding memcmp_eq
kw_check_5 s =
    if get_or s 0 0 == b'b'
    then (if memcmp_eq s (codes "break") 5 then tok_break else tok_ident)
    else if get_or s 0 0 == b'c'
    then (if memcmp_eq s (codes "const") 5
        then tok_const
        else if memcmp_eq s (codes "class") 5
        then tok_class
        else tok_ident)
    else if get_or s 0 0 == b'd'
    then (if memcmp_eq s (codes "defer") 5 then tok_defer else tok_ident)
    else if get_or s 0 0 == b'f'
    then (if memcmp_eq s (codes "false") 5
        then tok_false
        else if memcmp_eq s (codes "float") 5
        then tok_float
        else tok_ident)
    else if get_or s 0 0 == b'm'
    then (if memcmp_eq s (codes "match") 5
        then tok_match
        else if memcmp_eq s (codes "model") 5
        then tok_ident
        else tok_ident)
    else if get_or s 0 0 == b's'
    then (if memcmp_eq s (codes "short") 5 then tok_short else tok_ident)
    else if get_or s 0 0 == b'u'
    then (if memcmp_eq s (codes "ulong") 5 then tok_ulong else tok_ident)
    else if get_or s 0 0 == b'w'
    then (if memcmp_eq s (codes "while") 5 then tok_while else tok_ident)
    else tok_ident

kw_check_6 : Bytes → TokenType
unfolding memcmp_eq
kw_check_6 s =
    if get_or s 0 0 == b'd'
    then (if memcmp_eq s (codes "double") 6 then tok_double else tok_ident)
    else if get_or s 0 0 == b'e'
    then (if memcmp_eq s (codes "export") 6 then tok_export else tok_ident)
    else if get_or s 0 0 == b'i'
    then (if memcmp_eq s (codes "import") 6 then tok_import else tok_ident)
    else if get_or s 0 0 == b'm'
    then (if memcmp_eq s (codes "module") 6 then tok_module else tok_ident)
    else if get_or s 0 0 == b'p'
    then (if memcmp_eq s (codes "public") 6 then tok_public else tok_ident)
    else if get_or s 0 0 == b'r'
    then (if memcmp_eq s (codes "return") 6
        then tok_return
        else if memcmp_eq s (codes "region") 6
        then tok_region
        else tok_ident)
    else if get_or s 0 0 == b'u'
    then (if memcmp_eq s (codes "ushort") 6
        then tok_ushort
        else if memcmp_eq s (codes "unsafe") 6
        then tok_unsafe
        else tok_ident)
    else tok_ident

kw_check_7 : Bytes → TokenType
unfolding memcmp_eq
kw_check_7 s = if memcmp_eq s (codes "private") 7 then tok_private else tok_ident

kw_check_8 : Bytes → TokenType
unfolding memcmp_eq
kw_check_8 s =
    if memcmp_eq s (codes "continue") 8
    then tok_continue
    else if memcmp_eq s (codes "external") 8
    then tok_external
    else if memcmp_eq s (codes "comptime") 8
    then tok_comptime
    else tok_ident

unfoldable pub kw_check : Bytes → ℕ → TokenType
unfolding kw_check_2 kw_check_3 kw_check_4 kw_check_5 kw_check_6 kw_check_7 kw_check_8
kw_check s n =
    if n == 2
    then kw_check_2 s
    else if n == 3
    then kw_check_3 s
    else if n == 4
    then kw_check_4 s
    else if n == 5
    then kw_check_5 s
    else if n == 6
    then kw_check_6 s
    else if n == 7
    then kw_check_7 s
    else if n == 8
    then kw_check_8 s
    else tok_ident

-- The kinds of tokens that are spelled by a reserved word.
abbrev pub is_keyword : TokenType → Bool
is_keyword tok_fn = true
is_keyword tok_if = true
is_keyword tok_in = true
is_keyword tok_do = true
is_keyword tok_let = true
is_keyword tok_mut = true
is_keyword tok_for = true
is_keyword tok_new = true
is_keyword tok_int = true
is_keyword tok_str = true
is_keyword tok_bool = true
is_keyword tok_byte = true
is_keyword tok_char = true
is_keyword tok_null = true
is_keyword tok_else = true
is_keyword tok_enum = true
is_keyword tok_long = true
is_keyword tok_this = true
is_keyword tok_true = true
is_keyword tok_type = true
is_keyword tok_uint = true
is_keyword tok_unit = true
is_keyword tok_break = true
is_keyword tok_const = true
is_keyword tok_class = true
is_keyword tok_defer = true
is_keyword tok_false = true
is_keyword tok_float = true
is_keyword tok_match = true
is_keyword tok_short = true
is_keyword tok_ulong = true
is_keyword tok_while = true
is_keyword tok_double = true
is_keyword tok_export = true
is_keyword tok_import = true
is_keyword tok_module = true
is_keyword tok_public = true
is_keyword tok_return = true
is_keyword tok_region = true
is_keyword tok_ushort = true
is_keyword tok_unsafe = true
is_keyword tok_private = true
is_keyword tok_continue = true
is_keyword tok_external = true
is_keyword tok_comptime = true
is_keyword _ = false
