-- ===== src/SqlGuard/Lexer/Scan.antt =====
-- The scanners of `LexDialect`: how far each kind of text reaches.
use rowset_studio.Common.{
  ℕ, zero, suc, ◌+◌, Bool, true, false, not, ◌&&◌, ◌||◌, Option, none, some, [], ◌∷◌, Bytes, codes,
  has_prefix, index_of, leb, ◌==◌, if◌then◌else◌, take, drop, get_elem?,
}
use rowset_studio.SqlGuard.Types.{Dialect, generic, mysql}

-- unicode.IsSpace of a byte read as a code point.
unfoldable pub is_space : ℕ → Bool
is_space c = (leb 9 c && leb c 13) || c == 32 || c == 0x85 || c == 0xA0

-- `isIdent`.
unfoldable pub is_ident : ℕ → Bool
is_ident c =
    c == b'_'
    || c == b'$'
    || leb 0x80 c
    || (leb b'a' c && leb c b'z')
    || (leb b'A' c && leb c b'Z')
    || (leb b'0' c && leb c b'9')

-- `i+1 < len(sql) && sql[i:i+2] == "ab"` at the text from `i` on.
unfoldable pub starts2 : ℕ → ℕ → Bytes → Bool
starts2 a b [] = false
starts2 a b (c ∷ []) = false
starts2 a b (c ∷ e ∷ cs) = c == a && e == b

-- `hashStartsComment`.
unfoldable pub hash_starts_comment : Dialect → Bool
hash_starts_comment mysql = true
hash_starts_comment generic = true
hash_starts_comment _ = false

-- `nestsComments`.
unfoldable pub nests_comments : Dialect → Bool
nests_comments mysql = false
nests_comments _ = true

-- `backslashEscapes`.
unfoldable pub backslash_escapes : Dialect → Bool
backslash_escapes mysql = true
backslash_escapes _ = false

-- The bytes before the next newline.
unfoldable pub until_newline : Bytes → ℕ
until_newline [] = 0
until_newline (c ∷ cs) = let rest = until_newline cs in if c == b'\n' then 0 else 1 + rest

unfoldable pub digit_run : Bytes → ℕ
digit_run [] = 0
digit_run (c ∷ cs) = let rest = digit_run cs in if leb b'0' c && leb c b'9' then 1 + rest else 0

abbrev runs_comments : Dialect → Bool
runs_comments mysql = true
runs_comments generic = true
runs_comments _ = false

-- `executableCommentMarker`.
unfoldable pub executable_comment_marker : Dialect → Bytes → ℕ
unfolding has_prefix digit_run
executable_comment_marker d s =
    if not (runs_comments d)
    then 0
    else if not (has_prefix s (codes "/*!"))
    then 0
    else 3 + digit_run (drop 3 s)

abbrev pub passing : ℕ → Option ℕ → Option ℕ
passing k none = none
passing k (some n) = some (k + n)

-- The bytes up to the end of a block comment that is `depth` deep, `none` if it does not end.
unfoldable pub comment_length : Bool → ℕ → Bytes → Option ℕ
comment_length nests zero s = some 0
comment_length nests (suc depth) [] = none
comment_length nests (suc depth) (a ∷ []) = none
comment_length nests (suc depth) (a ∷ b ∷ s) = elim (a == b'/' && b == b'*' && nests) [
  | true ↦ passing 2 (comment_length nests (suc (suc depth)) s)
  | false ↦ elim (a == b'*' && b == b'/') [
    | true ↦ passing 2 (comment_length nests depth s)
    | false ↦ passing 1 (comment_length nests (suc depth) (b ∷ s))
  ]
]

abbrev is_tag_byte : Bool → ℕ → Bool
is_tag_byte first c =
    c == b'_'
    || (leb b'a' c && leb c b'z')
    || (leb b'A' c && leb c b'Z')
    || (not first && leb b'0' c && leb c b'9')

-- The rest of a delimiter behind its first `$`: the bytes up to the next one, that included.
unfoldable pub dollar_tag : Bool → Bytes → Option ℕ
dollar_tag first [] = none
dollar_tag first (c ∷ cs) = elim (c == b'$') [
  | true ↦ some 1
  | false ↦ elim (is_tag_byte first c) [ true ↦ passing 1 (dollar_tag false cs) | false ↦ none ]
]

-- `dollarQuoteDelimiter`: the length of the delimiter.
unfoldable pub dollar_quote_delimiter : Bytes → Option ℕ
unfolding dollar_tag
dollar_quote_delimiter [] = none
dollar_quote_delimiter (c ∷ cs) = if c == b'$' then passing 1 (dollar_tag true cs) else none

-- `none`: no delimiter stands here. `some none`: the quote does not end. `some (some n)`: it has
-- `n` bytes.
unfoldable pub dollar_quote_length : Bytes → Option (Option ℕ)
unfolding dollar_quote_delimiter index_of
dollar_quote_length s = elim (dollar_quote_delimiter s) [
  | none ↦ none
  | some n ↦ some (passing (n + n) (index_of (drop n s) (take n s)))
]

-- The bytes that the loop over a string literal passes behind the opening quote.
unfoldable pub string_body : Bool → Bytes → ℕ
string_body escapes [] = 0
string_body escapes (a ∷ []) = 1
string_body escapes (a ∷ b ∷ s) = elim (a == b'\\' && escapes) [
  | true ↦ 2 + string_body escapes s
  | false ↦ elim (a == b'\'') [
    | true ↦ elim (b == b'\'') [ true ↦ 2 + string_body escapes s | false ↦ 1 ]
    | false ↦ 1 + string_body escapes (b ∷ s)
  ]
]

-- `sql[i-1] == '\''`, the test behind that loop, at the literal's text.
unfoldable pub ends_quoted : ℕ → Bytes → Bool
ends_quoted n s = elim (get_elem? s n) [ none ↦ false | some c ↦ c == b'\'' ]

-- The bytes of a quoted identifier behind its opening byte, the closing one included.
unfoldable pub quoted_body : ℕ → Bytes → Option ℕ
quoted_body close [] = none
quoted_body close (a ∷ []) = if a == close then some 1 else none
quoted_body close (a ∷ b ∷ s) = elim (a == close) [
  | true ↦ elim (b == close) [ true ↦ passing 2 (quoted_body close s) | false ↦ some 1 ]
  | false ↦ passing 1 (quoted_body close (b ∷ s))
]

-- The bytes of an identifier behind its first one.
unfoldable pub ident_run : Bytes → ℕ
unfolding is_ident
ident_run [] = 0
ident_run (c ∷ cs) = let rest = ident_run cs in if is_ident c then 1 + rest else 0
