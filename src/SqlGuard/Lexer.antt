-- ===== src/SqlGuard/Lexer.antt =====
-- `LexDialect` of rowset-core/sqlguard/parser.go. The index `i` of the source is the pair of the
-- number `i` and the text from there on; one turn of its loop is `next_piece` followed by the step
-- of `lex_loop` for the piece that was found.
pub mod Scan
mod Extent
pub mod Total
pub mod Turns
pub mod Spans
pub mod Nesting
use rowset_studio.Common.{
  ℕ, ◌≡◌, refl, zero, suc, ◌+◌, ◌-◌, Bool, true, false, not, ◌&&◌, ◌||◌, Option, none, some, List,
  [], ◌∷◌, String, Bytes, codes, bytes_eq, ltb, leb, ◌==◌, if◌then◌else◌, length, take, drop,
  trim_cutset,
}
use rowset_studio.SqlGuard.Types.{
  Runtime, to_lower, Dialect, generic, mysql, Token, Error, unterminated_comment,
  unterminated_dollar_quote, unterminated_string, unterminated_identifier, unbalanced_parenthesis,
  out_of_fuel, Result, ok, err, ◌>>=◌,
}
use Scan.{
  is_space, is_ident, hash_starts_comment, executable_comment_marker, nests_comments,
  backslash_escapes, until_newline, comment_length, dollar_quote_length, string_body, ends_quoted,
  quoted_body, ident_run, starts2,
}

-- What one turn of the loop finds: white space or a comment, the marker of an executable comment or
-- its end, or a token, told by the branch of the loop that reads it.
pub data Found : Type 0 where
  blank open_executable close_executable : Found
  literal quoted_name name symbol open_paren close_paren : Found

-- What was found with the number of bytes that it takes, or the error that ends the loop.
pub data Piece : Type 0 where
  piece : Found → ℕ → Piece
  bad : Error → Piece

-- A property of each branch holds of the branch that is taken.
pub Piece-if :
    (P : Piece → Type 0) (b : Bool) (p q : Piece)
    → (b ≡ true → P p)
    → (b ≡ false → P q)
    → P (if b then p else q)
Piece-if P true p q h h' = h refl
Piece-if P false p q h h' = h' refl

pub Piece-if_any :
    (P : Piece → Type 0) (b : Bool) (p q : Piece) → (b ≡ true → P p) → P q → P (if b then p else q)
Piece-if_any P b p q h h' = Piece-if P b p q h (λ _. h')

abbrev pub ends_with_piece : Option ℕ → (ℕ → Piece) → Error → Piece
ends_with_piece none found e = bad e
ends_with_piece (some n) found e = found n

abbrev pub comment_piece : Dialect → Bytes → Piece
comment_piece d s =
    let marker = executable_comment_marker d s in
    if ltb 0 marker
    then piece open_executable marker
    else ends_with_piece (comment_length (nests_comments d) 1 (drop 2 s)) (λ n. piece blank (2 + n))
        unterminated_comment

abbrev pub string_piece : Dialect → ℕ → Bytes → Piece
string_piece d c cs =
    let n = string_body (backslash_escapes d) cs in
    if ends_quoted n (c ∷ cs) then piece literal (1 + n) else bad unterminated_string

abbrev symbol_piece : ℕ → Piece
symbol_piece c =
    if c == b'('
    then piece open_paren 1
    else if c == b')'
    then piece close_paren 1
    else piece symbol 1

-- The tests of the loop from the first one for a token on, but for the dollar quotes.
unfoldable pub token_piece : Dialect → ℕ → Bytes → Piece
unfolding string_body ends_quoted backslash_escapes quoted_body is_ident ident_run
token_piece d c cs =
    if c == b'\''
    then string_piece d c cs
    else if c == b'"' || c == b'`' || c == b'['
    then ends_with_piece (quoted_body (if c == b'[' then b']' else c) cs)
        (λ n. piece quoted_name (1 + n)) unterminated_identifier
    else if is_ident c
    then piece name (1 + ident_run cs)
    else symbol_piece c

abbrev pub dollar_piece : Dialect → ℕ → Bytes → Option (Option ℕ) → Piece
dollar_piece d c cs none = token_piece d c cs
dollar_piece d c cs (some closing) =
    ends_with_piece closing (piece literal) unterminated_dollar_quote

-- The tests of the loop, in their order, at the text `c ∷ cs`; `executable` is the number of
-- executable comments that are open.
unfoldable pub next_piece : Dialect → ℕ → ℕ → Bytes → Piece
unfolding token_piece is_space starts2 until_newline hash_starts_comment executable_comment_marker
    comment_length nests_comments dollar_quote_length
next_piece d executable c cs =
    if is_space c
    then piece blank 1
    else if starts2 b'-' b'-' (c ∷ cs)
    then piece blank (2 + until_newline (drop 1 cs))
    else if c == b'#' && hash_starts_comment d
    then piece blank (1 + until_newline cs)
    else if starts2 b'/' b'*' (c ∷ cs)
    then comment_piece d (c ∷ cs)
    else if ltb 0 executable && starts2 b'*' b'/' (c ∷ cs)
    then piece close_executable 2
    else if c == b'$'
    then dollar_piece d c cs (dollar_quote_length (c ∷ cs))
    else token_piece d c cs

-- The number of open parentheses and of open executable comments behind a piece.
abbrev pub depth_after : Found → ℕ → ℕ
depth_after open_paren depth = depth + 1
depth_after close_paren depth = depth - 1
depth_after _ depth = depth

abbrev pub executable_after : Found → ℕ → ℕ
executable_after open_executable n = n + 1
executable_after close_executable n = n - 1
executable_after _ n = n

-- `depth < 0` behind a closing parenthesis.
abbrev pub closes_nothing : Found → ℕ → Bool
closes_nothing close_paren depth = depth == 0
closes_nothing _ depth = false

-- A token's own depth: that of a closing parenthesis is the depth behind it.
abbrev pub token_depth : Found → ℕ → ℕ
token_depth close_paren depth = depth - 1
token_depth _ depth = depth

abbrev pub emits : Found → Bool
emits blank = false
emits open_executable = false
emits close_executable = false
emits _ = true

-- The piece's token, if it has one, in front of those of the text behind it.
abbrev pub prepend : Bool → Token → Result (List Token) → Result (List Token)
prepend true t (ok ts) = ok (t ∷ ts)
prepend _ t r = r

module _ (rt : Runtime) where
  abbrev token_lower : Found → Bytes → Bytes
  unfolding to_lower trim_cutset
  token_lower literal text = codes "?"
  token_lower quoted_name text = to_lower rt (trim_cutset text (codes "\"`[]"))
  token_lower _ text = to_lower rt text

  -- The token of `n` bytes at offset `i`, where the text `s` is left.
  unfoldable pub make_token : Found → Bytes → ℕ → ℕ → ℕ → Token
  unfolding to_lower trim_cutset
  make_token f s i n depth = record {
    text = take n s;
    lower = token_lower f (take n s);
    start = i;
    end = i + n;
    depth = token_depth f depth;
    identifier = elim f [ quoted_name ↦ true | name ↦ true | _ ↦ false ];
    quoted = elim f [ quoted_name ↦ true | _ ↦ false ];
  }

  -- The loop, from offset `i` with the text `s` left.
  unfoldable pub lex_loop : Dialect → ℕ → Bytes → ℕ → ℕ → ℕ → Result (List Token)
  unfolding next_piece make_token
  lex_loop d zero s i depth executable = err out_of_fuel
  lex_loop d (suc fuel) [] i depth executable =
      if depth == 0 then ok [] else err unbalanced_parenthesis
  lex_loop d (suc fuel) (c ∷ cs) i depth executable = elim (next_piece d executable c cs) [
    | bad e ↦ err e
    | piece f n ↦ elim (closes_nothing f depth) [
      | true ↦ err unbalanced_parenthesis
      | false ↦ prepend (emits f) (make_token f (c ∷ cs) i n depth) (
          lex_loop d fuel (drop n (c ∷ cs)) (i + n) (depth_after f depth)
            (executable_after f executable))
    ]
  ]

  -- `LexDialect`: a turn of the loop passes at least one byte.
  unfoldable pub lex_dialect : Dialect → Bytes → Result (List Token)
  unfolding lex_loop
  lex_dialect d sql = lex_loop d (suc (length sql)) sql 0 0 0

  -- `Lex`.
  unfoldable pub lex : Bytes → Result (List Token)
  unfolding lex_dialect
  lex = lex_dialect generic
