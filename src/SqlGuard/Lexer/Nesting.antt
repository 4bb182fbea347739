-- ===== src/SqlGuard/Lexer/Nesting.antt =====
-- The depth of the tokens: it counts the parentheses that are open, and only parentheses of the
-- statement itself count, not those in strings, quoted names or comments.
use mathlib.Core.Logic.{◌≢◌}
use rowset_studio.Common.{
  ℕ, zero, suc, ◌+◌, ◌≤◌, ◌≡◌, refl, true, false, ◌&&◌, ◌||◌, Option, none, some, List, [], ◌∷◌,
  Bytes, codes, drop, take, arith, ltb, ◌==◌, if◌then◌else◌,
}
use rowset_studio.SqlGuard.Types.{
  Runtime, Dialect, Token, Error, ok, unterminated_comment, unterminated_string,
  unterminated_identifier,
}
use rowset_studio.SqlGuard.Lexer.Scan.{
  is_space, is_ident, hash_starts_comment, executable_comment_marker, nests_comments,
  backslash_escapes, until_newline, comment_length, dollar_quote_length, string_body, ends_quoted,
  quoted_body, ident_run, starts2,
}
use rowset_studio.SqlGuard.Lexer.Turns.{Lexes, finish, skip, emit, lex_dialect-Lexes}
use rowset_studio.SqlGuard.Lexer.{
  Piece-if, Piece-if_any, Found, blank, close_executable, open_executable, literal, quoted_name,
  name, symbol, open_paren, close_paren, Piece, piece, bad, ends_with_piece, string_piece,
  comment_piece, dollar_piece, token_piece, next_piece, closes_nothing, emits, depth_after,
  make_token, lex_dialect,
}

-- The tokens from a place on where `k` parentheses are open: an opening one stands at depth `k`, a
-- closing one needs an open one and stands at the depth of its partner, any other token stands at
-- depth `k`, and at the end none is open.
pub data WellNested : ℕ → List Token → Type 0 where
  balanced : {k : ℕ} → k ≡ 0 → WellNested k []
  opens :
      {k : ℕ} {t : Token} {ts : List Token}
      → t.text ≡ codes "("
      → t.depth ≡ k
      → WellNested (k + 1) ts
      → WellNested k (t ∷ ts)
  closes :
      {k : ℕ} {t : Token} {ts : List Token}
      → t.text ≡ codes ")"
      → k ≡ t.depth + 1
      → WellNested t.depth ts
      → WellNested k (t ∷ ts)
  plain :
      {k : ℕ} {t : Token} {ts : List Token}
      → t.text ≢ codes "("
      → t.text ≢ codes ")"
      → t.depth ≡ k
      → WellNested k ts
      → WellNested k (t ∷ ts)

-- The first byte of a piece tells whether it is a parenthesis.
abbrev HeadOf : Found → ℕ → ℕ → Type 0
HeadOf open_paren c n = (c ≡ b'(') × (n ≡ 1)
HeadOf close_paren c n = (c ≡ b')') × (n ≡ 1)
HeadOf blank c n = Unit
HeadOf open_executable c n = Unit
HeadOf close_executable c n = Unit
HeadOf _ c n = (c ≢ b'(') × (c ≢ b')')

Head : ℕ → Piece → Type 0
Head c (piece f n) = HeadOf f c n
Head c (bad e) = Unit

Head-ends_with :
    (c : ℕ) (o : Option ℕ) (found : ℕ → Piece) (e : Error)
    → ((n : ℕ) → Head c (found n))
    → Head c (ends_with_piece o found e)
unfolding Head
Head-ends_with c none found e h = tt
Head-ends_with c (some n) found e h = h n

token_piece-Head : (d : Dialect) (c : ℕ) (cs : Bytes) → Head c (token_piece d c cs)
unfolding token_piece
token_piece-Head d c cs =
    let n = string_body (backslash_escapes d) cs in
    let close = if c == b'[' then b']' else c in
    let quotes = c == b'"' || c == b'`' || c == b'[' in
    Piece-if_any (Head c) (c == b'\'') (string_piece d c cs) _
      (λ e.
        Piece-if_any (Head c) (ends_quoted n (c ∷ cs)) (piece literal (1 + n))
          (bad unterminated_string) (λ _. unfold Head in ground arith) (unfold Head in tt))
      (Piece-if_any (Head c) quotes
        (ends_with_piece (quoted_body close cs) (λ n. piece quoted_name (1 + n))
          unterminated_identifier)
        _
        (λ e.
          Head-ends_with c (quoted_body close cs) (λ n. piece quoted_name (1 + n))
            unterminated_identifier (λ n. unfold Head in ground arith))
        (Piece-if_any (Head c) (is_ident c) (piece name (1 + ident_run cs)) _
          (λ e. unfold Head is_ident in ground arith)
          (Piece-if (Head c) (c == b'(') (piece open_paren 1) _ (λ e. unfold Head in ground arith)
            λ e.
              Piece-if (Head c) (c == b')') (piece close_paren 1) (piece symbol 1)
                (λ e'. unfold Head in ground arith) λ e'. unfold Head in ground arith)))

dollar_piece-Head :
    (d : Dialect) (c : ℕ) (cs : Bytes) (o : Option (Option ℕ))
    → c ≡ b'$'
    → Head c (dollar_piece d c cs o)
dollar_piece-Head d c cs none h = token_piece-Head d c cs
dollar_piece-Head d c cs (some none) h = unfold Head in tt
dollar_piece-Head d c cs (some (some n)) h = unfold Head in ground arith

next_piece-Head :
    (d : Dialect) (executable c : ℕ) (cs : Bytes) → Head c (next_piece d executable c cs)
unfolding next_piece
next_piece-Head d executable c cs =
    let s = c ∷ cs in
    let marker = executable_comment_marker d s in
    let comment : Head c (comment_piece d s) =
      Piece-if_any (Head c) (ltb 0 marker) (piece open_executable marker) _ (λ _. unfold Head in tt)
        (Head-ends_with c (comment_length (nests_comments d) 1 (drop 2 s))
          (λ n. piece blank (2 + n)) unterminated_comment (λ n. unfold Head in tt)) in
    Piece-if_any (Head c) (is_space c) (piece blank 1) _ (λ _. unfold Head in tt)
      (Piece-if_any (Head c) (starts2 b'-' b'-' s) (piece blank (2 + until_newline (drop 1 cs))) _
        (λ _. unfold Head in tt)
        (Piece-if_any (Head c) (c == b'#' && hash_starts_comment d)
          (piece blank (1 + until_newline cs)) _ (λ _. unfold Head in tt)
          (Piece-if_any (Head c) (starts2 b'/' b'*' s) (comment_piece d s) _ (λ _. comment)
            (Piece-if_any (Head c) (ltb 0 executable && starts2 b'*' b'/' s)
              (piece close_executable 2) _ (λ _. unfold Head in tt)
              (Piece-if_any (Head c) (c == b'$') (dollar_piece d c cs (dollar_quote_length s))
                (token_piece d c cs)
                (λ e. dollar_piece-Head d c cs (dollar_quote_length s) (ground arith))
                (token_piece-Head d c cs))))))

HeadOf-piece : (f : Found) (c n : ℕ) {p : Piece} → p ≡ piece f n → Head c p → HeadOf f c n
HeadOf-piece f c n e h = unfold Head in rw e at h

head-injective : {c b : ℕ} {s s' : Bytes} → c ∷ s ≡ b ∷ s' → c ≡ b
head-injective h = cc

take-ne : (n c b : ℕ) (cs : Bytes) → 1 ≤ n → c ≢ b → take n (c ∷ cs) ≢ b ∷ []
take-ne zero c b cs lo h = absurd (omega arith)
take-ne (suc n) c b cs lo h = λ e. h (head-injective e)

module _ (rt : Runtime) (d : Dialect) where
  -- One token in front of those behind it.
  token-WellNested :
      (f : Found) (c n i depth : ℕ) (cs : Bytes) {ts : List Token}
      → 1 ≤ n
      → HeadOf f c n
      → emits f ≡ true
      → closes_nothing f depth ≡ false
      → WellNested (depth_after f depth) ts
      → WellNested depth (make_token rt f (c ∷ cs) i n depth ∷ ts)
  unfolding make_token
  token-WellNested open_paren c n i depth cs lo h e z w = opens (rw (h.0, h.1)) refl w
  token-WellNested close_paren c n i depth cs lo h e z w = closes (rw (h.0, h.1)) (ground arith) w
  token-WellNested blank c n i depth cs lo h e z w = cc
  token-WellNested open_executable c n i depth cs lo h e z w = cc
  token-WellNested close_executable c n i depth cs lo h e z w = cc
  token-WellNested _ c n i depth cs lo h e z w =
      plain (take-ne n c _ cs lo h.0) (take-ne n c _ cs lo h.1) refl w

  skip-depth : (f : Found) (depth : ℕ) → emits f ≡ false → depth_after f depth ≡ depth
  skip-depth open_paren depth e = cc
  skip-depth close_paren depth e = cc
  skip-depth _ depth e = refl

  Lexes-WellNested :
      {s : Bytes} {i depth executable : ℕ} {ts : List Token}
      → Lexes rt d s i depth executable ts
      → WellNested depth ts
  Lexes-WellNested (finish e) = balanced e
  Lexes-WellNested (skip {depth = depth} f n q lo hi e r) =
      rw (skip-depth f depth e) at (Lexes-WellNested r)
  Lexes-WellNested (emit {c} {i} {depth} {executable} {cs} f n q lo hi e z m r) = rw m (
      token-WellNested f c n i depth cs lo
        (HeadOf-piece f c n q (next_piece-Head d executable c cs)) e z (Lexes-WellNested r))

-- `LexDialect` returns tokens only for text whose parentheses match, and each token has the number
-- of parentheses open around it for its Depth.
pub lex_dialect-WellNested :
    (rt : Runtime) (d : Dialect) (sql : Bytes) {ts : List Token}
    → lex_dialect rt d sql ≡ ok ts
    → WellNested 0 ts
lex_dialect-WellNested rt d sql h = Lexes-WellNested rt d (lex_dialect-Lexes rt d sql h)
