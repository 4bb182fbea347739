-- ===== src/SqlGuard/Lexer/Total.antt =====
-- The lexer always answers: each turn of its loop passes at least one byte and stays in the text.
use mathlib.Core.Logic.{◌≢◌}
use rowset_studio.Common.{
  ℕ, zero, suc, ◌+◌, ◌≤◌, ◌<◌, ◌≡◌, refl, Bool, true, false, ◌&&◌, ◌||◌, Option, none, some, List,
  [], ◌∷◌, Bytes, ltb, ltb→lt, ◌==◌, if◌then◌else◌, length, drop, length-drop, arith, Bool-cases,
  inl, inr,
}
use rowset_studio.SqlGuard.Types.{
  Runtime, Dialect, Token, Error, out_of_fuel, unterminated_string, unterminated_identifier,
  unterminated_comment, Result, ok, err,
}
use rowset_studio.SqlGuard.Lexer.Scan.{
  is_space, is_ident, hash_starts_comment, executable_comment_marker, nests_comments,
  backslash_escapes, until_newline, comment_length, dollar_quote_length, string_body, ends_quoted,
  quoted_body, ident_run, starts2,
}
use rowset_studio.SqlGuard.Lexer.Extent.{
  Within, until_newline-le, ident_run-le, executable_comment_marker-le, comment_length-Within,
  string_body-le, quoted_body-Within, Closed, dollar_quote_length-Closed,
}
use rowset_studio.SqlGuard.Lexer.{
  Piece-if_any, blank, close_executable, open_executable, literal, quoted_name, name, symbol,
  open_paren, close_paren, Piece, piece, bad, ends_with_piece, string_piece, comment_piece,
  dollar_piece, token_piece, next_piece, closes_nothing, emits, prepend, lex_loop, lex_dialect,
}

-- The piece has between one byte and all `k` that are left; an error is one of the source's.
unfoldable pub Fits : ℕ → Piece → Type 0
Fits k (piece f n) = (1 ≤ n) × (n ≤ k)
Fits k (bad e) = e ≢ out_of_fuel

starts2-length : (a b : ℕ) (s : Bytes) → starts2 a b s ≡ true → 2 ≤ length s
unfolding starts2
starts2-length a b [] h = cc
starts2-length a b (c ∷ []) h = cc
starts2-length a b (c ∷ e ∷ s) h = omega arith

and-right : (a b : Bool) → (a && b) ≡ true → b ≡ true
and-right true b h = h
and-right false b h = cc

-- A piece of `m` bytes in front of a scanned length.
Fits-ends_with :
    (k m : ℕ) (o : Option ℕ) (found : ℕ → Piece) (e : Error)
    → ((n : ℕ) → n ≤ m → Fits k (found n))
    → e ≢ out_of_fuel
    → Within m o
    → Fits k (ends_with_piece o found e)
unfolding Fits
Fits-ends_with k m none found e h h' w = h'
Fits-ends_with k m (some n) found e h h' w = h n w

token_piece-Fits : (d : Dialect) (c : ℕ) (cs : Bytes) → Fits (suc (length cs)) (token_piece d c cs)
unfolding token_piece
token_piece-Fits d c cs =
    let k = suc (length cs) in
    let n = string_body (backslash_escapes d) cs in
    let close = if c == b'[' then b']' else c in
    let string : Fits k (string_piece d c cs) =
      Piece-if_any (Fits k) (ends_quoted n (c ∷ cs)) (piece literal (1 + n))
        (bad unterminated_string)
        (λ _. unfold Fits in omega (arith, string_body-le (backslash_escapes d) cs))
        (unfold Fits in λ e. cc) in
    let quoted : Fits k (
        ends_with_piece (quoted_body close cs) (λ n. piece quoted_name (1 + n))
          unterminated_identifier) =
      Fits-ends_with k (length cs) (quoted_body close cs) (λ n. piece quoted_name (1 + n))
        unterminated_identifier (λ n h. unfold Fits in omega arith) (unfold Fits in λ e. cc)
        (quoted_body-Within close cs) in
    Piece-if_any (Fits k) (c == b'\'') (string_piece d c cs) _ (λ _. string)
      (Piece-if_any (Fits k) (c == b'"' || c == b'`' || c == b'[') _ _ (λ _. quoted)
        (Piece-if_any (Fits k) (is_ident c) (piece name (1 + ident_run cs)) _
          (λ _. unfold Fits in omega (arith, ident_run-le cs))
          (Piece-if_any (Fits k) (c == b'(') (piece open_paren 1) _
            (λ _. unfold Fits in omega arith)
            (Piece-if_any (Fits k) (c == b')') (piece close_paren 1) (piece symbol 1)
              (λ _. unfold Fits in omega arith) (unfold Fits in omega arith)))))

comment_piece-Fits : (d : Dialect) (s : Bytes) → 2 ≤ length s → Fits (length s) (comment_piece d s)
comment_piece-Fits d s h =
    let marker = executable_comment_marker d s in
    Piece-if_any (Fits (length s)) (ltb 0 marker) (piece open_executable marker) _
      (λ e. unfold Fits in (ltb→lt 0 marker e, executable_comment_marker-le d s))
      (Fits-ends_with (length s) (length (drop 2 s))
        (comment_length (nests_comments d) 1 (drop 2 s)) (λ n. piece blank (2 + n))
        unterminated_comment (λ n h'. unfold Fits in omega (arith, length-drop 2 s))
        (unfold Fits in λ e. cc) (comment_length-Within (nests_comments d) 1 (drop 2 s)))

dollar_piece-Fits :
    (d : Dialect) (c : ℕ) (cs : Bytes) (o : Option (Option ℕ))
    → Closed (suc (length cs)) o
    → Fits (suc (length cs)) (dollar_piece d c cs o)
dollar_piece-Fits d c cs none h = token_piece-Fits d c cs
dollar_piece-Fits d c cs (some none) h = unfold Fits in λ e. cc
dollar_piece-Fits d c cs (some (some n)) h = unfold Fits in h

-- One turn of the loop passes between one byte and all that are left.
pub next_piece-Fits :
    (d : Dialect) (executable c : ℕ) (cs : Bytes)
    → Fits (suc (length cs)) (next_piece d executable c cs)
unfolding next_piece
next_piece-Fits d executable c cs =
    let s = c ∷ cs in
    let k = suc (length cs) in
    Piece-if_any (Fits k) (is_space c) (piece blank 1) _ (λ _. unfold Fits in omega arith)
      (Piece-if_any (Fits k) (starts2 b'-' b'-' s) (piece blank (2 + until_newline (drop 1 cs))) _
        (λ e.
          unfold Fits in
          omega
            (arith, starts2-length b'-' b'-' s e, until_newline-le (drop 1 cs), length-drop 1 cs))
        (Piece-if_any (Fits k) (c == b'#' && hash_starts_comment d)
          (piece blank (1 + until_newline cs)) _
          (λ _. unfold Fits in omega (arith, until_newline-le cs))
          (Piece-if_any (Fits k) (starts2 b'/' b'*' s) (comment_piece d s) _
            (λ e. comment_piece-Fits d s (starts2-length b'/' b'*' s e))
            (Piece-if_any (Fits k) (ltb 0 executable && starts2 b'*' b'/' s)
              (piece close_executable 2) _
              (λ e.
                unfold Fits in
                omega (
                  arith,
                  starts2-length b'*' b'/' s (and-right (ltb 0 executable) (starts2 b'*' b'/' s) e),
                ))
              (Piece-if_any (Fits k) (c == b'$') (dollar_piece d c cs (dollar_quote_length s))
                (token_piece d c cs)
                (λ _. dollar_piece-Fits d c cs _ (dollar_quote_length-Closed s))
                (token_piece-Fits d c cs))))))

prepend-ne-out_of_fuel :
    (b : Bool) (t : Token) (r : Result (List Token))
    → r ≢ err out_of_fuel
    → prepend b t r ≢ err out_of_fuel
prepend-ne-out_of_fuel true t (ok ts) h = λ e. cc
prepend-ne-out_of_fuel true t (err x) h = h
prepend-ne-out_of_fuel false t r h = h

err-injective : {e e' : Error} → (let x : Result (List Token) = err e in x) ≡ err e' → e ≡ e'
err-injective h = cc

module _ (rt : Runtime) (d : Dialect) where
  lex_loop-ne-out_of_fuel :
      (fuel : ℕ) (s : Bytes) (i depth executable : ℕ)
      → length s < fuel
      → lex_loop rt d fuel s i depth executable ≢ err out_of_fuel
  unfolding lex_loop Fits
  lex_loop-ne-out_of_fuel zero s i depth executable h = absurd (omega arith)
  lex_loop-ne-out_of_fuel (suc fuel) [] i depth executable h = ground arith
  lex_loop-ne-out_of_fuel (suc fuel) (c ∷ cs) i depth executable h =
      go (next_piece d executable c cs) refl (next_piece-Fits d executable c cs)
        (lex_loop-ne-out_of_fuel fuel)
    where
      go :
          (p : Piece)
          → next_piece d executable c cs ≡ p
          → Fits (suc (length cs)) p
          → ((s : Bytes) (i depth executable : ℕ)
              → length s < fuel
              → lex_loop rt d fuel s i depth executable ≢ err out_of_fuel)
          → lex_loop rt d (suc fuel) (c ∷ cs) i depth executable ≢ err out_of_fuel
      go (bad e) q fits later = rw (q, lex_loop) (λ eq. fits (err-injective eq))
      go (piece f n) q fits later = elim (Bool-cases (closes_nothing f depth)) [
        | inl z ↦ rw (q, lex_loop) (rw z (λ eq. cc))
        | inr z ↦
            rw (q, lex_loop)
              (rw z (
                prepend-ne-out_of_fuel (emits f) _ _
                  (later _ _ _ _ (omega (arith, length-drop n (c ∷ cs))))))
      ]

  -- `LexDialect` ends on every text: its answer is tokens, or an error of the source.
  pub lex_dialect-total : (sql : Bytes) → lex_dialect rt d sql ≢ err out_of_fuel
  unfolding lex_dialect
  lex_dialect-total sql = lex_loop-ne-out_of_fuel (suc (length sql)) sql 0 0 0 (omega arith)
