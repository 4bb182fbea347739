-- ===== src/Quoting/Scanned.antt =====
-- The lexer of statements reads back exactly the names and the values that the program has quoted.
use rowset_studio.Common.{
  ℕ, suc, ◌+◌, ◌≡◌, refl, subst, ap, ◌∙◌, Bool, true, false, ◌&&◌, ◌||◌, some, [], ◌∷◌, ◌++◌, Bytes,
  ◌==◌, if◌then◌else◌, length, take, drop, get_elem?, arith,
}
use rowset_studio.SqlGuard.Types.{Dialect}
use rowset_studio.SqlGuard.Lexer.Scan.{
  passing, string_body, quoted_body, ends_quoted, starts2, backslash_escapes, is_space,
}
use rowset_studio.SqlGuard.Lexer.{piece, literal, quoted_name, next_piece, token_piece}
use rowset_studio.Quoting.{double, enclose, escaped}

abbrev pub starts_with : ℕ → Bytes → Bool
starts_with c [] = false
starts_with c (b ∷ bs) = b == c

string_body-plain :
    (escapes : Bool) (a : ℕ) (s : Bytes)
    → (a == b'\\' && escapes) ≡ false
    → (a == b'\'') ≡ false
    → string_body escapes (a ∷ s) ≡ 1 + string_body escapes s
unfolding string_body
string_body-plain escapes a [] h q = refl
string_body-plain escapes a (b ∷ s) h q = ground arith

-- The scan ends with the quote behind the value.
string_body-end :
    (escapes : Bool) (rest : Bytes)
    → starts_with b'\'' rest ≡ false
    → string_body escapes (b'\'' ∷ rest) ≡ 1
unfolding string_body
string_body-end escapes [] h = refl
string_body-end escapes (b ∷ s) h = ground arith

string_body-double :
    (value rest : Bytes)
    → starts_with b'\'' rest ≡ false
    → string_body false (double b'\'' value ++ (b'\'' ∷ rest)) ≡ length (double b'\'' value) + 1
unfolding string_body double
string_body-double [] rest h = string_body-end false rest h
string_body-double (a ∷ value) rest h = ground (
  arith,
  string_body-double value rest h,
  string_body-plain false a (double b'\'' value ++ (b'\'' ∷ rest)),
)

string_body-double_backslash :
    (value rest : Bytes)
    → starts_with b'\'' rest ≡ false
    → string_body true (double b'\'' (double b'\\' value) ++ (b'\'' ∷ rest))
      ≡ length (double b'\'' (double b'\\' value)) + 1
unfolding string_body double
string_body-double_backslash [] rest h = string_body-end true rest h
string_body-double_backslash (a ∷ value) rest h = ground (
  arith,
  string_body-double_backslash value rest h,
  string_body-plain true a (double b'\'' (double b'\\' value) ++ (b'\'' ∷ rest)),
)

string_body-escaped :
    (escapes : Bool) (value rest : Bytes)
    → starts_with b'\'' rest ≡ false
    → string_body escapes (escaped escapes value ++ (b'\'' ∷ rest))
      ≡ length (escaped escapes value) + 1
unfolding escaped
string_body-escaped true value rest h = string_body-double_backslash value rest h
string_body-escaped false value rest h = string_body-double value rest h

quoted_body-plain :
    (close a : ℕ) (s : Bytes)
    → (a == close) ≡ false
    → quoted_body close (a ∷ s) ≡ passing 1 (quoted_body close s)
unfolding quoted_body
quoted_body-plain close a [] h = ground arith
quoted_body-plain close a (b ∷ s) h = ground arith

quoted_body-end :
    (close : ℕ) (rest : Bytes)
    → starts_with close rest ≡ false
    → quoted_body close (close ∷ rest) ≡ some 1
unfolding quoted_body
quoted_body-end close [] h = ground arith
quoted_body-end close (b ∷ s) h = ground arith

quoted_body-double :
    (close : ℕ) (label rest : Bytes)
    → starts_with close rest ≡ false
    → quoted_body close (double close label ++ (close ∷ rest))
      ≡ some (length (double close label) + 1)
unfolding quoted_body double
quoted_body-double close [] rest h = quoted_body-end close rest h
quoted_body-double close (a ∷ label) rest h = ground (
  arith,
  quoted_body-double close label rest h,
  quoted_body-plain close a (double close label ++ (close ∷ rest)),
)

get_elem?-append :
    (s : Bytes) (c : ℕ) (rest : Bytes) → get_elem? (s ++ (c ∷ rest)) (length s) ≡ some c
get_elem?-append [] c rest = refl
get_elem?-append (a ∷ s) c rest = get_elem?-append s c rest

pub take-append : (s rest : Bytes) → take (length s) (s ++ rest) ≡ take (length s) s
take-append [] rest = refl
take-append (a ∷ s) rest = ap (λ t. a ∷ t) (take-append s rest)

pub drop-append : (s rest : Bytes) → drop (length s) (s ++ rest) ≡ rest
drop-append [] rest = refl
drop-append (a ∷ s) rest = drop-append s rest

pub append-append : (s t r : Bytes) → (s ++ t) ++ r ≡ s ++ (t ++ r)
append-append [] t r = refl
append-append (a ∷ s) t r = ap (λ u. a ∷ u) (append-append s t r)

enclose-append :
    (first close : ℕ) (body rest : Bytes)
    → enclose first close body ++ rest ≡ first ∷ (body ++ (close ∷ rest))
enclose-append first close body rest = ap (λ s. first ∷ s) (append-append body (close ∷ []) rest)

starts2-other : (a b c : ℕ) (s : Bytes) → (c == a) ≡ false → starts2 a b (c ∷ s) ≡ false
unfolding starts2
starts2-other a b c [] h = refl
starts2-other a b c (e ∷ s) h = ground arith

-- No test in front of those of `token_piece` holds of this byte.
unfoldable pub Plain : ℕ → Type 0
unfolding is_space
Plain c =
    (is_space c ≡ false)
    × ((c == b'-') ≡ false)
    × ((c == b'#') ≡ false)
    × ((c == b'/') ≡ false)
    × ((c == b'*') ≡ false)
    × ((c == b'$') ≡ false)

pub next_piece-token :
    (d : Dialect) (executable c : ℕ) (cs : Bytes)
    → Plain c
    → next_piece d executable c cs ≡ token_piece d c cs
unfolding next_piece Plain
next_piece-token d executable c cs (space, dash, hash, slash, star, dollar) =
    rw
      (
        space,
        starts2-other b'-' b'-' c cs dash,
        hash,
        starts2-other b'/' b'*' c cs slash,
        starts2-other b'*' b'/' c cs star,
        dollar,
      )
      ground arith

ends_quoted-string :
    (c : ℕ) (s rest : Bytes) → ends_quoted (length s + 1) (c ∷ (s ++ (b'\'' ∷ rest))) ≡ true
unfolding ends_quoted
ends_quoted-string c s rest =
    subst (λ n. ends_quoted n (c ∷ (s ++ (b'\'' ∷ rest))) ≡ true)
      (let e : suc (length s) ≡ length s + 1 = omega arith in e)
      (rw (ends_quoted, get_elem?-append s b'\'' rest) refl)

pub next_piece-string :
    (d : Dialect) (executable : ℕ) (value rest : Bytes)
    → starts_with b'\'' rest ≡ false
    → next_piece d executable b'\'' (escaped (backslash_escapes d) value ++ (b'\'' ∷ rest))
      ≡ piece literal (length (escaped (backslash_escapes d) value) + 2)
unfolding token_piece is_space Plain
next_piece-string d executable value rest h =
    let body = escaped (backslash_escapes d) value in
    (rw
      (
        next_piece-token d executable b'\'' (body ++ (b'\'' ∷ rest))
            (refl, refl, refl, refl, refl, refl),
        token_piece,
        string_body-escaped (backslash_escapes d) value rest h,
        ends_quoted-string b'\'' body rest,
      )
      (ap (piece literal) (omega arith)))

token_piece-quoted :
    (d : Dialect) (first close : ℕ) (cs : Bytes) (n : ℕ)
    → (first == b'\'') ≡ false
    → (first == b'"' || first == b'`' || first == b'[') ≡ true
    → (if first == b'[' then b']' else first) ≡ close
    → quoted_body close cs ≡ some n
    → token_piece d first cs ≡ piece quoted_name (1 + n)
unfolding token_piece
token_piece-quoted d first close cs n s h c e = rw (s, h, c, e) refl

pub next_piece-quoted :
    (d : Dialect) (executable first close : ℕ) (label rest : Bytes)
    → next_piece d executable first (double close label ++ (close ∷ rest))
      ≡ token_piece d first (double close label ++ (close ∷ rest))
    → (first == b'\'') ≡ false
    → (first == b'"' || first == b'`' || first == b'[') ≡ true
    → (if first == b'[' then b']' else first) ≡ close
    → starts_with close rest ≡ false
    → next_piece d executable first (double close label ++ (close ∷ rest))
      ≡ piece quoted_name (length (double close label) + 2)
next_piece-quoted d executable first close label rest t s h c e =
    t
    ∙ (token_piece-quoted d first close (double close label ++ (close ∷ rest))
          (length (double close label) + 1) s h c (quoted_body-double close label rest e)
        ∙ ap (piece quoted_name) (omega arith))
