-- ===== src/SqlGuard/Lexer/Extent.antt =====
-- No scanner of the lexer reaches past the end of its text.
use rowset_studio.Common.{
  ℕ, zero, suc, ◌+◌, ◌≤◌, ◌≡◌, refl, Bool, true, false, Option, none, some, [], ◌∷◌, Bytes, codes,
  has_prefix, index_of, ◌==◌, length, take, drop, length-drop, arith, Bool-cases, Option-cases, inl,
  inr,
}
use rowset_studio.SqlGuard.Types.{Dialect}
use rowset_studio.SqlGuard.Lexer.Scan.{
  until_newline, digit_run, executable_comment_marker, comment_length, passing, dollar_tag,
  dollar_quote_delimiter, dollar_quote_length, string_body, quoted_body, ident_run,
}

-- A length, where there is one, is in reach.
abbrev pub Within : ℕ → Option ℕ → Type 0
Within k none = Unit
Within k (some n) = n ≤ k

pub until_newline-le : (s : Bytes) → until_newline s ≤ length s
unfolding until_newline
until_newline-le [] = omega arith
until_newline-le (c ∷ cs) = ground (arith, until_newline-le cs)

pub ident_run-le : (s : Bytes) → ident_run s ≤ length s
unfolding ident_run
ident_run-le [] = omega arith
ident_run-le (c ∷ cs) = ground (arith, ident_run-le cs)

digit_run-le : (s : Bytes) → digit_run s ≤ length s
unfolding digit_run
digit_run-le [] = omega arith
digit_run-le (c ∷ cs) = ground (arith, digit_run-le cs)

length-has_prefix : (s p : Bytes) → has_prefix s p ≡ true → length p ≤ length s
unfolding has_prefix
length-has_prefix s [] h = omega arith
length-has_prefix [] (p ∷ ps) h = cc
length-has_prefix (c ∷ cs) (p ∷ ps) h = ground (arith, length-has_prefix cs ps)

pub executable_comment_marker-le :
    (d : Dialect) (s : Bytes) → executable_comment_marker d s ≤ length s
unfolding executable_comment_marker
executable_comment_marker-le d s =
    ground (arith, digit_run-le (drop 3 s), length-drop 3 s, length-has_prefix s (codes "/*!"))

pub comment_length-Within :
    (nests : Bool) (depth : ℕ) (s : Bytes) → Within (length s) (comment_length nests depth s)
unfolding comment_length
comment_length-Within nests zero s = omega arith
comment_length-Within nests (suc depth) [] = tt
comment_length-Within nests (suc depth) (a ∷ []) = tt
comment_length-Within nests (suc depth) (a ∷ b ∷ s) = ground (
  arith,
  comment_length-Within nests (suc (suc depth)) s,
  comment_length-Within nests depth s,
  comment_length-Within nests (suc depth) (b ∷ s),
)

pub string_body-le : (escapes : Bool) (s : Bytes) → string_body escapes s ≤ length s
unfolding string_body
string_body-le escapes [] = omega arith
string_body-le escapes (a ∷ []) = omega arith
string_body-le escapes (a ∷ b ∷ s) =
    ground (arith, string_body-le escapes s, string_body-le escapes (b ∷ s))

Within-passing : {m : ℕ} (n k : ℕ) (o : Option ℕ) → n + k ≤ m → Within k o → Within m (passing n o)
Within-passing n k none h w = tt
Within-passing n k (some x) h w = omega arith

pub quoted_body-Within : (close : ℕ) (s : Bytes) → Within (length s) (quoted_body close s)
unfolding quoted_body
quoted_body-Within close [] = tt
quoted_body-Within close (a ∷ []) = ground arith
quoted_body-Within close (a ∷ b ∷ s) = elim (Bool-cases (a == close)) [
  | inl e ↦
      rw (e, quoted_body)
        (elim (Bool-cases (b == close)) [
          | inl e' ↦
              rw (e', quoted_body)
                (Within-passing 2 (length s) _ (omega arith) (quoted_body-Within close s))
          | inr e' ↦ rw (e', quoted_body) (omega arith)
        ])
  | inr e ↦
      rw (e, quoted_body)
        (Within-passing 1 (length (b ∷ s)) _ (omega arith) (quoted_body-Within close (b ∷ s)))
]

dollar_tag-Within : (first : Bool) (s : Bytes) → Within (length s) (dollar_tag first s)
unfolding dollar_tag
dollar_tag-Within first [] = tt
dollar_tag-Within first (c ∷ cs) = ground (arith, dollar_tag-Within false cs)

-- An occurrence of `m` bytes lies within the text.
abbrev Occurs : ℕ → ℕ → Option ℕ → Type 0
Occurs m k none = Unit
Occurs m k (some n) = n + m ≤ k

index_of-Occurs : (s p : Bytes) → Occurs (length p) (length s) (index_of s p)
unfolding index_of
index_of-Occurs [] p = ground (arith, length-has_prefix [] p)
index_of-Occurs (c ∷ cs) p = ground (arith, length-has_prefix (c ∷ cs) p, index_of-Occurs cs p)

length-take-le : (n : ℕ) (s : Bytes) → n ≤ length s → length (take n s) ≡ n
length-take-le zero s h = refl
length-take-le (suc n) [] h = absurd (omega arith)
length-take-le (suc n) (c ∷ cs) h = omega (arith, length-take-le n cs)

dollar_tag-pos : (first : Bool) (s : Bytes) {n : ℕ} → dollar_tag first s ≡ some n → 1 ≤ n
unfolding dollar_tag
dollar_tag-pos first [] h = cc
dollar_tag-pos first (c ∷ cs) h = ground arith

dollar_quote_delimiter-Within : (s : Bytes) → Within (length s) (dollar_quote_delimiter s)
unfolding dollar_quote_delimiter
dollar_quote_delimiter-Within [] = tt
dollar_quote_delimiter-Within (c ∷ cs) = ground (arith, dollar_tag-Within true cs)

dollar_quote_delimiter-pos : (s : Bytes) {n : ℕ} → dollar_quote_delimiter s ≡ some n → 1 ≤ n
unfolding dollar_quote_delimiter
dollar_quote_delimiter-pos [] h = cc
dollar_quote_delimiter-pos (c ∷ cs) h = ground arith

-- The bounds of a dollar-quoted string, where a delimiter stands and the quote ends.
abbrev pub Closed : ℕ → Option (Option ℕ) → Type 0
Closed k (some (some n)) = (1 ≤ n) × (n ≤ k)
Closed k _ = Unit

Closed-passing :
    (s : Bytes) (n : ℕ)
    → 1 ≤ n
    → n ≤ length s
    → Closed (length s) (some (passing (n + n) (index_of (drop n s) (take n s))))
Closed-passing s n h k =
    ground (arith, index_of-Occurs (drop n s) (take n s), length-drop n s, length-take-le n s)

pub dollar_quote_length-Closed : (s : Bytes) → Closed (length s) (dollar_quote_length s)
unfolding dollar_quote_length
dollar_quote_length-Closed s = elim (Option-cases (dollar_quote_delimiter s)) [
  | inl e ↦ rw (e, dollar_quote_length) tt
  | inr (n, e) ↦
      rw (e, dollar_quote_length)
        (Closed-passing s n (dollar_quote_delimiter-pos s e)
          (rw e at (dollar_quote_delimiter-Within s)))
]
