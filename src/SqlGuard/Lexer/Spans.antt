-- ===== src/SqlGuard/Lexer/Spans.antt =====
-- Where the tokens stand: the offsets that the callers cut the text by.
use rowset_studio.Common.{
  ℕ, ◌+◌, ◌≤◌, ◌<◌, ◌≡◌, refl, sym, ◌∙◌, ap, ap₂, List, [], ◌∷◌, Bytes, length, drop, take, slice,
  arith, length-drop, drop-drop,
}
use rowset_studio.SqlGuard.Types.{Runtime, Dialect, Token, ok}
use rowset_studio.SqlGuard.Lexer.Turns.{Lexes, finish, skip, emit, lex_dialect-Lexes}
use rowset_studio.SqlGuard.Lexer.{make_token, lex_dialect}

-- From offset `i` on the tokens stand in order and apart, each is not empty, ends in the text, and
-- has for its Text what stands between its offsets.
abbrev pub Spans : Bytes → ℕ → List Token → Type 0
Spans sql i [] = Unit
Spans sql i (t ∷ ts) =
    (i ≤ t.start)
    × (t.start < t.end)
    × (t.end ≤ length sql)
    × (t.text ≡ slice sql t.start t.end)
    × Spans sql t.end ts

Spans-le : (sql : Bytes) (i j : ℕ) (ts : List Token) → i ≤ j → Spans sql j ts → Spans sql i ts
Spans-le sql i j [] h p = tt
Spans-le sql i j (t ∷ ts) h (a, b, c, e, p) = (omega arith, b, c, e, p)

-- The text at offset `i`, with that many bytes before it.
abbrev From : Bytes → ℕ → Bytes → Type 0
From sql i s = (drop i sql ≡ s) × (i + length s ≡ length sql)

From-drop :
    (sql : Bytes) (i n : ℕ) (s : Bytes) → n ≤ length s → From sql i s → From sql (i + n) (drop n s)
From-drop sql i n s h (e, l) =
    (sym (drop-drop i n (i + n) sql refl) ∙ ap (drop n) e, omega (arith, length-drop n s))

take-slice : (sql : Bytes) (i n : ℕ) (s : Bytes) → drop i sql ≡ s → take n s ≡ slice sql i (i + n)
take-slice sql i n s e = ap₂ take (omega arith) (sym e)

module _ (rt : Runtime) (d : Dialect) (sql : Bytes) where
  Lexes-Spans :
      {s : Bytes} {i depth executable : ℕ} {ts : List Token}
      → Lexes rt d s i depth executable ts
      → From sql i s
      → Spans sql i ts
  unfolding make_token
  Lexes-Spans (finish e) h = tt
  Lexes-Spans (skip {i = i} {ts = ts} f n q lo hi e r) h =
      Spans-le sql i (i + n) ts (omega arith) (Lexes-Spans r (From-drop sql i n _ hi h))
  Lexes-Spans (emit {c} {i} {depth} {executable} {cs} {t} {ts} f n q lo hi e z m r) h = rw m (
    omega arith,
    omega arith,
    omega arith,
    take-slice sql i n _ h.0,
    Lexes-Spans r (From-drop sql i n _ hi h),
  )

  -- Every token that `LexDialect` returns is a slice of the text, and the tokens are in order.
  pub lex_dialect-Spans : {ts : List Token} → lex_dialect rt d sql ≡ ok ts → Spans sql 0 ts
  lex_dialect-Spans h = Lexes-Spans (lex_dialect-Lexes rt d sql h) (refl, omega arith)
