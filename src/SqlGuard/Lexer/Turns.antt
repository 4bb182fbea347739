-- ===== src/SqlGuard/Lexer/Turns.antt =====
-- The runs of the loop of `LexDialect` that end with tokens, as a relation; the invariants of the
-- tokens are proved by induction on it.
use rowset_studio.Common.{
  ℕ, zero, suc, ◌+◌, ◌≤◌, ◌≡◌, refl, subst, Bool, true, false, List, [], ◌∷◌, Bytes, ==_iff, ◌==◌,
  length, drop, Bool-cases, inl, inr,
}
use rowset_studio.SqlGuard.Types.{Runtime, Dialect, Token, Result, ok, err}
use rowset_studio.SqlGuard.Lexer.Total.{Fits, next_piece-Fits}
use rowset_studio.SqlGuard.Lexer.{
  Found, Piece, piece, bad, next_piece, closes_nothing, emits, depth_after, executable_after,
  prepend, make_token, lex_loop, lex_dialect,
}

module _ (rt : Runtime) (d : Dialect) where
  -- From the text, the offset, and the numbers of open parentheses and executable comments the
  -- loop ends with these tokens.
  pub data Lexes : Bytes → ℕ → ℕ → ℕ → List Token → Type 0 where
    finish : {i depth executable : ℕ} → depth ≡ 0 → Lexes [] i depth executable []
    skip :
        {c i depth executable : ℕ} {cs : Bytes} {ts : List Token} (f : Found) (n : ℕ)
        → next_piece d executable c cs ≡ piece f n
        → 1 ≤ n
        → n ≤ suc (length cs)
        → emits f ≡ false
        → Lexes (drop n (c ∷ cs)) (i + n) (depth_after f depth) (executable_after f executable) ts
        → Lexes (c ∷ cs) i depth executable ts
    emit :
        {c i depth executable : ℕ} {cs : Bytes} {t : Token} {ts : List Token} (f : Found) (n : ℕ)
        → next_piece d executable c cs ≡ piece f n
        → 1 ≤ n
        → n ≤ suc (length cs)
        → emits f ≡ true
        → closes_nothing f depth ≡ false
        → t ≡ make_token rt f (c ∷ cs) i n depth
        → Lexes (drop n (c ∷ cs)) (i + n) (depth_after f depth) (executable_after f executable) ts
        → Lexes (c ∷ cs) i depth executable (t ∷ ts)

  abbrev RunsTo : Bytes → ℕ → ℕ → ℕ → Result (List Token) → Type 0
  RunsTo s i depth executable (ok ts) = Lexes s i depth executable ts
  RunsTo s i depth executable (err e) = Unit

  prepend-RunsTo :
      (c i depth executable : ℕ) (cs : Bytes) (f : Found) (n : ℕ) (b : Bool)
      (r : Result (List Token))
      → next_piece d executable c cs ≡ piece f n
      → (1 ≤ n) × (n ≤ suc (length cs))
      → emits f ≡ b
      → closes_nothing f depth ≡ false
      → RunsTo (drop n (c ∷ cs)) (i + n) (depth_after f depth) (executable_after f executable) r
      → RunsTo (c ∷ cs) i depth executable (prepend b (make_token rt f (c ∷ cs) i n depth) r)
  prepend-RunsTo c i depth executable cs f n true (ok ts) q h e z later =
      emit f n q h.0 h.1 e z refl later
  prepend-RunsTo c i depth executable cs f n true (err _) q h e z later = tt
  prepend-RunsTo c i depth executable cs f n false (ok ts) q h e z later =
      skip f n q h.0 h.1 e later
  prepend-RunsTo c i depth executable cs f n false (err _) q h e z later = tt

  lex_loop-RunsTo :
      (fuel : ℕ) (s : Bytes) (i depth executable : ℕ)
      → RunsTo s i depth executable (lex_loop rt d fuel s i depth executable)
  unfolding lex_loop Fits
  lex_loop-RunsTo zero s i depth executable = tt
  lex_loop-RunsTo (suc fuel) [] i depth executable = elim (Bool-cases (depth == 0)) [
    | inl e ↦ rw (e, lex_loop) (finish ((==_iff depth 0).0 e))
    | inr e ↦ rw (e, lex_loop) tt
  ]
  lex_loop-RunsTo (suc fuel) (c ∷ cs) i depth executable =
      go (next_piece d executable c cs) refl (next_piece-Fits d executable c cs)
        (lex_loop-RunsTo fuel)
    where
      go :
          (p : Piece)
          → next_piece d executable c cs ≡ p
          → Fits (suc (length cs)) p
          → ((s : Bytes) (i depth executable : ℕ)
              → RunsTo s i depth executable (lex_loop rt d fuel s i depth executable))
          → RunsTo
              (c ∷ cs)
              i
              depth
              executable
              (lex_loop rt d (suc fuel) (c ∷ cs) i depth executable)
      go (bad e) q fits later = rw (q, lex_loop) tt
      go (piece f n) q fits later = elim (Bool-cases (closes_nothing f depth)) [
        | inl z ↦ rw (q, lex_loop) (rw z tt)
        | inr z ↦
            rw (q, lex_loop)
              (rw z (
                prepend-RunsTo c i depth executable cs f n (emits f) _ q fits refl z
                  (later _ _ _ _)))
      ]

  -- What `LexDialect` returns, its loop has run to.
  pub lex_dialect-Lexes :
      (sql : Bytes) {ts : List Token} → lex_dialect rt d sql ≡ ok ts → Lexes sql 0 0 0 ts
  unfolding lex_dialect
  lex_dialect-Lexes sql h =
      subst (RunsTo sql 0 0 0) h (lex_loop-RunsTo (suc (length sql)) sql 0 0 0)
