-- ===== src/SqlGuard/Split/Semicolons.antt =====
-- Without routines a text is cut at each semicolon of its top level, and nowhere else.
use rowset_studio.Common.{
  ℕ, ◌≡◌, refl, ap, Bool, true, false, not, ◌&&◌, List, [], ◌∷◌, Bytes, arith, is_word, ◌==◌,
  if◌then◌else◌, and-parts, not-true, slice, drop, trim_space, all,
}
use rowset_studio.SqlGuard.Lexer.{lex_dialect}
use rowset_studio.SqlGuard.Split.{
  routine_definition, ends_statement, add_part, split_loop, split_statements,
}
use rowset_studio.SqlGuard.Types.{Runtime, Dialect, Token, ok}

-- A semicolon outside all parentheses.
abbrev pub separates : Token → Bool
separates t = is_word t.text ";" && t.depth == 0

abbrev pub separators : List Token → List Token
separators [] = []
separators (t ∷ ts) = if separates t then t ∷ separators ts else separators ts

-- The texts between the separators, trimmed, the empty ones left out.
abbrev pub cut_at : Bytes → ℕ → List Token → List Bytes
cut_at sql start [] = add_part (trim_space (drop start sql)) []
cut_at sql start (t ∷ ts) = add_part (trim_space (slice sql start t.start)) (cut_at sql t.end ts)

-- No token is the word CREATE, which alone begins a routine.
abbrev pub creates_nothing : List Token → Bool
creates_nothing ts = all (λ t. not (is_word t.lower "create")) ts

no_routine :
    (first : Bool) (t : Token) (ts : List Token)
    → is_word t.lower "create" ≡ false
    → (if first then routine_definition (t ∷ ts) else false) ≡ false
unfolding routine_definition
no_routine true t ts h = rw h
no_routine false t ts h = refl

ends_statement-separates : (depth : ℕ) (t : Token) → ends_statement false depth t ≡ separates t
unfolding ends_statement
ends_statement-separates depth t = ground arith

split_loop-cut_at :
    (sql : Bytes) (ts : List Token) (depth : ℕ) (first : Bool) (start : ℕ)
    → creates_nothing ts ≡ true
    → split_loop sql ts false depth first start ≡ cut_at sql start (separators ts)
unfolding split_loop
split_loop-cut_at sql [] depth first start h = refl
split_loop-cut_at sql (t ∷ ts) depth first start h =
    let (other, rest) = and-parts (not (is_word t.lower "create")) (creates_nothing ts) h in
    ground (
      arith,
      no_routine first t ts (not-true _ other),
      ends_statement-separates depth t,
      split_loop-cut_at sql ts 0 true t.end rest,
      split_loop-cut_at sql ts depth false start rest,
    )

-- A text with no CREATE splits at the semicolons of its top level: those in strings, quoted names,
-- comments and parentheses separate nothing.
pub split_statements-cut_at :
    (rt : Runtime) (d : Dialect) (sql : Bytes) {ts : List Token}
    → lex_dialect rt d sql ≡ ok ts
    → creates_nothing ts ≡ true
    → split_statements rt d sql ≡ ok (cut_at sql 0 (separators ts))
unfolding split_statements
split_statements-cut_at rt d sql {ts} h c = rw h (ap ok (split_loop-cut_at sql ts 0 true 0 c))
