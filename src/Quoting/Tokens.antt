-- ===== src/Quoting/Tokens.antt =====
-- What the lexer of statements makes of a name or a value that the program has quoted: the one token
-- that was meant, whatever bytes the name or the value has.
use rowset_studio.Common.{
  ℕ, suc, ◌+◌, ◌≡◌, refl, subst, ap, ap₂, ◌∙◌, Bool, true, false, ◌||◌, List, [], ◌∷◌, ◌++◌, Bytes,
  codes, ◌==◌, if◌then◌else◌, length, take, drop, length-append, arith,
}
use rowset_studio.SqlGuard.Types.{Runtime, to_lower, Dialect, Token, Result}
use rowset_studio.SqlGuard.Lexer.Scan.{ident_run, is_ident, backslash_escapes, is_space}
use rowset_studio.SqlGuard.Lexer.{
  Found, piece, literal, quoted_name, name, next_piece, token_piece, lex_loop, make_token, prepend,
}
use rowset_studio.Quoting.Scanned.{
  starts_with, Plain, take-append, drop-append, append-append, next_piece-token, next_piece-string,
  next_piece-quoted,
}
use rowset_studio.Quoting.{
  double, enclose, escaped, is_mysql, is_sql_server, quote_identifier, import_literal,
}

-- The pieces that are one token and neither open nor close anything.
abbrev Word : Found → Type 0
Word literal = Unit
Word quoted_name = Unit
Word name = Unit
Word _ = ⊥

-- Both conditionals take the same branch.
pick :
    (P : ℕ → Bytes → Type 0) (a b : Bool) (k l m : ℕ) (x y z : Bytes)
    → P k x
    → P l y
    → P m z
    → P (if a then k else if b then l else m) (if a then x else if b then y else z)
pick P true b k l m x y z p q r = p
pick P false true k l m x y z p q r = q
pick P false false k l m x y z p q r = r

make_token-take :
    (rt : Runtime) (f : Found) (s t : Bytes) (i n depth : ℕ)
    → take n s ≡ take n t
    → make_token rt f s i n depth ≡ make_token rt f t i n depth
unfolding make_token
make_token-take rt f s t i n depth h = rw (make_token, h) refl

-- The turns of the loop that the literal takes, in front of `fuel`.
abbrev pub turns : Bool → ℕ → ℕ
turns false fuel = suc fuel
turns true fuel = suc (suc fuel)

-- A piece that is a token is put in front of the tokens of the text behind it.
module _ (rt : Runtime) (d : Dialect) where
  emitted :
      (f : Found) (fuel : ℕ) (c : ℕ) (cs rest : Bytes) (i depth executable : ℕ)
      → prepend true (make_token rt f (c ∷ (cs ++ rest)) i (suc (length cs)) depth) (
          lex_loop rt d fuel (drop (length cs) (cs ++ rest)) (i + suc (length cs)) depth executable)
        ≡ prepend true
            (make_token rt f (c ∷ cs) i (suc (length cs)) depth)
            (lex_loop rt d fuel rest (i + suc (length cs)) depth executable)
  emitted f fuel c cs rest i depth executable =
      ap₂ (λ t s. prepend true t (lex_loop rt d fuel s (i + suc (length cs)) depth executable))
        (make_token-take rt f (c ∷ (cs ++ rest)) (c ∷ cs) i (suc (length cs)) depth
          (ap (λ t. c ∷ t) (take-append cs rest)))
        (drop-append cs rest)

  lex_loop-piece :
      (f : Found) (fuel : ℕ) (c : ℕ) (cs rest : Bytes) (i depth executable : ℕ)
      → next_piece d executable c (cs ++ rest) ≡ piece f (suc (length cs))
      → Word f
      → lex_loop rt d (suc fuel) (c ∷ (cs ++ rest)) i depth executable
        ≡ prepend true
            (make_token rt f (c ∷ cs) i (suc (length cs)) depth)
            (lex_loop rt d fuel rest (i + suc (length cs)) depth executable)
  unfolding lex_loop
  lex_loop-piece literal fuel c cs rest i depth executable h w =
      rw (lex_loop, h) (emitted literal fuel c cs rest i depth executable)
  lex_loop-piece quoted_name fuel c cs rest i depth executable h w =
      rw (lex_loop, h) (emitted quoted_name fuel c cs rest i depth executable)
  lex_loop-piece name fuel c cs rest i depth executable h w =
      rw (lex_loop, h) (emitted name fuel c cs rest i depth executable)
  lex_loop-piece Found.blank fuel c cs rest i depth executable h w = absurd w
  lex_loop-piece Found.open_executable fuel c cs rest i depth executable h w = absurd w
  lex_loop-piece Found.close_executable fuel c cs rest i depth executable h w = absurd w
  lex_loop-piece Found.symbol fuel c cs rest i depth executable h w = absurd w
  lex_loop-piece Found.open_paren fuel c cs rest i depth executable h w = absurd w
  lex_loop-piece Found.close_paren fuel c cs rest i depth executable h w = absurd w

  -- The text `q` is one token, and the loop goes on behind it.
  abbrev OneToken : Found → ℕ → Bytes → Bytes → ℕ → ℕ → ℕ → Type 0
  OneToken f fuel q rest i depth executable =
      lex_loop rt d (suc fuel) (q ++ rest) i depth executable
      ≡ prepend true (make_token rt f q i (length q) depth)
          (lex_loop rt d fuel rest (i + length q) depth executable)

  lex_loop-enclose :
      (f : Found) (fuel first close : ℕ) (body rest : Bytes) (i depth executable : ℕ)
      → next_piece d executable first (body ++ (close ∷ rest)) ≡ piece f (length body + 2)
      → Word f
      → OneToken f fuel (enclose first close body) rest i depth executable
  lex_loop-enclose f fuel first close body rest i depth executable h w =
      lex_loop-piece f fuel first (body ++ (close ∷ [])) rest i depth executable
        (rw (append-append body (close ∷ []) rest, length-append body (close ∷ []))
          (h ∙ ap (piece f) (omega arith)))
        w

  lex_loop-string :
      (fuel : ℕ) (value rest : Bytes) (i depth executable : ℕ)
      → starts_with b'\'' rest ≡ false
      → OneToken literal fuel
          (enclose b'\'' b'\'' (escaped (backslash_escapes d) value))
          rest
          i
          depth
          executable
  lex_loop-string fuel value rest i depth executable h =
      lex_loop-enclose literal fuel b'\'' b'\'' (escaped (backslash_escapes d) value) rest i depth
        executable (next_piece-string d executable value rest h) tt

  lex_loop-national :
      (fuel : ℕ) (s : Bytes) (i depth executable : ℕ)
      → lex_loop rt d (suc fuel) (b'N' ∷ (b'\'' ∷ s)) i depth executable
        ≡ prepend true
            (make_token rt name (b'N' ∷ []) i 1 depth)
            (lex_loop rt d fuel (b'\'' ∷ s) (i + 1) depth executable)
  unfolding Plain is_space token_piece is_ident ident_run
  lex_loop-national fuel s i depth executable =
      lex_loop-piece name fuel b'N' [] (b'\'' ∷ s) i depth executable
        (next_piece-token d executable b'N' (b'\'' ∷ s) (refl, refl, refl, refl, refl, refl)) tt

  -- The closing byte of a quoted name.
  unfoldable pub closing : Bytes → ℕ
  unfolding to_lower is_mysql is_sql_server
  closing engine =
      if is_mysql (to_lower rt engine)
      then b'`'
      else if is_sql_server (to_lower rt engine)
      then b']'
      else b'"'

  -- A name that the program quotes is one quoted name to the lexer of every dialect, whatever bytes it
  -- has and whatever is open; the loop goes on with the text behind it, unless that begins with the
  -- closing mark.
  pub lex_loop-quote_identifier :
      (engine label rest : Bytes) (fuel i depth executable : ℕ)
      → starts_with (closing engine) rest ≡ false
      → OneToken quoted_name fuel (quote_identifier rt engine label) rest i depth executable
  unfolding closing quote_identifier is_space Plain
  lex_loop-quote_identifier engine label rest fuel i depth executable h =
      pick
        (λ close q.
          starts_with close rest ≡ false → OneToken quoted_name fuel q rest i depth executable)
        (is_mysql (to_lower rt engine)) (is_sql_server (to_lower rt engine)) b'`' b']' b'"'
        (enclose b'`' b'`' (double b'`' label)) (enclose b'[' b']' (double b']' label))
        (enclose b'"' b'"' (double b'"' label))
        (quoted b'`' b'`' (refl, refl, refl, refl, refl, refl) refl refl refl)
        (quoted b'[' b']' (refl, refl, refl, refl, refl, refl) refl refl refl)
        (quoted b'"' b'"' (refl, refl, refl, refl, refl, refl) refl refl refl) h
    where
      quoted :
          (first close : ℕ)
          → Plain first
          → (first == b'\'') ≡ false
          → (first == b'"' || first == b'`' || first == b'[') ≡ true
          → (if first == b'[' then b']' else first) ≡ close
          → starts_with close rest ≡ false
          → OneToken quoted_name fuel
              (enclose first close (double close label))
              rest
              i
              depth
              executable
      quoted first close plain s g c e =
          lex_loop-enclose quoted_name fuel first close (double close label) rest i depth executable
            (next_piece-quoted d executable first close label rest
              (next_piece-token d executable first (double close label ++ (close ∷ rest)) plain) s g
              c e)
            tt

  -- The tokens of a value's literal in front of those of the text behind it: one string, in front of
  -- which SQL Server's `N` is a name.
  abbrev pub with_literal : Bool → Bytes → ℕ → ℕ → (ℕ → Result (List Token)) → Result (List Token)
  with_literal false q i depth rest =
      prepend true (make_token rt literal q i (length q) depth) (rest (i + length q))
  with_literal true q i depth rest = prepend true (make_token rt name (codes "N") i 1 depth) (
      prepend true (make_token rt literal (drop 1 q) (i + 1) (length (drop 1 q)) depth)
        (rest (i + length q)))

  spelled : Bool → Bool → Bytes → Bytes
  unfolding escaped
  spelled national escapes value =
      let quoted = enclose b'\'' b'\'' (escaped escapes value) in
      if national then b'N' ∷ quoted else quoted

  lex_loop-spelled :
      (national : Bool) (value rest : Bytes) (fuel i depth executable : ℕ)
      → starts_with b'\'' rest ≡ false
      → (let q = spelled national (backslash_escapes d) value in
          lex_loop rt d (turns national fuel) (q ++ rest) i depth executable
          ≡ with_literal national q i depth (λ j. lex_loop rt d fuel rest j depth executable))
  unfolding spelled
  lex_loop-spelled false value rest fuel i depth executable h =
      lex_loop-string fuel value rest i depth executable h
  lex_loop-spelled true value rest fuel i depth executable h =
      let q = enclose b'\'' b'\'' (escaped (backslash_escapes d) value) in
      let string = make_token rt literal q (i + 1) (length q) depth in
      lex_loop-national (suc fuel) ((escaped (backslash_escapes d) value ++ (b'\'' ∷ [])) ++ rest) i
        depth executable
      ∙ ap (prepend true (make_token rt name (codes "N") i 1 depth)) (
          lex_loop-string fuel value rest (i + 1) depth executable h
          ∙ ap (λ j. prepend true string (lex_loop rt d fuel rest j depth executable))
              (omega arith))

  -- A value that the program writes into a statement is one string literal to the lexer of a dialect
  -- with the engine's reading of backslashes, whatever bytes it has and whatever is open; the loop
  -- goes on with the text behind it, unless that begins with a quote.
  pub lex_loop-import_literal :
      (engine value rest : Bytes) (fuel i depth executable : ℕ)
      → backslash_escapes d ≡ is_mysql (to_lower rt engine)
      → starts_with b'\'' rest ≡ false
      → lex_loop rt d
          (turns (is_sql_server (to_lower rt engine)) fuel)
          (import_literal rt engine value ++ rest)
          i
          depth
          executable
        ≡ with_literal
            (is_sql_server (to_lower rt engine))
            (import_literal rt engine value)
            i
            depth
            (λ j. lex_loop rt d fuel rest j depth executable)
  unfolding import_literal spelled
  lex_loop-import_literal engine value rest fuel i depth executable e h =
      subst
        (λ b.
          (let q = spelled (is_sql_server (to_lower rt engine)) b value in
            lex_loop rt d (turns (is_sql_server (to_lower rt engine)) fuel) (q ++ rest) i depth
              executable
            ≡ with_literal (is_sql_server (to_lower rt engine)) q i depth
                (λ j. lex_loop rt d fuel rest j depth executable)))
        e
        (lex_loop-spelled (is_sql_server (to_lower rt engine)) value rest fuel i depth executable h)
