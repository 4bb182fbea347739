-- ===== src/Quoting/Roundtrip.antt =====
-- What a database reads in a quoted name or value: the documented reading of string literals and of
-- quoted names, as an independent description, and that it gives back what the program wrote.
use rowset_studio.Common.{
  ℕ, ◌≡◌, refl, sym, subst, Bool-cases, inl, inr, ==_iff, Bool, true, false, ◌&&◌, Option, none,
  some, [], ◌∷◌, ◌++◌, Bytes, ◌==◌, if◌then◌else◌, arith,
}
use rowset_studio.SqlGuard.Types.{Runtime, to_lower}
use rowset_studio.Quoting.{
  double, escaped, is_mysql, is_sql_server, quote_identifier, import_literal,
}

abbrev after : ℕ → Option Bytes → Option Bytes
after c none = none
after c (some s) = some (c ∷ s)

-- A string's text behind its opening quote: two quotes are one, and one ends it, with nothing behind
-- it. `escape` gives the byte that a backslash and another byte stand for, where backslashes escape.
unfoldable pub read_string : (ℕ → ℕ) → Bool → Bytes → Option Bytes
read_string escape escapes [] = none
read_string escape escapes (a ∷ []) = if a == b'\'' then some [] else none
read_string escape escapes (a ∷ b ∷ s) = elim (a == b'\\' && escapes) [
  | true ↦ after (escape b) (read_string escape escapes s)
  | false ↦ elim (a == b'\'') [
    | true ↦ elim (b == b'\'') [ true ↦ after b'\'' (read_string escape escapes s) | false ↦ none ]
    | false ↦ after a (read_string escape escapes (b ∷ s))
  ]
]

-- A name's text behind its opening byte, in the same way.
unfoldable pub read_name : ℕ → Bytes → Option Bytes
read_name close [] = none
read_name close (a ∷ []) = if a == close then some [] else none
read_name close (a ∷ b ∷ s) = elim (a == close) [
  | true ↦ elim (b == close) [ true ↦ after close (read_name close s) | false ↦ none ]
  | false ↦ after a (read_name close (b ∷ s))
]

-- A value's literal, with the prefix of SQL Server's national strings.
unfoldable pub read_literal : (ℕ → ℕ) → Bool → Bool → Bytes → Option Bytes
unfolding read_string
read_literal escape escapes false (q ∷ s) =
    if q == b'\'' then read_string escape escapes s else none
read_literal escape escapes true (n ∷ q ∷ s) =
    if n == b'N' && q == b'\'' then read_string escape escapes s else none
read_literal escape escapes _ _ = none

unfoldable pub read_identifier : ℕ → ℕ → Bytes → Option Bytes
unfolding read_name
read_identifier first close [] = none
read_identifier first close (a ∷ s) = if a == first then read_name close s else none

read_string-plain :
    (escape : ℕ → ℕ) (escapes : Bool) (a : ℕ) (s : Bytes)
    → (a == b'\\' && escapes) ≡ false
    → (a == b'\'') ≡ false
    → read_string escape escapes (a ∷ s) ≡ after a (read_string escape escapes s)
unfolding read_string
read_string-plain escape escapes a [] h q = ground arith
read_string-plain escape escapes a (b ∷ s) h q = ground arith

read_string-double :
    (escape : ℕ → ℕ) (value : Bytes)
    → read_string escape false (double b'\'' value ++ (b'\'' ∷ [])) ≡ some value
unfolding read_string double
read_string-double escape [] = refl
read_string-double escape (a ∷ value) = ground (
  arith,
  read_string-double escape value,
  read_string-plain escape false a (double b'\'' value ++ (b'\'' ∷ [])),
)

read_string-double_backslash :
    (escape : ℕ → ℕ) (value : Bytes)
    → escape b'\\' ≡ b'\\'
    → read_string escape true (double b'\'' (double b'\\' value) ++ (b'\'' ∷ [])) ≡ some value
unfolding read_string double
read_string-double_backslash escape [] e = refl
read_string-double_backslash escape (a ∷ value) e = elim (Bool-cases (a == b'\\')) [
  | inl h ↦
      subst
        (λ c.
          read_string escape true (double b'\'' (double b'\\' (c ∷ value)) ++ (b'\'' ∷ []))
          ≡ some (c ∷ value))
        (sym ((==_iff a b'\\').0 h)) (rw (e, read_string-double_backslash escape value e) refl)
  | inr h ↦ rw (h) (
      ground (
        arith,
        read_string-double_backslash escape value e,
        read_string-plain escape true a (double b'\'' (double b'\\' value) ++ (b'\'' ∷ [])),
      ))
]

read_string-escaped :
    (escape : ℕ → ℕ) (escapes : Bool) (value : Bytes)
    → escape b'\\' ≡ b'\\'
    → read_string escape escapes (escaped escapes value ++ (b'\'' ∷ [])) ≡ some value
unfolding escaped
read_string-escaped escape true value e = read_string-double_backslash escape value e
read_string-escaped escape false value e = read_string-double escape value

read_name-plain :
    (close a : ℕ) (s : Bytes)
    → (a == close) ≡ false
    → read_name close (a ∷ s) ≡ after a (read_name close s)
unfolding read_name
read_name-plain close a [] h = ground arith
read_name-plain close a (b ∷ s) h = ground arith

read_name-double :
    (close : ℕ) (label : Bytes) → read_name close (double close label ++ (close ∷ [])) ≡ some label
unfolding read_name double
read_name-double close [] = ground arith
read_name-double close (a ∷ label) = ground (
  arith,
  read_name-double close label,
  read_name-plain close a (double close label ++ (close ∷ [])),
)

module _ (rt : Runtime) where
  -- A value that the program writes into a statement is read back as it was by a database that reads
  -- literals as documented: two quotes as one, and, for the engines MySQL and MariaDB only, a
  -- backslash with the byte behind it as `escape` of that byte, which maps a backslash to itself.
  pub read_literal-import_literal :
      (escape : ℕ → ℕ) (engine value : Bytes)
      → escape b'\\' ≡ b'\\'
      → read_literal escape
          (is_mysql (to_lower rt engine))
          (is_sql_server (to_lower rt engine))
          (import_literal rt engine value)
        ≡ some value
  unfolding read_literal import_literal
  read_literal-import_literal escape engine value e =
      go (is_sql_server (to_lower rt engine)) (is_mysql (to_lower rt engine))
    where
      go :
          (national escapes : Bool)
          → (let quoted = b'\'' ∷ (escaped escapes value ++ (b'\'' ∷ [])) in
              read_literal escape escapes national (if national then b'N' ∷ quoted else quoted)
              ≡ some value)
      go true escapes = read_string-escaped escape escapes value e
      go false escapes = read_string-escaped escape escapes value e

  -- The bytes around a quoted name.
  abbrev pub opening_mark : Bytes → ℕ
  opening_mark engine_name =
      if is_mysql engine_name then b'`' else if is_sql_server engine_name then b'[' else b'"'

  abbrev pub closing_mark : Bytes → ℕ
  closing_mark engine_name =
      if is_mysql engine_name then b'`' else if is_sql_server engine_name then b']' else b'"'

  -- A name that the program quotes is read back as it was between the quoting marks of the engine,
  -- where the closing mark twice stands for it once.
  pub read_identifier-quote_identifier :
      (engine label : Bytes)
      → read_identifier
          (opening_mark (to_lower rt engine))
          (closing_mark (to_lower rt engine))
          (quote_identifier rt engine label)
        ≡ some label
  unfolding read_identifier quote_identifier
  read_identifier-quote_identifier engine label =
      go (is_mysql (to_lower rt engine)) (is_sql_server (to_lower rt engine))
    where
      go :
          (a b : Bool)
          → read_identifier
              (if a then b'`' else if b then b'[' else b'"')
              (if a then b'`' else if b then b']' else b'"')
              (if a
                then b'`' ∷ (double b'`' label ++ (b'`' ∷ []))
                else if b
                then b'[' ∷ (double b']' label ++ (b']' ∷ []))
                else b'"' ∷ (double b'"' label ++ (b'"' ∷ [])))
            ≡ some label
      go true b = read_name-double b'`' label
      go false true = read_name-double b']' label
      go false false = read_name-double b'"' label
