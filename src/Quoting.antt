-- ===== src/Quoting.antt =====
-- How values and names are spelled in the statements that the program writes itself: `QuoteIdentifier`
-- of rowset-core/internal/engine/ddl.go, the literals of rowset-core/internal/api/csvimport.go, and
-- `qualifiedTable` of rowset-core/internal/api/rowbackup.go.
mod Scanned
pub mod Tokens
pub mod Roundtrip
use rowset_studio.Common.{
  ℕ, ◌%◌, ◌==◌, Bool, true, false, not, ◌&&◌, ◌||◌, Option, none, some, List, [], ◌∷◌, ◌++◌, String,
  Bytes, codes, is_word, any_word, has_prefix, leb, if◌then◌else◌, length, drop, all, index_of, any,
  bytes_eq,
}
use rowset_studio.SqlGuard.Types.{Runtime, to_lower, to_upper}

-- strings.ReplaceAll of one byte by two of it.
unfoldable pub double : ℕ → Bytes → Bytes
double c [] = []
double c (b ∷ bs) = if b == c then b ∷ b ∷ double c bs else b ∷ double c bs

-- The cases of the switches on an engine's name.
unfoldable pub is_mysql : Bytes → Bool
unfolding any_word
is_mysql engine = any_word engine ("mysql" ∷ "mariadb" ∷ [])

unfoldable pub is_sql_server : Bytes → Bool
unfolding any_word
is_sql_server engine = any_word engine ("mssql" ∷ "sqlserver" ∷ [])

abbrev pub enclose : ℕ → ℕ → Bytes → Bytes
enclose first close body = first ∷ (body ++ (close ∷ []))

abbrev binary_types : List String
binary_types =
    "BINARY" ∷ "BYTEA" ∷ "BLOB" ∷ "IMAGE" ∷ "GEOMETRY" ∷ "GEOGRAPHY" ∷ "HIERARCHYID" ∷ "POINT"
    ∷ "POLYGON" ∷ "LINESTRING" ∷ "MULTIPOINT" ∷ "COLLECTION" ∷ []

-- strings.Contains.
unfoldable contains : Bytes → Bytes → Bool
unfolding index_of
contains s p = elim (index_of s p) [ none ↦ false | some _ ↦ true ]

abbrev hex_digit : ℕ → Bool
hex_digit c = (leb b'0' c && leb c b'9') || (leb b'a' c && leb c b'f') || (leb b'A' c && leb c b'F')

-- `hexText`; hex.DecodeString fails on an odd length and on a byte that is no digit.
unfoldable pub hex_text : Bytes → Bool
unfolding has_prefix
hex_text value =
    if not (has_prefix value (codes "\\x")) || not (length value % 2 == 0)
    then false
    else all hex_digit (drop 2 value)

-- `importDelimiter`: `none` is its error.
unfoldable pub import_delimiter : Bytes → Option ℕ
unfolding bytes_eq
import_delimiter [] = some b','
import_delimiter (c ∷ []) =
    if c == b',' || c == b';' || c == b'\t' || c == b'|' then some c else none
import_delimiter value = if is_word value "\\t" then some b'\t' else none

-- A string's body: the backslashes of MySQL doubled, then the quotes.
unfoldable pub escaped : Bool → Bytes → Bytes
unfolding double
escaped backslashes value = double b'\'' (if backslashes then double b'\\' value else value)

module _ (rt : Runtime) where
  -- `QuoteIdentifier`.
  unfoldable pub quote_identifier : Bytes → Bytes → Bytes
  unfolding to_lower is_mysql is_sql_server double
  quote_identifier engine name =
      let engine_name = to_lower rt engine in
      if is_mysql engine_name
      then enclose b'`' b'`' (double b'`' name)
      else if is_sql_server engine_name
      then enclose b'[' b']' (double b']' name)
      else enclose b'"' b'"' (double b'"' name)

  -- `qualifiedTable`.
  unfoldable pub qualified_table : Bytes → Bytes → Bytes → Bytes
  unfolding quote_identifier
  qualified_table engine [] table = quote_identifier engine table
  qualified_table engine (s ∷ schema) table =
      quote_identifier engine (s ∷ schema) ++ (b'.' ∷ quote_identifier engine table)

  -- `importLiteral`.
  unfoldable pub import_literal : Bytes → Bytes → Bytes
  unfolding to_lower is_mysql is_sql_server double
  import_literal engine value =
      let engine_name = to_lower rt engine in
      let quoted = enclose b'\'' b'\'' (escaped (is_mysql engine_name) value) in
      if is_sql_server engine_name then b'N' ∷ quoted else quoted

  -- `hexLiteral`.
  unfoldable pub hex_literal : Bytes → Bytes → Bytes
  unfolding to_lower any_word is_sql_server
  hex_literal engine digits =
      let engine_name = to_lower rt engine in
      if any_word engine_name ("mysql" ∷ "mariadb" ∷ "sqlite" ∷ [])
      then b'X' ∷ enclose b'\'' b'\'' digits
      else if is_sql_server engine_name
      then b'0' ∷ b'x' ∷ digits
      else if is_word engine_name "duckdb"
      then codes "unhex('" ++ (digits ++ codes "')")
      else enclose b'\'' b'\'' (b'\\' ∷ b'x' ∷ digits)

  -- `importBinaryType`.
  unfoldable pub import_binary_type : Bytes → Bool
  unfolding to_upper bytes_eq contains
  import_binary_type data_type =
      let upper = to_upper rt data_type in
      if is_word upper "BIT" then true else any (λ name. contains upper (codes name)) binary_types
