-- ===== src/SqlGuard/Types.antt =====
-- The data types of rowset-core/sqlguard/parser.go, and the parts of Go's library that rest on
-- tables or on floating point, as the parameter `Runtime`.
use rowset_studio.Common.{
  ℕ, ◌≡◌, ◌↔◌, Bool, true, false, not, ◌&&◌, ◌||◌, Option, List, [], ◌∷◌, String, Bytes, is_word,
  any_word, lower_byte, upper_byte, is_ascii, bytes_eq, if◌then◌else◌, ◌==◌, map, arith,
}

-- What the source uses of Go's standard library and this model does not write out: the mapping of
-- text that is not ASCII (`strings.ToLower`, `strings.ToUpper`, `strings.EqualFold`) and
-- `strconv.ParseFloat` with the order of its results.
pub record Runtime : Type 1 where
  pub unicode_lower : Bytes → Bytes
  pub unicode_upper : Bytes → Bytes
  pub unicode_equal_fold : Bytes → Bytes → Bool
  pub Float : Type 0
  pub parse_float : Bytes → Option Float
  pub float_lt : Float → Float → Bool
  pub float_le : Float → Float → Bool

module _ (rt : Runtime) where
  -- strings.ToLower, with its branch for ASCII text.
  unfoldable pub to_lower : Bytes → Bytes
  unfolding is_ascii
  to_lower s = if is_ascii s then map lower_byte s else rt.unicode_lower s

  unfoldable pub to_upper : Bytes → Bytes
  unfolding is_ascii
  to_upper s = if is_ascii s then map upper_byte s else rt.unicode_upper s

  unfoldable pub equal_fold : Bytes → Bytes → Bool
  unfolding is_ascii bytes_eq
  equal_fold s t =
      if is_ascii s && is_ascii t
      then bytes_eq (map lower_byte s) (map lower_byte t)
      else rt.unicode_equal_fold s t

-- A dialect is a string in the source: the four that are known, and any other.
pub data Dialect : Type 0 where
  generic postgres mysql mssql : Dialect
  unsupported : Bytes → Dialect

unfoldable pub valid : Dialect → Bool
valid (unsupported _) = false
valid _ = true

-- `unset` is the empty string, a Kind that no statement has set.
pub data Kind : Type 0 where
  unset select insert update delete ddl session other unknown multi : Kind

abbrev kind_code : Kind → ℕ
kind_code unset = 0
kind_code select = 1
kind_code insert = 2
kind_code update = 3
kind_code delete = 4
kind_code ddl = 5
kind_code session = 6
kind_code other = 7
kind_code unknown = 8
kind_code multi = 9

-- `==` on kinds.
unfoldable pub kind_eq : Kind → Kind → Bool
kind_eq a b = kind_code a == kind_code b

pub kind_eq_iff : (a b : Kind) → (kind_eq a b ≡ true) ↔ (a ≡ b)
unfolding kind_eq
kind_eq_iff unset b = ground arith
kind_eq_iff _ b = ground arith

pub record TableRef : Type 0 where
  pub schema : Bytes
  pub name : Bytes
  pub alias : Bytes

pub record Token : Type 0 where
  pub text : Bytes
  pub lower : Bytes
  pub start : ℕ
  pub end : ℕ
  pub depth : ℕ
  pub identifier : Bool
  pub quoted : Bool

-- `Token.keyword`.
unfoldable pub keyword : Token → String → Bool
unfolding bytes_eq
keyword t word = not t.quoted && is_word t.lower word

abbrev reserved_words : List String
reserved_words =
    "from" ∷ "into" ∷ "outfile" ∷ "dumpfile" ∷ "where" ∷ "join" ∷ "left" ∷ "right" ∷ "full"
    ∷ "inner" ∷ "outer" ∷ "cross" ∷ "on" ∷ "group" ∷ "order" ∷ "limit" ∷ "offset" ∷ "fetch"
    ∷ "returning" ∷ "union" ∷ "intersect" ∷ "except" ∷ "set" ∷ "values" ∷ "using" ∷ "with" ∷ "use"
    ∷ "force" ∷ "ignore" ∷ "window" ∷ "qualify" ∷ "for" ∷ "having" ∷ []

-- The map `reserved`.
unfoldable pub reserved : Bytes → Bool
unfolding any_word
reserved word = any_word word reserved_words

-- `Token.reservedWord`.
unfoldable pub reserved_word : Token → Bool
unfolding reserved
reserved_word t = not t.quoted && reserved t.lower

pub record Info : Type 0 where
  pub dialect : Dialect
  pub kind : Kind
  pub command : Kind
  pub tables : List TableRef
  pub has_where : Bool
  pub is_drop : Bool
  pub is_truncate : Bool
  pub touches_session : Bool
  pub controls_transaction : Bool
  pub switches_database : Bool
  pub is_script : Bool
  pub unscoped : List Kind
  pub raw : Bytes
  pub tokens : List Token

-- `Info{Dialect: dialect, Kind: kind, Raw: raw}`, all other fields at their zero values.
abbrev pub bare_info : Dialect → Kind → Bytes → Info
bare_info dialect kind raw = record {
  dialect = dialect;
  kind = kind;
  command = unset;
  tables = [];
  has_where = false;
  is_drop = false;
  is_truncate = false;
  touches_session = false;
  controls_transaction = false;
  switches_database = false;
  is_script = false;
  unscoped = [];
  raw = raw;
  tokens = [];
}

unfoldable pub contains_kind : Kind → List Kind → Bool
contains_kind kind [] = false
contains_kind kind (k ∷ ks) = kind_eq k kind || contains_kind kind ks

-- `Info.LacksWhere`.
unfoldable pub lacks_where : Info → Kind → Bool
lacks_where i kind =
    if kind_eq i.kind kind && not i.has_where then true else contains_kind kind i.unscoped

-- `IsWrite`.
unfoldable pub is_write : Kind → Bool
is_write kind =
    kind_eq kind insert || kind_eq kind update || kind_eq kind delete || kind_eq kind ddl

-- The errors of the package, by their messages.
pub data Error : Type 0 where
  unterminated_comment unterminated_dollar_quote unterminated_string : Error
  unterminated_identifier unbalanced_parenthesis : Error
  unsupported_dialect empty_sql unclassifiable : Error
  one_cql_statement missing_apply_batch no_batch_statements unsupported_in_batch : Error
  -- Not an error of the source: the fuel of the lexer ran out.
  out_of_fuel : Error

-- A value, or the error that the source returns in its place.
pub data Result {ℓ} (A : Type ℓ) : Type ℓ where
  err : Error → Result A
  ok : A → Result A

-- `if err != nil { return …, err }`, and then the rest.
module _ {ℓ κ} {A : Type ℓ} {B : Type κ} where
  infixl 5 ◌>>=◌
  abbrev pub ◌>>=◌ : Result A → (A → Result B) → Result B
  err failure >>= rest = err failure
  ok value >>= rest = rest value
