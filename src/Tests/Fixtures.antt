-- ===== src/Tests/Fixtures.antt =====
-- An analyst with a connection, and a runtime for texts of ASCII: digits are read as numbers, and nothing is mapped further.
use rowset_studio.Common.{
  ℕ, ◌+◌, ◌-◌, ◌*◌, ◌&&◌, Option, none, some, [], ◌∷◌, Bytes, codes, true, ltb, leb, bytes_eq,
  if◌then◌else◌,
}
use rowset_studio.SqlGuard.Types.{Runtime}
use rowset_studio.Access.{Identity, Connection, Access}

abbrev digits_onto : ℕ → Bytes → Option ℕ
digits_onto n [] = some n
digits_onto n (c ∷ cs) =
    let rest = digits_onto (n * 10 + (c - b'0')) cs in
    if leb b'0' c && leb c b'9' then rest else none

abbrev digits : Bytes → Option ℕ
digits [] = none
digits (c ∷ cs) = digits_onto 0 (c ∷ cs)

abbrev pub ascii_runtime : Runtime
unfolding bytes_eq
ascii_runtime = record {
  unicode_lower = λ s. s;
  unicode_upper = λ s. s;
  unicode_equal_fold = λ s t. bytes_eq s t;
  Float = ℕ;
  parse_float = digits;
  float_lt = ltb;
  float_le = leb;
}

abbrev pub analyst : Identity
analyst = record {
  user_id = codes "u";
  org_id = codes "o";
  email = codes "u@o";
  role = codes "analyst";
}

abbrev pub warehouse : Connection
warehouse = record {
  id = codes "c";
  org_id = codes "o";
  environment = codes "dev";
  read_only = true;
}

-- Rules that grant every connection to a role named analyst.
abbrev pub open_rules : Access
open_rules = record {
  role = λ user_id. some (record { id = codes "r"; name = codes "analyst"; read_only = true });
  connection = λ identity role connection_id.
      (record { node_policy = codes "primary"; default_node_role = codes "primary" }, true, true);
}
