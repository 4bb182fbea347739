-- ===== src/SqlGuard/Readings.antt =====
-- What callers read off a parsed statement, in rowset-core/sqlguard/parser.go: `DialectForEngine`,
-- `Normalize`, `ExactHash` and `SecondarySafe`. SHA-256 in hexadecimal is the parameter `digest`.
use rowset_studio.Common.{
  Bool, true, false, not, ◌&&◌, ◌||◌, List, [], ◌∷◌, map, String, Bytes, codes, is_word, any_word,
  bytes_eq, join, trim_space, if◌then◌else◌,
}
use rowset_studio.SqlGuard.Types.{
  Runtime, to_lower, Dialect, generic, postgres, mysql, mssql, select, kind_eq, Token, Info,
}
use rowset_studio.SqlGuard.Split.{next_lower}

-- `DialectForEngine`.
unfoldable pub dialect_for_engine : Runtime → Bytes → Dialect
unfolding to_lower trim_space any_word
dialect_for_engine rt engine =
    let name = to_lower rt (trim_space engine) in
    if any_word name ("postgres" ∷ "postgresql" ∷ "cockroach" ∷ "cockroachdb" ∷ [])
    then postgres
    else if any_word name ("mysql" ∷ "mariadb" ∷ [])
    then mysql
    else if any_word name ("mssql" ∷ "sqlserver" ∷ [])
    then mssql
    else generic

-- `Normalize`: the normalized text and its hash.
unfoldable pub normalize : (Bytes → Bytes) → Info → Bytes × Bytes
unfolding join
normalize digest info =
    let normalized = join (codes " ") (map (λ token. token.lower) info.tokens) in
    (normalized, digest normalized)

-- `ExactHash`.
unfoldable pub exact_hash : (Bytes → Bytes) → Bytes → Bytes
unfolding trim_space
exact_hash digest sql = digest (trim_space sql)

abbrev dangerous : List String
dangerous =
    "into" ∷ "insert" ∷ "update" ∷ "delete" ∷ "merge" ∷ "lock" ∷ "nextval" ∷ "setval"
    ∷ "pg_advisory_lock" ∷ "get_lock" ∷ "release_lock" ∷ "openrowset" ∷ "opendatasource" ∷ []

-- The loop over the tokens.
unfoldable pub safe_loop : List Token → Bool
unfolding any_word bytes_eq next_lower
safe_loop [] = true
safe_loop (t ∷ ts) =
    let rest = safe_loop ts in
    if any_word t.lower dangerous
    then false
    else if is_word t.lower "for"
        && (is_word (next_lower ts) "update" || is_word (next_lower ts) "share")
    then false
    else rest

-- `SecondarySafe`.
unfoldable pub secondary_safe : Info → Bool
unfolding safe_loop kind_eq
secondary_safe info = if not (kind_eq info.kind select) then false else safe_loop info.tokens
