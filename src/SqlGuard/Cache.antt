-- ===== src/SqlGuard/Cache.antt =====
-- The parse cache of rowset-core/sqlguard/parser.go: `parseCacheIndex`, `cacheParsed` and
-- `ParseDialect`. The map of a shard is an association list; the locks make each look-up and each
-- insertion one step.
pub mod Coherence
use rowset_studio.Common.{
  ℕ, zero, suc, ◌+◌, ◌*◌, ◌%◌, ◌^◌, Bool, true, false, not, ◌&&◌, Option, none, some, List, [], ◌∷◌,
  ◌++◌, Bytes, codes, bytes_eq, ltb, leb, ◌==◌, if◌then◌else◌, length, get_elem?,
}
use Prim.Native.Nat.{bit_xor}
use rowset_studio.SqlGuard.Script.{parse_text}
use rowset_studio.SqlGuard.Types.{
  Runtime, Dialect, generic, postgres, mysql, mssql, unsupported, valid, unknown, Info, bare_info,
  Error, unsupported_dialect,
}

abbrev pub parse_cache_shards : ℕ
parse_cache_shards = 16

abbrev pub parse_cache_shard_limit : ℕ
parse_cache_shard_limit = 512

abbrev pub max_cached_sql_bytes : ℕ
max_cached_sql_bytes = 16384

-- The string of a dialect.
unfoldable pub dialect_name : Dialect → Bytes
dialect_name generic = codes "generic"
dialect_name postgres = codes "postgres"
dialect_name mysql = codes "mysql"
dialect_name mssql = codes "mssql"
dialect_name (unsupported name) = name

pub record CacheKey : Type 0 where
  pub dialect : Dialect
  pub sql : Bytes

unfoldable pub key_eq : CacheKey → CacheKey → Bool
unfolding bytes_eq dialect_name
key_eq a b = bytes_eq (dialect_name a.dialect) (dialect_name b.dialect) && bytes_eq a.sql b.sql

-- `hash = (hash ^ b) * 16777619` over the bytes, in 32 bits.
unfoldable pub fnv : ℕ → Bytes → ℕ
fnv hash [] = hash
fnv hash (b ∷ bs) = fnv ((bit_xor hash b * 16777619) % 2 ^ 32) bs

-- `parseCacheIndex`; the mask 15 is written as a remainder.
unfoldable pub parse_cache_index : CacheKey → ℕ
unfolding fnv dialect_name
parse_cache_index key = fnv (fnv 2166136261 (dialect_name key.dialect)) key.sql % parse_cache_shards

pub record Shard : Type 0 where
  pub entries : List (CacheKey × Info)
  pub order : List CacheKey
  pub next : ℕ

unfoldable pub find_entry : CacheKey → List (CacheKey × Info) → Option Info
unfolding key_eq
find_entry key [] = none
find_entry key ((k, info) ∷ es) = if key_eq k key then some info else find_entry key es

-- `delete(entries, key)`.
unfoldable pub delete_entry : CacheKey → List (CacheKey × Info) → List (CacheKey × Info)
unfolding key_eq
delete_entry key [] = []
delete_entry key ((k, info) ∷ es) =
    let rest = delete_entry key es in if key_eq k key then rest else (k, info) ∷ rest

-- `order[i] = key`.
unfoldable pub set_key : List CacheKey → ℕ → CacheKey → List CacheKey
set_key [] i key = []
set_key (k ∷ ks) zero key = key ∷ ks
set_key (k ∷ ks) (suc i) key = k ∷ set_key ks i key

abbrev pub without : Option CacheKey → List (CacheKey × Info) → List (CacheKey × Info)
without none es = es
without (some old) es = delete_entry old es

-- `cacheParsed` behind its look-up.
unfoldable pub insert_entry : Shard → CacheKey → Info → Shard
insert_entry shard key info =
    if ltb (length shard.order) parse_cache_shard_limit
    then record shard { entries = (key, info) ∷ shard.entries; order = shard.order ++ key ∷ [] }
    else record shard {
      entries = (key, info) ∷ without (get_elem? shard.order shard.next) shard.entries;
      order = set_key shard.order shard.next key;
      next = (shard.next + 1) % parse_cache_shard_limit;
    }

-- `cacheParsed` on its shard.
unfoldable pub cache_parsed : Shard → CacheKey → Info → Shard
cache_parsed shard key info = elim (find_entry key shard.entries) [
  | some _ ↦ shard
  | none ↦ insert_entry shard key info
]

-- The sixteen shards, by their index.
abbrev pub Cache : Type 0
Cache = ℕ → Shard

abbrev pub set_shard : Cache → ℕ → Shard → Cache
set_shard cache i shard j = if j == i then shard else cache j

abbrev pub error_free : Option Error → Bool
error_free none = true
error_free (some e) = false

-- `ParseDialect` behind a look-up that found nothing.
unfoldable pub parse_miss : Runtime → CacheKey → Cache → (Info × Option Error) × Cache
parse_miss rt key cache =
    let parsed = parse_text rt key.dialect key.sql in
    let i = parse_cache_index key in
    if error_free parsed.1 && leb (length key.sql) max_cached_sql_bytes
    then (parsed, set_shard cache i (cache_parsed (cache i) key parsed.0))
    else (parsed, cache)

-- The look-up: a long text is not looked up.
unfoldable pub look_up : CacheKey → Cache → Option Info
look_up key cache =
    if leb (length key.sql) max_cached_sql_bytes
    then find_entry key (cache (parse_cache_index key)).entries
    else none

abbrev pub answer_from : Runtime → CacheKey → Cache → Option Info → (Info × Option Error) × Cache
answer_from rt key cache (some info) = ((info, none), cache)
answer_from rt key cache none = parse_miss rt key cache

-- `ParseDialect`: its result, and the cache that it leaves.
unfoldable pub parse_dialect : Runtime → Dialect → Bytes → Cache → (Info × Option Error) × Cache
unfolding parse_miss
parse_dialect rt d sql cache =
    let key : CacheKey = record { dialect = d; sql = sql } in
    if not (valid d)
    then ((bare_info d unknown sql, some unsupported_dialect), cache)
    else answer_from rt key cache (look_up key cache)
