-- ===== src/SqlGuard/Cache/Coherence.antt =====
-- The cache changes no answer: what it holds is what `parseDialect` returns.
use rowset_studio.Common.{
  ℕ, zero, suc, ◌≤◌, ◌<◌, ◌≡◌, ◌≢◌, refl, inl, inr, ◌∙◌, sym, ap, true, not, Option, none, some,
  List, [], ◌∷◌, arith, if◌then◌else◌, Bool-cases, Option-cases, Bytes, All, bytes_eq, bytes_eq_iff,
  length, get_elem?, length-append, tests, ltb, leb, ◌==◌,
}
use rowset_studio.SqlGuard.Cache.{
  dialect_name, CacheKey, key_eq, parse_cache_index, parse_cache_shard_limit, max_cached_sql_bytes,
  Shard, find_entry, delete_entry, set_key, without, insert_entry, cache_parsed, Cache, error_free,
  set_shard, parse_miss, look_up, answer_from, parse_dialect,
}
use rowset_studio.SqlGuard.Script.{parse_text}
use rowset_studio.SqlGuard.Types.{
  Runtime, Dialect, generic, postgres, mysql, mssql, unsupported, valid, unknown, Info, bare_info,
  Error, unsupported_dialect,
}

none-ne-some : {i : Info} → none ≢ some i
none-ne-some h = cc

-- Distinct dialects that are valid have distinct names.
dialect_name-injective :
    (a b : Dialect)
    → valid a ≡ true
    → valid b ≡ true
    → bytes_eq (dialect_name a) (dialect_name b) ≡ true
    → a ≡ b
unfolding valid dialect_name bytes_eq
dialect_name-injective generic generic p q h = refl
dialect_name-injective postgres postgres p q h = refl
dialect_name-injective mysql mysql p q h = refl
dialect_name-injective mssql mssql p q h = refl
dialect_name-injective (unsupported n) b p q h = cc
dialect_name-injective a (unsupported n) p q h = cc
dialect_name-injective _ _ p q h = cc

key_eq-injective :
    (a b : CacheKey) → valid a.dialect ≡ true → valid b.dialect ≡ true → key_eq a b ≡ true → a ≡ b
unfolding key_eq
key_eq-injective a b p q h =
    ground (arith, dialect_name-injective a.dialect b.dialect p q, bytes_eq_iff a.sql b.sql)

module _ (rt : Runtime) where
  -- An entry holds what its text parses to, in a dialect that is valid.
  abbrev pub Cached : CacheKey × Info → Type 0
  Cached e = (valid e.0.dialect ≡ true) × (parse_text rt e.0.dialect e.0.sql ≡ (e.1, none))

  -- The shard's entries are right, and its order is no longer than the limit.
  pub record ShardInv (s : Shard) : Type 0 where
    pub cached : All Cached s.entries
    pub bounded : length s.order ≤ parse_cache_shard_limit
    pub in_order : s.next < parse_cache_shard_limit

  some-injective_info : {i j : Info} → some i ≡ some j → i ≡ j
  some-injective_info h = cc

  find_entry-Cached :
      (key : CacheKey) (es : List (CacheKey × Info)) {info : Info}
      → valid key.dialect ≡ true
      → All Cached es
      → find_entry key es ≡ some info
      → parse_text rt key.dialect key.sql ≡ (info, none)
  unfolding find_entry
  find_entry-Cached key [] v a h = cc
  find_entry-Cached key ((k, i) ∷ es) v (a, as') h = elim (Bool-cases (key_eq k key)) [
    | inl e ↦
        let same = key_eq-injective k key a.0 v e in
        let found = some-injective_info (rw e at h) in
        ap (λ (c : CacheKey). parse_text rt c.dialect c.sql) (sym same)
        ∙ a.1
        ∙ ap (λ j. (j, none)) found
    | inr e ↦ find_entry-Cached key es v as' (rw e at h)
  ]

  delete_entry-Cached :
      (key : CacheKey) (es : List (CacheKey × Info))
      → All Cached es
      → All Cached (delete_entry key es)
  unfolding delete_entry
  delete_entry-Cached key [] a = tt
  delete_entry-Cached key ((k, i) ∷ es) (a, as') = elim (Bool-cases (key_eq k key)) [
    | inl e ↦ rw e (delete_entry-Cached key es as')
    | inr e ↦ rw e (a, delete_entry-Cached key es as')
  ]

  length-set_key : (ks : List CacheKey) (i : ℕ) (k : CacheKey) → length (set_key ks i k) ≡ length ks
  unfolding set_key
  length-set_key [] i k = refl
  length-set_key (x ∷ ks) zero k = refl
  length-set_key (x ∷ ks) (suc i) k = ap suc (length-set_key ks i k)

  without-Cached :
      (o : Option CacheKey) (es : List (CacheKey × Info))
      → All Cached es
      → All Cached (without o es)
  without-Cached none es a = a
  without-Cached (some k) es a = delete_entry-Cached k es a

  insert_entry-ShardInv :
      (s : Shard) (key : CacheKey) (info : Info)
      → ShardInv s
      → Cached (key, info)
      → ShardInv (insert_entry s key info)
  unfolding insert_entry
  insert_entry-ShardInv s key info v c =
      elim (Bool-cases (ltb (length s.order) parse_cache_shard_limit)) [
        | inl e ↦ rw e (record {
          cached = (c, v.cached);
          bounded = omega (tests, length-append s.order (key ∷ []), e);
          in_order = v.in_order;
        })
        | inr e ↦ rw e (record {
          cached = (c, without-Cached (get_elem? s.order s.next) s.entries v.cached);
          bounded = omega (arith, v.bounded, length-set_key s.order s.next key);
          in_order = omega arith;
        })
      ]

  -- `cacheParsed` keeps the entries right and the order within the limit.
  pub cache_parsed-ShardInv :
      (s : Shard) (key : CacheKey) (info : Info)
      → ShardInv s
      → Cached (key, info)
      → ShardInv (cache_parsed s key info)
  unfolding cache_parsed
  cache_parsed-ShardInv s key info v c = elim (Option-cases (find_entry key s.entries)) [
    | inl e ↦ rw (e, cache_parsed) (insert_entry-ShardInv s key info v c)
    | inr (i, e) ↦ rw (e, cache_parsed) v
  ]

  -- `ParseDialect` with no cache.
  unfoldable pub parse_uncached : Dialect → Bytes → Info × Option Error
  parse_uncached d sql =
      if not (valid d)
      then (bare_info d unknown sql, some unsupported_dialect)
      else parse_text rt d sql

  abbrev pub CacheInv : Cache → Type 0
  CacheInv cache = (i : ℕ) → ShardInv (cache i)

  set_shard-CacheInv :
      (cache : Cache) (i : ℕ) (s : Shard)
      → CacheInv cache
      → ShardInv s
      → CacheInv (set_shard cache i s)
  set_shard-CacheInv cache i s v w j = elim (Bool-cases (j == i)) [
    | inl e ↦ rw e w
    | inr e ↦ rw e (v j)
  ]

  error_free-none : (e : Option Error) → error_free e ≡ true → e ≡ none
  error_free-none none h = refl
  error_free-none (some x) h = cc

  Uncached : CacheKey → (Info × Option Error) × Cache → Type 0
  Uncached key a = (a.0 ≡ parse_text rt key.dialect key.sql) × CacheInv a.1

  parse_miss-Uncached :
      (key : CacheKey) (cache : Cache)
      → valid key.dialect ≡ true
      → CacheInv cache
      → Uncached key (parse_miss rt key cache)
  unfolding Uncached parse_miss
  parse_miss-Uncached key cache d v =
      let parsed = parse_text rt key.dialect key.sql in
      let i = parse_cache_index key in
      elim (Bool-cases (error_free parsed.1)) [
        | inl e ↦ elim (Bool-cases (leb (length key.sql) max_cached_sql_bytes)) [
          | inl short ↦
              rw (e, short)
                (
                  refl,
                  set_shard-CacheInv cache i (cache_parsed (cache i) key parsed.0) v (
                      cache_parsed-ShardInv (cache i) key parsed.0 (v i)
                        (d, ap (λ x. (parsed.0, x)) (error_free-none parsed.1 e))),
                )
          | inr long ↦ rw (e, long) (refl, v)
        ]
        | inr e ↦ rw e (refl, v)
      ]

  look_up-Cached :
      (key : CacheKey) (cache : Cache) {info : Info}
      → valid key.dialect ≡ true
      → CacheInv cache
      → look_up key cache ≡ some info
      → parse_text rt key.dialect key.sql ≡ (info, none)
  unfolding look_up
  look_up-Cached key cache d v h = elim (Bool-cases (leb (length key.sql) max_cached_sql_bytes)) [
    | inl e ↦
        let i = parse_cache_index key in
        find_entry-Cached key (cache i).entries d (v i).cached (rw e at h)
    | inr e ↦ absurd (none-ne-some (rw e at h))
  ]

  answer_from-Uncached :
      (key : CacheKey) (cache : Cache) (o : Option Info)
      → valid key.dialect ≡ true
      → CacheInv cache
      → look_up key cache ≡ o
      → Uncached key (answer_from rt key cache o)
  answer_from-Uncached key cache none d v h = parse_miss-Uncached key cache d v
  answer_from-Uncached key cache (some info) d v h =
      unfold Uncached in (sym (look_up-Cached key cache d v h), v)

  -- With a cache that holds right answers `ParseDialect` returns what it returns with none, and
  -- leaves such a cache, whose shards keep no more keys in order than their limit.
  pub parse_dialect-coherent :
      (d : Dialect) (sql : Bytes) (cache : Cache)
      → CacheInv cache
      → ((parse_dialect rt d sql cache).0 ≡ parse_uncached d sql)
        × CacheInv (parse_dialect rt d sql cache).1
  unfolding parse_dialect parse_uncached Uncached
  parse_dialect-coherent d sql cache v =
      let key : CacheKey = record { dialect = d; sql = sql } in
      elim (Bool-cases (valid d)) [
        | inl e ↦ rw e (answer_from-Uncached key cache (look_up key cache) e v refl)
        | inr e ↦ rw e (refl, v)
      ]
