-- ===== src/OriginCache.antt =====
-- The cache of column origins of rowset-core/internal/engine/origincache.go. The lock makes every
-- operation one step. The origins of a statement are a parameter.
pub mod Sound
pub mod Fitting
pub mod Bounded
use rowset_studio.Common.{
  ℕ, zero, suc, ◌+◌, ◌%◌, Bool, true, false, not, Option, none, some, List, [], ◌∷◌, ◌++◌, Bytes,
  bytes_eq, has_prefix, set, get_elem?, length, ltb, if◌then◌else◌,
}

-- `originCacheLimit`.
abbrev pub origin_cache_limit : ℕ
origin_cache_limit = 512

module _ (Origins : Type 0) where
  -- `originCache`: the map as an association list without a key twice, the keys in the order of their
  -- eviction, and the place of the next one.
  pub record OriginCache : Type 0 where
    pub entries : List (Bytes × Origins)
    pub order : List Bytes
    pub next : ℕ

  -- What callers do with the cache.
  pub data Use : Type 0 where
    putting : Bytes → Origins → Use
    forgetting : Bytes → Use

module _ {Origins : Type 0} where
  unfoldable pub find : Bytes → List (Bytes × Origins) → Option Origins
  unfolding bytes_eq
  find key [] = none
  find key ((k, o) ∷ rest) = if bytes_eq k key then some o else find key rest

  -- The entries with the keys that pass a test.
  unfoldable pub keep : (Bytes → Bool) → List (Bytes × Origins) → List (Bytes × Origins)
  keep p [] = []
  keep p ((k, o) ∷ rest) = if p k then (k, o) ∷ keep p rest else keep p rest

  -- `delete` of a Go map, and an assignment to it.
  abbrev pub remove : Bytes → List (Bytes × Origins) → List (Bytes × Origins)
  remove key entries = keep (λ k. not (bytes_eq k key)) entries

  unfoldable pub store : Bytes → Origins → List (Bytes × Origins) → List (Bytes × Origins)
  unfolding keep bytes_eq
  store key origins entries = (key, origins) ∷ remove key entries

  -- `get`.
  unfoldable pub get : Bytes → OriginCache Origins → Option Origins
  unfolding find
  get key c = find key c.entries

  unfoldable pub has_key : Bytes → List (Bytes × Origins) → Bool
  unfolding find
  has_key key entries = elim (find key entries) [ none ↦ false | some o ↦ true ]

  -- The key at the place of the next eviction gives way.
  unfoldable pub evict : OriginCache Origins → List (Bytes × Origins)
  unfolding keep bytes_eq
  evict c = elim (get_elem? c.order c.next) [ none ↦ c.entries | some old ↦ remove old c.entries ]

  -- `put`.
  unfoldable pub put : Bytes → Origins → OriginCache Origins → OriginCache Origins
  unfolding has_key store evict
  put key origins c =
      if has_key key c.entries
      then record c { entries = store key origins c.entries }
      else if ltb (length c.order) origin_cache_limit
      then record c { entries = store key origins c.entries; order = c.order ++ (key ∷ []) }
      else record c {
        entries = store key origins (evict c);
        order = set c.order c.next key;
        next = (c.next + 1) % origin_cache_limit;
      }

  -- `forget`: the entries of a connection are deleted; `order` stays.
  unfoldable pub forget : Bytes → OriginCache Origins → OriginCache Origins
  unfolding keep has_prefix
  forget connection c = record c {
    entries = keep (λ k. not (has_prefix k (connection ++ (b'|' ∷ [])))) c.entries;
  }

  abbrev pub new_cache : OriginCache Origins
  new_cache = record { entries = []; order = []; next = 0 }

  unfoldable pub apply : Use Origins → OriginCache Origins → OriginCache Origins
  unfolding put forget
  apply (putting key origins) c = put key origins c
  apply (forgetting connection) c = forget connection c

  -- The cache after a sequence of uses, the last one first.
  unfoldable pub after : List (Use Origins) → OriginCache Origins
  unfolding apply
  after [] = new_cache
  after (u ∷ us) = apply u (after us)
