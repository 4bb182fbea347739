-- ===== src/OriginCache/Bounded.antt =====
-- The cache of origins keeps to its limit, also after connections were forgotten.
use rowset_studio.Common.{
  suc, ◌+◌, ◌%◌, ◌≡◌, ◌≤◌, ◌<◌, refl, ap, true, not, List, [], ◌∷◌, ◌++◌, Bytes, bytes_eq,
  bytes_eq_iff, has_prefix, set, length, length-append, ltb, ltb→lt, Bool-cases, Option-cases, inl,
  inr, arith, Member, Member-append,
}
use rowset_studio.OriginCache.{
  origin_cache_limit, OriginCache, Use, putting, forgetting, find, has_key, evict, put, forget,
  apply, after,
}
use rowset_studio.OriginCache.Fitting.{
  keys, length-le, Member-append_last, Member-set, Member-set_new, get_elem?-below, length-set,
  Member-keep, keep-Distinct, find-Member, Fits, store-Fits,
}

module _ {Origins : Type 0} where
  append-Fits :
      (k : Bytes) (c : OriginCache Origins)
      → Fits c
      → length c.order < origin_cache_limit
      → Fits (record c { order = c.order ++ (k ∷ []) })
  append-Fits k c f h = record {
    distinct = f.distinct;
    listed = λ j m. Member-append j c.order (k ∷ []) (f.listed j m);
    size = omega (arith, length-append c.order (k ∷ []));
    place = f.place;
  }

  evict-Fits :
      (k : Bytes) (c : OriginCache Origins)
      → Fits c
      → c.next < length c.order
      → Fits (record c {
        entries = evict c;
        order = set c.order c.next k;
        next = (c.next + 1) % origin_cache_limit;
      })
        × Member k (set c.order c.next k)
  unfolding evict
  evict-Fits k c f h =
      let (old, e) = get_elem?-below c.order c.next h in
      let other = λ (j : Bytes). not (bytes_eq j old) in
      (
        rw (e, evict)
            (record {
              distinct = keep-Distinct other c.entries f.distinct;
              listed = λ j m.
                  let (before, t) = Member-keep other j c.entries m in
                  Member-set j old k c.order c.next e
                    (λ same. absurd (ground (arith, t, (bytes_eq_iff j old).1 same)))
                    (f.listed j before);
              size = omega (arith, f.size, length-set k c.order c.next);
              place = omega arith;
            }),
        Member-set_new old k c.order c.next e,
      )

  has_key-Member :
      (k : Bytes) (entries : List (Bytes × Origins))
      → has_key k entries ≡ true
      → Member k (keys entries)
  unfolding has_key
  has_key-Member k entries h = elim (Option-cases (find k entries)) [
    | inl e ↦ absurd (ground (arith, h, e))
    | inr (o, e) ↦ find-Member k entries o e
  ]

  put-Fits : (k : Bytes) (o : Origins) (c : OriginCache Origins) → Fits c → Fits (put k o c)
  unfolding put
  put-Fits k o c f = elim (Bool-cases (has_key k c.entries)) [
    | inl e ↦ rw (e, put) (store-Fits k o c f (f.listed k (has_key-Member k c.entries e)))
    | inr e ↦ elim (Bool-cases (ltb (length c.order) origin_cache_limit)) [
      | inl l ↦
          rw (e, put, l)
            (store-Fits k o (record c { order = c.order ++ (k ∷ []) })
              (append-Fits k c f (ltb→lt (length c.order) origin_cache_limit l))
              (Member-append_last k c.order))
      | inr l ↦
          let full : c.next < length c.order = ground (arith, f.size, f.place, l) in
          let (fits, new) = evict-Fits k c f full in
          rw (e, put, l)
            (store-Fits k o
              (record c {
                entries = evict c;
                order = set c.order c.next k;
                next = (c.next + 1) % origin_cache_limit;
              })
              fits new)
    ]
  ]

  forget-Fits : (id : Bytes) (c : OriginCache Origins) → Fits c → Fits (forget id c)
  unfolding forget
  forget-Fits id c f =
      let other = λ (k : Bytes). not (has_prefix k (id ++ (b'|' ∷ []))) in
      record {
        distinct = keep-Distinct other c.entries f.distinct;
        listed = λ j m. f.listed j (Member-keep other j c.entries m).0;
        size = f.size;
        place = f.place;
      }

  after-Fits : (us : List (Use Origins)) → Fits (after us)
  unfolding after apply
  after-Fits [] = record {
    distinct = tt;
    listed = λ j m. elim m [ ];
    size = omega arith;
    place = omega arith;
  }
  after-Fits (putting k o ∷ us) = put-Fits k o (after us) (after-Fits us)
  after-Fits (forgetting id ∷ us) = forget-Fits id (after us) (after-Fits us)

  length-keys : (entries : List (Bytes × Origins)) → length (keys entries) ≡ length entries
  length-keys [] = refl
  length-keys ((k, o) ∷ rest) = ap suc (length-keys rest)

  -- After any uses the cache holds at most 512 keys, although `forget` leaves its keys in the order of
  -- eviction, where a key may then stand twice.
  pub after_bound : (us : List (Use Origins)) → length (after us).entries ≤ origin_cache_limit
  after_bound us =
      let f = after-Fits us in
      omega (
        arith,
        f.size,
        length-keys (after us).entries,
        length-le (keys (after us).entries) (after us).order f.distinct f.listed,
      )
