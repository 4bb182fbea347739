-- ===== src/OriginCache/Sound.antt =====
-- The cache of origins returns what was put last.
use rowset_studio.Common.{
  ◌≡◌, refl, ◌∙◌, Bool, false, not, Option, none, some, List, [], ◌∷◌, ◌++◌, Bytes, bytes_eq,
  bytes_eq_iff, has_prefix, get_elem?, if◌then◌else◌, Bool-cases, Option-cases, inl, inr, arith,
}
use rowset_studio.OriginCache.{
  OriginCache, Use, putting, forgetting, find, keep, store, get, evict, put, forget, new_cache,
  apply, after,
}

bytes_eq-swap : (a b : Bytes) → bytes_eq a b ≡ false → bytes_eq b a ≡ false
bytes_eq-swap a b h = ground (arith, h, bytes_eq_iff a b, bytes_eq_iff b a)

module _ {Origins : Type 0} where
  -- What was put last under a key, if its connection was not forgotten since.
  unfoldable pub last_put : Bytes → List (Use Origins) → Option Origins
  unfolding bytes_eq has_prefix
  last_put key [] = none
  last_put key (putting k o ∷ us) = if bytes_eq k key then some o else last_put key us
  last_put key (forgetting id ∷ us) =
      if has_prefix key (id ++ (b'|' ∷ [])) then none else last_put key us

  find-keep :
      (p : Bytes → Bool) (key : Bytes) (entries : List (Bytes × Origins))
      → find key (keep p entries) ≡ (if p key then find key entries else none)
  unfolding find keep
  find-keep p key [] = ground arith
  find-keep p key ((k, o) ∷ rest) = elim (Bool-cases (bytes_eq k key)) [
    | inl e ↦
        rw ((bytes_eq_iff k key).0 e)
          (ground (arith, find-keep p key rest, (bytes_eq_iff key key).1 refl))
    | inr e ↦ ground (arith, e, find-keep p key rest)
  ]

  find-store :
      (key k : Bytes) (o : Origins) (entries : List (Bytes × Origins))
      → find key (store k o entries) ≡ (if bytes_eq k key then some o else find key entries)
  unfolding find store
  find-store key k o entries = elim (Bool-cases (bytes_eq k key)) [
    | inl e ↦ rw e refl
    | inr e ↦
        rw e (find-keep (λ j. not (bytes_eq j k)) key entries ∙ rw (bytes_eq-swap k key e) refl)
  ]

  find-evict :
      (key : Bytes) (c : OriginCache Origins) (v : Origins)
      → find key (evict c) ≡ some v
      → find key c.entries ≡ some v
  unfolding evict
  find-evict key c v h = elim (Option-cases (get_elem? c.order c.next)) [
    | inl e ↦ ground (arith, h, e)
    | inr (old, e) ↦
        let kept = find-keep (λ j. not (bytes_eq j old)) key c.entries in ground (arith, h, e, kept)
  ]

  -- A look-up behind `put`.
  get-put :
      (key k : Bytes) (o v : Origins) (c : OriginCache Origins)
      → get key (put k o c) ≡ some v
      → (if bytes_eq k key then some o else get key c) ≡ some v
  unfolding get put
  get-put key k o v c h =
      ground
        (arith, h, find-store key k o c.entries, find-store key k o (evict c), find-evict key c v)

  -- What is put is found.
  get-put_self : (k : Bytes) (o : Origins) (c : OriginCache Origins) → get k (put k o c) ≡ some o
  unfolding get put
  get-put_self k o c =
      ground
        (arith, find-store k k o c.entries, find-store k k o (evict c), (bytes_eq_iff k k).1 refl)

  get-new : (key : Bytes) → get {Origins = Origins} key new_cache ≡ none
  unfolding get find
  get-new key = refl

  get-forget :
      (key id : Bytes) (c : OriginCache Origins)
      → get key (forget id c) ≡ (if has_prefix key (id ++ (b'|' ∷ [])) then none else get key c)
  unfolding get forget
  get-forget key id c =
      let kept = find-keep (λ k. not (has_prefix k (id ++ (b'|' ∷ [])))) key c.entries in
      ground (arith, kept)

  -- After any uses, `get` returns what the last `put` of the key stored since the key's connection was
  -- last forgotten, or nothing.
  pub get-after :
      (key : Bytes) (us : List (Use Origins)) (v : Origins)
      → get key (after us) ≡ some v
      → last_put key us ≡ some v
  unfolding after apply last_put
  get-after key [] v h = ground (arith, h, get-new key)
  get-after key (putting k o ∷ us) v h =
      ground (arith, get-put key k o v (after us) h, get-after key us v)
  get-after key (forgetting id ∷ us) v h =
      ground (arith, h, get-forget key id (after us), get-after key us v)
