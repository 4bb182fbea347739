-- ===== src/OriginCache/Fitting.antt =====
-- A cache of origins that fits, and what is taken out of it or put in place:
-- rowset-core/internal/engine/origincache.go.
use rowset_studio.Common.{
  ℕ, zero, suc, ◌≡◌, ◌≢◌, ◌≤◌, ◌<◌, refl, sym, ap, subst, ◌∙◌, Bool, true, not, none, some, List,
  [], ◌∷◌, ◌++◌, Bytes, bytes_eq, bytes_eq_iff, get_elem?, set, length, length-append, Bool-cases,
  inl, inr, arith, Member,
}
use rowset_studio.OriginCache.{origin_cache_limit, OriginCache, find, keep, store, after}

-- A list without a repetition.
abbrev Distinct : List Bytes → Type 0
Distinct [] = Unit
Distinct (k ∷ ks) = (¬ Member k ks) × Distinct ks

abbrev pub keys : {Origins : Type 0} → List (Bytes × Origins) → List Bytes
keys [] = []
keys ((k, o) ∷ rest) = k ∷ keys rest

Member-split :
    (k : Bytes) (ks : List Bytes)
    → Member k ks
    → (before : List Bytes) × (after : List Bytes) × (ks ≡ before ++ (k ∷ after))
Member-split k [] m = elim m [ ]
Member-split k (j ∷ ks) (inl e) = ([], ks, ap (λ x. x ∷ ks) (sym e))
Member-split k (j ∷ ks) (inr m) =
    let (before, after, e) = Member-split k ks m in (j ∷ before, after, ap (λ t. j ∷ t) e)

-- An element other than the middle one is beside it.
Member-beside :
    (j k : Bytes) (before after : List Bytes)
    → j ≢ k
    → Member j (before ++ (k ∷ after))
    → Member j (before ++ after)
Member-beside j k [] after n (inl e) = absurd (n e)
Member-beside j k [] after n (inr m) = m
Member-beside j k (b ∷ before) after n (inl e) = inl e
Member-beside j k (b ∷ before) after n (inr m) = inr (Member-beside j k before after n m)

-- Distinct elements of a list are no more than its elements.
pub length-le :
    (ks order : List Bytes)
    → Distinct ks
    → ((k : Bytes) → Member k ks → Member k order)
    → length ks ≤ length order
length-le [] order d h = omega arith
length-le (k ∷ ks) order d h =
    let (before, after, e) = Member-split k order (h k (inl refl)) in
    let rest = length-le ks (before ++ after) d.1 (λ j m.
      Member-beside j k before after (λ same. d.0 (subst (λ x. Member x ks) same m))
        (subst (Member j) e (h j (inr m)))) in
    omega (arith, rest, ap length e, length-append before after, length-append before (k ∷ after))

first_kept :
    (p : Bytes → Bool) (k j : Bytes) (kept ks : List Bytes)
    → p j ≡ true
    → (Member k kept → Member k ks × (p k ≡ true))
    → Member k (j ∷ kept)
    → Member k (j ∷ ks) × (p k ≡ true)
first_kept p k j kept ks t rest (inl e) = (inl e, ap p e ∙ t)
first_kept p k j kept ks t rest (inr m) = (inr (rest m).0, (rest m).1)

pub Member-append_last : (k : Bytes) (ks : List Bytes) → Member k (ks ++ (k ∷ []))
Member-append_last k [] = inl refl
Member-append_last k (j ∷ ks) = inr (Member-append_last k ks)

-- A write keeps the elements other than the one in its place, and has the new one.
pub Member-set :
    (j old k : Bytes) (ks : List Bytes) (i : ℕ)
    → get_elem? ks i ≡ some old
    → j ≢ old
    → Member j ks
    → Member j (set ks i k)
Member-set j old k [] i e n m = elim m [ ]
Member-set j old k (x ∷ ks) zero e n (inl same) = absurd (n (same ∙ (let e' : x ≡ old = cc in e')))
Member-set j old k (x ∷ ks) zero e n (inr m) = inr m
Member-set j old k (x ∷ ks) (suc i) e n (inl same) = inl same
Member-set j old k (x ∷ ks) (suc i) e n (inr m) = inr (Member-set j old k ks i e n m)

pub Member-set_new :
    (old k : Bytes) (ks : List Bytes) (i : ℕ) → get_elem? ks i ≡ some old → Member k (set ks i k)
Member-set_new old k [] i e = absurd (let n : none ≡ some old = e in ground (arith, n))
Member-set_new old k (x ∷ ks) zero e = inl refl
Member-set_new old k (x ∷ ks) (suc i) e = inr (Member-set_new old k ks i e)

pub get_elem?-below :
    (ks : List Bytes) (i : ℕ) → i < length ks → (old : Bytes) × (get_elem? ks i ≡ some old)
get_elem?-below [] i h = absurd (omega arith)
get_elem?-below (k ∷ ks) zero h = (k, refl)
get_elem?-below (k ∷ ks) (suc i) h = get_elem?-below ks i (omega arith)

pub length-set : (k : Bytes) (ks : List Bytes) (i : ℕ) → length (set ks i k) ≡ length ks
length-set k [] i = refl
length-set k (x ∷ ks) zero = refl
length-set k (x ∷ ks) (suc i) = ap suc (length-set k ks i)

module _ {Origins : Type 0} where
  pub Member-keep :
      (p : Bytes → Bool) (k : Bytes) (entries : List (Bytes × Origins))
      → Member k (keys (keep p entries))
      → Member k (keys entries) × (p k ≡ true)
  unfolding keep
  Member-keep p k [] m = elim m [ ]
  Member-keep p k ((j, o) ∷ rest) m = elim (Bool-cases (p j)) [
    | inl e ↦ first_kept p k j (keys (keep p rest)) (keys rest) e (Member-keep p k rest) (rw e at m)
    | inr e ↦ let (old, t) = Member-keep p k rest (rw e at m) in (inr old, t)
  ]

  pub keep-Distinct :
      (p : Bytes → Bool) (entries : List (Bytes × Origins))
      → Distinct (keys entries)
      → Distinct (keys (keep p entries))
  unfolding keep
  keep-Distinct p [] d = tt
  keep-Distinct p ((j, o) ∷ rest) d = elim (Bool-cases (p j)) [
    | inl e ↦ rw e (λ m. d.0 (Member-keep p j rest m).0, keep-Distinct p rest d.1)
    | inr e ↦ rw e (keep-Distinct p rest d.1)
  ]

  pub find-Member :
      (k : Bytes) (entries : List (Bytes × Origins)) (o : Origins)
      → find k entries ≡ some o
      → Member k (keys entries)
  unfolding find
  find-Member k [] o h = absurd (ground (arith, h))
  find-Member k ((j, v) ∷ rest) o h = elim (Bool-cases (bytes_eq j k)) [
    | inl e ↦ inl (sym ((bytes_eq_iff j k).0 e))
    | inr e ↦ inr (find-Member k rest o (rw e at h))
  ]

  -- Every key of the map has a place in the order.
  pub record Fits (c : OriginCache Origins) : Type 0 where
    pub distinct : Distinct (keys c.entries)
    pub listed : (k : Bytes) → Member k (keys c.entries) → Member k c.order
    pub size : length c.order ≤ origin_cache_limit
    pub place : c.next < origin_cache_limit

  store-Distinct :
      (k : Bytes) (o : Origins) (entries : List (Bytes × Origins))
      → Distinct (keys entries)
      → Distinct (keys (store k o entries))
  unfolding store
  store-Distinct k o entries d = (
    λ m.
        let t = (Member-keep (λ j. not (bytes_eq j k)) k entries m).1 in
        absurd (ground (arith, t, (bytes_eq_iff k k).1 refl)),
    keep-Distinct (λ j. not (bytes_eq j k)) entries d,
  )

  store-listed :
      (k : Bytes) (o : Origins) (entries : List (Bytes × Origins)) (order : List Bytes)
      → Member k order
      → ((j : Bytes) → Member j (keys entries) → Member j order)
      → (j : Bytes) → Member j (keys (store k o entries))
      → Member j order
  unfolding store
  store-listed k o entries order new old j (inl e) = subst (λ x. Member x order) (sym e) new
  store-listed k o entries order new old j (inr m) =
      old j (Member-keep (λ x. not (bytes_eq x k)) j entries m).0

  pub store-Fits :
      (k : Bytes) (o : Origins) (c : OriginCache Origins)
      → Fits c
      → Member k c.order
      → Fits (record c { entries = store k o c.entries })
  store-Fits k o c f new = record {
    distinct = store-Distinct k o c.entries f.distinct;
    listed = store-listed k o c.entries c.order new f.listed;
    size = f.size;
    place = f.place;
  }
