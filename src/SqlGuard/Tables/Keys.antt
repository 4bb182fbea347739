-- ===== src/SqlGuard/Tables/Keys.antt =====
-- Which tables a statement's record names: each reference that its words make, once for its key.
use rowset_studio.Common.{
  ◌≡◌, refl, ap, Bool, true, false, ◌||◌, Option, none, some, List, [], ◌∷◌, arith, if◌then◌else◌,
  Bool-cases, Option-cases, inl, inr, Bytes, bytes_eq_iff, map,
}
use rowset_studio.SqlGuard.Tables.{
  names_table, table_at, table_key, seen_key, tables_loop, extract_tables,
}
use rowset_studio.SqlGuard.Types.{TableRef, Token, keyword}

abbrev add_reference : Option TableRef → List TableRef → List TableRef
add_reference none refs = refs
add_reference (some ref) refs = ref ∷ refs

-- All references, in the order of the words that make them.
abbrev pub references : Bool → Bool → List Token → List TableRef
references first after_key [] = []
references first after_key (t ∷ ts) =
    let rest = references false (keyword t "key") ts in
    if names_table first after_key t ts then add_reference (table_at t.lower ts) rest else rest

-- The first reference of each key that is not yet seen.
abbrev pub first_of_key : List Bytes → List TableRef → List TableRef
first_of_key seen [] = []
first_of_key seen (r ∷ rs) =
    if seen_key (table_key r) seen
    then first_of_key seen rs
    else r ∷ first_of_key (table_key r ∷ seen) rs

tables_loop-first_of_key :
    (seen : List Bytes) (first after_key : Bool) (ts : List Token)
    → tables_loop seen first after_key ts ≡ first_of_key seen (references first after_key ts)
unfolding tables_loop
tables_loop-first_of_key seen first after_key [] = refl
tables_loop-first_of_key seen first after_key (t ∷ ts) =
    let next = keyword t "key" in
    elim (Bool-cases (names_table first after_key t ts)) [
      | inr e ↦ rw (e, tables_loop) (tables_loop-first_of_key seen false next ts)
      | inl e ↦ elim (Option-cases (table_at t.lower ts)) [
        | inl n ↦ rw (e, n, tables_loop) (tables_loop-first_of_key seen false next ts)
        | inr (ref, s) ↦ elim (Bool-cases (seen_key (table_key ref) seen)) [
          | inl old ↦ rw (e, s, old, tables_loop) (tables_loop-first_of_key seen false next ts)
          | inr new ↦
              rw (e, s, new, tables_loop)
                (ap (◌∷◌ ref) (tables_loop-first_of_key (table_key ref ∷ seen) false next ts))
        ]
      ]
    ]

first_of_key-seen :
    (key : Bytes) (seen : List Bytes) (rs : List TableRef)
    → (seen_key key (map table_key (first_of_key seen rs)) || seen_key key seen)
      ≡ (seen_key key (map table_key rs) || seen_key key seen)
unfolding seen_key
first_of_key-seen key seen [] = refl
first_of_key-seen key seen (r ∷ rs) = ground (
  arith,
  bytes_eq_iff (table_key r) key,
  first_of_key-seen key seen rs,
  first_of_key-seen key (table_key r ∷ seen) rs,
)

-- No reference behind one has its key.
abbrev pub DistinctKeys : List TableRef → Type 0
DistinctKeys [] = Unit
DistinctKeys (r ∷ rs) = (seen_key (table_key r) (map table_key rs) ≡ false) × DistinctKeys rs

-- What is left out because its key is seen does not come back.
first_of_key-fresh :
    (key : Bytes) (seen : List Bytes) (rs : List TableRef)
    → seen_key key seen ≡ true
    → seen_key key (map table_key (first_of_key seen rs)) ≡ false
unfolding seen_key
first_of_key-fresh key seen [] h = refl
first_of_key-fresh key seen (r ∷ rs) h = ground (
  arith,
  bytes_eq_iff (table_key r) key,
  first_of_key-fresh key seen rs h,
  first_of_key-fresh key (table_key r ∷ seen) rs,
)

seen_key-same : (key : Bytes) (seen : List Bytes) → seen_key key (key ∷ seen) ≡ true
unfolding seen_key
seen_key-same key seen = ground (arith, bytes_eq_iff key key)

first_of_key-DistinctKeys :
    (seen : List Bytes) (rs : List TableRef) → DistinctKeys (first_of_key seen rs)
first_of_key-DistinctKeys seen [] = tt
first_of_key-DistinctKeys seen (r ∷ rs) = elim (Bool-cases (seen_key (table_key r) seen)) [
  | inl e ↦ rw e (first_of_key-DistinctKeys seen rs)
  | inr e ↦ rw e (
    first_of_key-fresh (table_key r) (table_key r ∷ seen) rs (seen_key-same (table_key r) seen),
    first_of_key-DistinctKeys (table_key r ∷ seen) rs,
  )
]

first_of_key-keys :
    (key : Bytes) (rs : List TableRef)
    → seen_key key (map table_key (first_of_key [] rs)) ≡ seen_key key (map table_key rs)
unfolding seen_key
first_of_key-keys key rs = ground (arith, first_of_key-seen key [] rs)

-- The tables of a statement are the references that its words make, in order, the first of each
-- key: a key is among them exactly when a reference has it, and none is there twice.
pub extract_tables-keys :
    (ts : List Token) (key : Bytes)
    → (extract_tables ts ≡ first_of_key [] (references true false ts))
      × DistinctKeys (extract_tables ts)
      × (seen_key key (map table_key (extract_tables ts))
          ≡ seen_key key (map table_key (references true false ts)))
unfolding extract_tables
extract_tables-keys ts key =
    let computed = tables_loop-first_of_key [] true false ts in
    let rs = references true false ts in
    (
      computed,
      rw computed (first_of_key-DistinctKeys [] rs),
      rw computed (first_of_key-keys key rs),
    )
