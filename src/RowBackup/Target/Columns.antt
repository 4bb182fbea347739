-- ===== src/RowBackup/Target/Columns.antt =====
-- Which columns an UPDATE assigns: `assignedColumns` of rowset-core/internal/api/rowbackup.go.
use rowset_studio.Common.{
  ◌≡◌, ◌≢◌, refl, sym, ◌∙◌, subst, Bool, true, false, ◌&&◌, ◌||◌, Option, none, some, List, [], ◌∷◌,
  ◌++◌, Bytes, bytes_eq, bytes_eq_iff, any, if◌then◌else◌, Bool-cases, inl, inr, arith, is_word,
}
use rowset_studio.SqlGuard.Types.{Token, Info}
use rowset_studio.RowBackup.Target.{
  top_tokens, Place, at_column, in_value, behind_name, add_column, is_column, assigned_loop,
  unless_empty, assigned_in, assigned_columns, set_list,
}

-- No two columns have one name.
unfoldable pub Distinct : List (Bytes × Bytes) → Type 0
unfolding bytes_eq
Distinct [] = Unit
Distinct (c ∷ columns) = (any (λ d. bytes_eq d.0 c.0) columns ≡ false) × Distinct columns

any-append :
    (name : Bytes) (columns : List (Bytes × Bytes)) (d : Bytes × Bytes)
    → any (λ c. bytes_eq c.0 name) (columns ++ (d ∷ []))
      ≡ (any (λ c. bytes_eq c.0 name) columns || bytes_eq d.0 name)
any-append name [] d = ground arith
any-append name (c ∷ columns) d = ground (arith, any-append name columns d)

bytes_eq-sym : (a b : Bytes) → bytes_eq a b ≡ false → bytes_eq b a ≡ false
bytes_eq-sym a b h = elim (Bool-cases (bytes_eq b a)) [
  | inl e ↦ absurd (clash (bytes_eq a b) ((bytes_eq_iff a b).1 (sym ((bytes_eq_iff b a).0 e))) h)
  | inr e ↦ e
]
  where
    clash : (b : Bool) → b ≡ true → b ≡ false → ⊥
    clash b x y = cc

append-Distinct :
    (columns : List (Bytes × Bytes)) (d : Bytes × Bytes)
    → Distinct columns
    → any (λ c. bytes_eq c.0 d.0) columns ≡ false
    → Distinct (columns ++ (d ∷ []))
unfolding Distinct
append-Distinct [] d h n = (refl, tt)
append-Distinct (c ∷ columns) d h n = (
  any-append c.0 columns d ∙ ground (arith, h.0, n, bytes_eq-sym c.0 d.0),
  append-Distinct columns d h.1 (ground (arith, n)),
)

add_column-Distinct :
    (t : Token) (columns : List (Bytes × Bytes))
    → Distinct columns
    → Distinct (add_column t columns)
unfolding add_column
add_column-Distinct t columns h = elim (Bool-cases (any (λ c. bytes_eq c.0 t.lower) columns)) [
  | inl e ↦ rw e h
  | inr e ↦ rw e (append-Distinct columns (t.lower, t.text) h e)
]

abbrev Assigned : Option (List (Bytes × Bytes)) → Type 0
unfolding Distinct
Assigned none = Unit
Assigned (some columns) = Distinct columns

-- Whichever way a test goes.
Assigned-if :
    (b : Bool) (o u : Option (List (Bytes × Bytes)))
    → Assigned o
    → Assigned u
    → Assigned (if b then o else u)
Assigned-if true o u h g = h
Assigned-if false o u h g = g

Assigned-split :
    (b : Bool) (o u : Option (List (Bytes × Bytes)))
    → Assigned o
    → Assigned u
    → Assigned (elim b [ true ↦ o | false ↦ u ])
Assigned-split true o u h g = h
Assigned-split false o u h g = g

assigned_loop-Distinct :
    (place : Place) (ts : List Token) (columns : List (Bytes × Bytes))
    → Distinct columns
    → Assigned (assigned_loop place ts columns)
unfolding assigned_loop Assigned
assigned_loop-Distinct at_column [] columns h = h
assigned_loop-Distinct at_column (t ∷ ts) columns h =
    Assigned-split (is_column t) (assigned_loop (behind_name t) ts columns) none
      (assigned_loop-Distinct (behind_name t) ts columns h) tt
assigned_loop-Distinct in_value [] columns h = h
assigned_loop-Distinct in_value (t ∷ ts) columns h =
    Assigned-split (is_word t.text ",") (assigned_loop at_column ts columns)
      (assigned_loop in_value ts columns) (assigned_loop-Distinct at_column ts columns h)
      (assigned_loop-Distinct in_value ts columns h)
assigned_loop-Distinct (behind_name name) [] columns h = tt
assigned_loop-Distinct (behind_name name) (t ∷ []) columns h =
    Assigned-if (is_word t.text "=") (some (add_column name columns)) none
      (add_column-Distinct name columns h) tt
assigned_loop-Distinct (behind_name name) (t ∷ u ∷ ts) columns h =
    Assigned-split (is_word t.text "." && is_column u) (assigned_loop (behind_name u) ts columns)
      (elim (is_word t.text "=") [
        | true ↦ assigned_loop in_value (u ∷ ts) (add_column name columns)
        | false ↦ none
      ])
      (assigned_loop-Distinct (behind_name u) ts columns h)
      (Assigned-split (is_word t.text "=")
        (assigned_loop in_value (u ∷ ts) (add_column name columns)) none
        (assigned_loop-Distinct in_value (u ∷ ts) (add_column name columns)
          (add_column-Distinct name columns h))
        tt)

abbrev AssignedSome : Option (List (Bytes × Bytes)) → Type 0
unfolding Distinct
AssignedSome none = Unit
AssignedSome (some columns) = (columns ≢ []) × Distinct columns

unless_empty-AssignedSome :
    (o : Option (List (Bytes × Bytes))) → Assigned o → AssignedSome (unless_empty o)
unfolding Assigned AssignedSome unless_empty
unless_empty-AssignedSome none h = tt
unless_empty-AssignedSome (some []) h = tt
unless_empty-AssignedSome (some (c ∷ columns)) h = ((λ e. cc), h)

assigned_in-AssignedSome : (ts : List Token) → AssignedSome (assigned_in ts)
unfolding AssignedSome assigned_in Distinct
assigned_in-AssignedSome [] = tt
assigned_in-AssignedSome (t ∷ ts) =
    unless_empty-AssignedSome (assigned_loop at_column (t ∷ ts) [])
      (assigned_loop-Distinct at_column (t ∷ ts) [] tt)

-- The columns that an UPDATE is found to assign are at least one, and no two of them have one name.
pub assigned_columns-Distinct :
    (info : Info) (columns : List (Bytes × Bytes))
    → assigned_columns info ≡ some columns
    → (columns ≢ []) × Distinct columns
unfolding assigned_columns AssignedSome
assigned_columns-Distinct info columns h =
    subst AssignedSome h (assigned_in-AssignedSome (set_list (top_tokens info.tokens)))
