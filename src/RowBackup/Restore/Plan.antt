-- ===== src/RowBackup/Restore/Plan.antt =====
-- What the statements of a restore write: the columns and rows of each, whatever the names and values.
use rowset_studio.Common.{
  ℕ, ◌≤◌, ◌≡◌, refl, ap, ◌∙◌, Bool, true, false, not, ◌&&◌, ◌||◌, List, [], ◌∷◌, ◌++◌, map, Bytes,
  codes, is_word, if◌then◌else◌, length, join, arith, Bool-cases, inl, inr,
}
use rowset_studio.SqlGuard.Types.{Runtime, to_lower}
use rowset_studio.Quoting.{qualified_table}
use rowset_studio.RowBackup.Restore.{
  BackupValue, RowBackup, RowBackupPayload, RestorePlan, keep_if, in_name_set, writable, equals,
  assignments_of, condition, conditions_of, add_update, update_rows, restore_plan,
}

abbrev pub keep {ℓ} : {A : Type ℓ} → (A → Bool) → List A → List A
keep p [] = []
keep p (x ∷ xs) = if p x then x ∷ keep p xs else keep p xs

abbrev pub concat {ℓ} : {A : Type ℓ} → List (List A) → List A
concat [] = []
concat (xs ∷ xss) = xs ++ concat xss

abbrev pub none_of {ℓ} : {A : Type ℓ} → List A → Bool
none_of [] = true
none_of (x ∷ xs) = false

abbrev pub OfAtMost : {A : Type 0} → ℕ → List A → Type 0
OfAtMost n rows = (1 ≤ length rows) × (length rows ≤ n)

keep_if-map :
    {A : Type 0} (f : A → Bytes) (b : Bool) (x : A) (xs : List A) (ys : List Bytes)
    → ys ≡ map f xs
    → keep_if b (f x) ys ≡ map f (if b then x ∷ xs else xs)
keep_if-map f true x xs ys h = ap (λ t. f x ∷ t) h
keep_if-map f false x xs ys h = h

add_update-none :
    {A : Type 0} (table : Bytes) (f g : A → Bytes) (xs ys : List A) (rest : RestorePlan)
    → none_of ys || none_of xs ≡ true
    → add_update table (map f xs) (map g ys) rest ≡ rest
unfolding add_update
add_update-none table f g [] ys rest h = refl
add_update-none table f g (x ∷ xs) [] rest h = refl
add_update-none table f g (x ∷ xs) (y ∷ ys) rest h = ground arith

add_update-each :
    {A : Type 0} (table : Bytes) (f g : A → Bytes) (xs ys : List A) (rest : RestorePlan)
    → none_of ys || none_of xs ≡ false
    → (let clause = codes " WHERE " ++ join (codes " AND ") (map g ys) in
        add_update table (map f xs) (map g ys) rest ≡ record {
          statements =
              (codes "UPDATE "
                ++ (table ++ (codes " SET " ++ (join (codes ", ") (map f xs) ++ clause))))
              ∷ rest.statements;
          probes = (codes "SELECT 1 FROM " ++ (table ++ clause)) ∷ rest.probes;
          identity_insert = false;
        })
unfolding add_update
add_update-each table f g (x ∷ xs) (y ∷ ys) rest h = refl
add_update-each table f g [] [] rest h = ground arith
add_update-each table f g [] (y ∷ ys) rest h = ground arith
add_update-each table f g (x ∷ xs) [] rest h = ground arith

module _ (rt : Runtime) (engine : Bytes) (payload : RowBackupPayload) where
  -- The columns that find a row, and those that a restore writes.
  unfoldable pub is_key : ℕ × Bytes → Bool
  unfolding in_name_set to_lower
  is_key column = in_name_set rt payload.key (to_lower rt column.1)

  unfoldable pub is_written : ℕ × Bytes → Bool
  unfolding in_name_set to_lower is_key
  is_written column =
      not (is_key column) && not (in_name_set rt payload.identity (to_lower rt column.1))

  unfoldable pub clause_of : List BackupValue → Bytes
  unfolding writable condition is_key
  clause_of row =
      codes " WHERE "
      ++ join (codes " AND ")
          (map (condition rt engine payload row) (keep is_key (writable rt engine payload)))

  conditions_of-keep :
      (row : List BackupValue) (columns : List (ℕ × Bytes))
      → conditions_of rt engine payload row columns
        ≡ map (condition rt engine payload row) (keep is_key columns)
  unfolding conditions_of is_key
  conditions_of-keep row [] = refl
  conditions_of-keep row (column ∷ columns) =
      keep_if-map (condition rt engine payload row) (is_key column) column (keep is_key columns)
        (conditions_of rt engine payload row columns) (conditions_of-keep row columns)

  assignments_of-keep :
      (row : List BackupValue) (columns : List (ℕ × Bytes))
      → assignments_of rt engine payload row columns
        ≡ map (equals rt engine payload row) (keep is_written columns)
  unfolding assignments_of is_written is_key
  assignments_of-keep row [] = refl
  assignments_of-keep row (column ∷ columns) =
      keep_if-map (equals rt engine payload row) (is_written column) column
        (keep is_written columns) (assignments_of rt engine payload row columns)
        (assignments_of-keep row columns)

  unfoldable pub update_of : Bytes → List BackupValue → Bytes
  unfolding writable equals is_written clause_of join
  update_of table row =
      codes "UPDATE "
      ++ (table
          ++ (codes " SET "
              ++ (join (codes ", ") (
                    map (equals rt engine payload row)
                      (keep is_written (writable rt engine payload)))
                  ++ clause_of row)))

  unfoldable pub probe_of : Bytes → List BackupValue → Bytes
  unfolding clause_of
  probe_of table row = codes "SELECT 1 FROM " ++ (table ++ clause_of row)

  -- One statement and one probe for each row, in the rows' order.
  abbrev pub UpdatePlan : Bytes → List (List BackupValue) → RestorePlan
  UpdatePlan table rows = record {
    statements = map (update_of table) rows;
    probes = map (probe_of table) rows;
    identity_insert = false;
  }

  update_rows-none :
      (table : Bytes) (rows : List (List BackupValue))
      → none_of (keep is_key (writable rt engine payload))
          || none_of (keep is_written (writable rt engine payload))
        ≡ true
      → update_rows rt engine payload table rows
        ≡ record { statements = []; probes = []; identity_insert = false }
  unfolding update_rows
  update_rows-none table [] h = refl
  update_rows-none table (row ∷ rows) h =
      rw
        (
          update_rows,
          assignments_of-keep row (writable rt engine payload),
          conditions_of-keep row (writable rt engine payload),
        )
        (add_update-none table (equals rt engine payload row) (condition rt engine payload row)
            (keep is_written (writable rt engine payload))
            (keep is_key (writable rt engine payload)) (update_rows rt engine payload table rows) h
          ∙ update_rows-none table rows h)

  update_rows-each :
      (table : Bytes) (rows : List (List BackupValue))
      → none_of (keep is_key (writable rt engine payload))
          || none_of (keep is_written (writable rt engine payload))
        ≡ false
      → update_rows rt engine payload table rows ≡ UpdatePlan table rows
  unfolding update_rows update_of probe_of clause_of
  update_rows-each table [] h = refl
  update_rows-each table (row ∷ rows) h =
      rw
        (
          update_rows,
          assignments_of-keep row (writable rt engine payload),
          conditions_of-keep row (writable rt engine payload),
          update_rows-each table rows h,
        )
        (add_update-each table (equals rt engine payload row) (condition rt engine payload row)
          (keep is_written (writable rt engine payload)) (keep is_key (writable rt engine payload))
          (UpdatePlan table rows) h)

  -- The plan for a backup that is no DELETE's: with no column of the key or none to write among the
  -- columns that are not generated, nothing; else for each row, in order, one UPDATE and one probe.
  -- Of
  -- these columns, the UPDATE writes exactly those that are neither of the key nor of an identity, and
  -- both find the row by exactly those of the key; so a generated column of the key is compared by
  -- none of them.
  pub restore_plan-update_rows :
      (item : RowBackup)
      → is_word item.kind "delete" ≡ false
      → restore_plan rt engine payload item ≡ (
          if none_of (keep is_key (writable rt engine payload))
            || none_of (keep is_written (writable rt engine payload))
          then record { statements = []; probes = []; identity_insert = false }
          else UpdatePlan (qualified_table rt engine item.schema item.table) payload.rows)
  unfolding restore_plan
  restore_plan-update_rows item h =
      let table = qualified_table rt engine item.schema item.table in
      elim (Bool-cases (
        none_of (keep is_key (writable rt engine payload))
        || none_of (keep is_written (writable rt engine payload)))) [
          | inl e ↦ rw (h, e) (update_rows-none table payload.rows e)
          | inr e ↦ rw (h, e) (update_rows-each table payload.rows e)
        ]
