-- ===== src/CsvImport/Rows.antt =====
-- What an import stores: every row of the file, or nothing. `runImport` of
-- rowset-core/internal/api/csvimport.go.
use rowset_studio.Common.{
  ℕ, suc, ◌≡◌, ◌≢◌, refl, sym, ap, subst, ◌∙◌, Option, none, some, List, [], ◌∷◌, ◌++◌, Bytes, map,
  length, All, Bool-cases, Option-cases, inl, inr, arith,
}
use rowset_studio.Activity.Order.{append-nil}
use rowset_studio.SqlGuard.Types.{Runtime}
use rowset_studio.CsvImport.{
  ImportInput, Transactions, Outcome, imported, bad_csv, statement_failed, not_begun, not_committed,
  Import, LoopEnd, ended, stopped, flush, import_record, import_loop, finish_import, run_import,
}
use rowset_studio.CsvImport.Batches.{
  all_read, with_values, rows_of, concat, nothing_waits, insert_text, execute_all, batch_text,
  Sized, Holds, flush-Holds,
}
use rowset_studio.CsvImport.Loop.{clean, skipped, rows_from, import_loop-Holds}

module _ (runtime : Runtime) (d : Transactions) (input : ImportInput) (prefix : Bytes) where
  with_values-rows_from :
      (line : ℕ) (rs : List (List Bytes))
      → rows_from runtime d input prefix (suc line) rs ≡ with_values rs
  unfolding rows_from skipped clean with_values
  with_values-rows_from line [] = refl
  with_values-rows_from line (r ∷ rs) = ground (arith, with_values-rows_from (suc line) rs)

  rows_of-rows_from :
      (rs : List (List Bytes)) → rows_from runtime d input prefix 0 rs ≡ rows_of input.header rs
  unfolding rows_from skipped clean rows_of with_values
  rows_of-rows_from [] = refl
  rows_of-rows_from (r ∷ rs) = elim (Bool-cases input.header) [
    | inl yes_header ↦ rw yes_header (with_values-rows_from 0 rs)
    | inr no_header ↦ ground (arith, no_header, with_values-rows_from 0 rs)
  ]

  -- The whole file is stored, in INSERTs of 1 to 500 rows.
  abbrev pub Imported : d.Db → d.Db → List (Option (List Bytes)) → ℕ → Type 0
  Imported db after records count =
      (rs : List (List Bytes)) × (groups : List (List (List Bytes))) × (first : d.Tx)
      × (last : d.Tx) × (all_read records ≡ some rs)
      × (concat groups ≡ rows_of input.header rs)
      × (count ≡ length (rows_of input.header rs))
      × All (Sized runtime d input prefix) groups
      × (d.begin db ≡ some first)
      × (execute_all runtime d input prefix first (map (insert_text runtime d input prefix) groups)
          ≡ some last)
      × (d.commit last ≡ some after)

  abbrev pub AllOrNothing : d.Db → List (Option (List Bytes)) → d.Db × Outcome → Type 0
  AllOrNothing db records (after, imported count) = Imported db after records count
  AllOrNothing db records (after, bad_csv line) = after ≡ db
  AllOrNothing db records (after, statement_failed line) = after ≡ db
  AllOrNothing db records (after, not_begun) = after ≡ db
  AllOrNothing db records (after, not_committed) = after ≡ db

  abbrev start : d.Tx → Import runtime d input prefix
  start first = record { transaction = first; batch = []; batch_rows = 0; rows = 0; line = 0 }

  start-Holds : (first : d.Tx) → Holds runtime d input prefix first (start first) []
  unfolding execute_all batch_text concat
  start-Holds first = record {
    groups = [];
    waiting = [];
    sent = refl;
    sizes = tt;
    batch = refl;
    count = refl;
    total = refl;
    same = refl;
  }

  -- The loop stops for an error only.
  stopped-ne-imported :
      (s : Import runtime d input prefix) (records : List (Option (List Bytes))) (count : ℕ)
      → import_loop runtime d input prefix s records ≢ stopped (imported count)
  unfolding import_loop
  stopped-ne-imported s [] count e = ground (arith, e)
  stopped-ne-imported s (none ∷ rest) count e = ground (arith, e)
  stopped-ne-imported s (some r ∷ rest) count e =
      elim (Option-cases (import_record runtime d input prefix s r)) [
        | inl n ↦ ground (arith, n, e)
        | inr (mid, m) ↦ stopped-ne-imported mid rest count (ground (arith, m, e))
      ]

  committed :
      (db after : d.Db) (first : d.Tx) (s flushed : Import runtime d input prefix)
      (records : List (Option (List Bytes)))
      → d.begin db ≡ some first
      → import_loop runtime d input prefix (start first) records ≡ ended s
      → flush runtime d input prefix s ≡ some flushed
      → d.commit flushed.transaction ≡ some after
      → Imported db after records flushed.rows
  committed db after first s flushed records b l f c =
      let (rs, read, held, less) =
        import_loop-Holds runtime d input prefix first (start first) s [] records
          (start-Holds first) (omega arith) l in
      let (h, empty, _) =
        flush-Holds runtime d input prefix first s flushed (rows_from runtime d input prefix 0 rs)
          held (omega arith) f in
      let no_more = nothing_waits h.waiting (omega (arith, empty, h.count)) in
      (
        rs,
        h.groups,
        first,
        flushed.transaction,
        read,
        sym (append-nil (concat h.groups))
            ∙ (ap (λ w. concat h.groups ++ w) (sym no_more) ∙ (sym h.same ∙ rows_of-rows_from rs)),
        h.total ∙ ap length (rows_of-rows_from rs),
        h.sizes,
        b,
        h.sent,
        c,
      )

  finish-AllOrNothing :
      (db : d.Db) (first : d.Tx) (records : List (Option (List Bytes)))
      (l : LoopEnd runtime d input prefix)
      → d.begin db ≡ some first
      → import_loop runtime d input prefix (start first) records ≡ l
      → AllOrNothing db records (finish_import runtime d input prefix db l)
  unfolding finish_import
  finish-AllOrNothing db first records (stopped (imported count)) b e =
      absurd (stopped-ne-imported (start first) records count e)
  finish-AllOrNothing db first records (stopped (bad_csv line)) b e = refl
  finish-AllOrNothing db first records (stopped (statement_failed line)) b e = refl
  finish-AllOrNothing db first records (stopped not_begun) b e = refl
  finish-AllOrNothing db first records (stopped not_committed) b e = refl
  finish-AllOrNothing db first records (ended s) b e =
      let result = finish_import runtime d input prefix db (ended s) in
      let goal = AllOrNothing db records in
      elim (Option-cases (flush runtime d input prefix s)) [
        | inl n ↦
            subst goal (let x : (db, statement_failed s.line) ≡ result = ground (arith, n) in x)
              refl
        | inr (flushed, f) ↦ elim (Option-cases (d.commit flushed.transaction)) [
          | inl n ↦
              subst goal (let x : (db, not_committed) ≡ result = ground (arith, f, n) in x) refl
          | inr (after, c) ↦
              subst goal
                (let x : (after, imported flushed.rows) ≡ result = ground (arith, f, c) in x)
                (committed db after first s flushed records b e f c)
        ]
      ]

  -- An import that ends with a count has read the whole file, and has committed INSERTs of 1 to 500
  -- rows that are together the rows of the file in their order, as many as it counts; and an import
  -- that ends otherwise leaves the database as it was: for every database whose transactions change
  -- it at their commit only.
  pub run_import-AllOrNothing :
      (db : d.Db) (records : List (Option (List Bytes)))
      → AllOrNothing db records (run_import runtime d input prefix db records)
  unfolding run_import
  run_import-AllOrNothing db records =
      let result = run_import runtime d input prefix db records in
      let goal = AllOrNothing db records in
      elim (Option-cases (d.begin db)) [
        | inl n ↦ subst goal (let x : (db, not_begun) ≡ result = ground (arith, n) in x) refl
        | inr (first, b) ↦
            let done =
              finish_import runtime d input prefix db
                (import_loop runtime d input prefix (start first) records) in
            subst goal (let x : done ≡ result = ground (arith, b) in x) (
              finish-AllOrNothing db first records
                (import_loop runtime d input prefix (start first) records) b refl)
      ]
