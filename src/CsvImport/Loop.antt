-- ===== src/CsvImport/Loop.antt =====
-- The loop of `runImport` over the records: rowset-core/internal/api/csvimport.go.
use rowset_studio.Common.{
  ℕ, suc, ◌==◌, ◌≤◌, ◌<◌, ◌≡◌, refl, sym, ap, subst, ◌∙◌, Bool, ◌&&◌, ◌||◌, Option, none, some,
  List, [], ◌∷◌, ◌++◌, Bytes, length, leb, if◌then◌else◌, Bool-cases, Option-cases, inl, inr, arith,
}
use rowset_studio.Activity.Order.{append-append, append-nil}
use rowset_studio.SqlGuard.Types.{Runtime}
use rowset_studio.CsvImport.{
  ImportInput, Transactions, import_batch_rows, import_batch_bytes, is_blank, without_mark, Import,
  ended, add_row, flush_full, import_record, import_loop,
}
use rowset_studio.CsvImport.Batches.{all_read, Holds, add_row-Holds, flush-Holds}

module _ (runtime : Runtime) (d : Transactions) (input : ImportInput) (prefix : Bytes) where
  flush_full-Holds :
      (first : d.Tx) (s after : Import runtime d input prefix) (rows : List (List Bytes))
      → Holds runtime d input prefix first s rows
      → s.batch_rows ≤ 500
      → flush_full runtime d input prefix s ≡ some after
      → Holds runtime d input prefix first after rows
        × (after.batch_rows < 500)
        × (after.line ≡ s.line)
  unfolding flush_full
  flush_full-Holds first s after rows h small e =
      elim (Bool-cases
        (leb import_batch_rows s.batch_rows || leb import_batch_bytes (length s.batch))) [
          | inl full ↦
              let (held, none_left, line) =
                flush-Holds runtime d input prefix first s after rows h small (rw full at e) in
              (held, omega arith, line)
          | inr room ↦
              let same : s ≡ after = ground (arith, room, e) in
              subst
                (λ t.
                  Holds runtime d input prefix first t rows
                  × (t.batch_rows < 500)
                  × (t.line ≡ s.line))
                same (h, ground (arith, room), refl)
        ]

  -- The record of a turn, without the mark if it is the first.
  unfoldable pub clean : ℕ → List Bytes → List Bytes
  clean line r = if line == 0 then without_mark r else r

  unfoldable pub skipped : ℕ → List Bytes → Bool
  unfolding clean is_blank
  skipped line r = (line == 0 && input.header) || is_blank (clean line r)

  -- The rows of the records behind a line.
  unfoldable pub rows_from : ℕ → List (List Bytes) → List (List Bytes)
  unfolding clean skipped
  rows_from line [] = []
  rows_from line (r ∷ rs) =
      if skipped line r then rows_from (suc line) rs else clean line r ∷ rows_from (suc line) rs

  import_record-Holds :
      (first : d.Tx) (s after : Import runtime d input prefix) (rows : List (List Bytes))
      (r : List Bytes)
      → Holds runtime d input prefix first s rows
      → s.batch_rows < 500
      → import_record runtime d input prefix s r ≡ some after
      → Holds runtime d input prefix first after
          (if skipped s.line r then rows else rows ++ (clean s.line r ∷ []))
        × (after.batch_rows < 500)
        × (after.line ≡ suc s.line)
  unfolding import_record skipped clean
  import_record-Holds first s after rows r h small e =
      let read = record s { line = suc s.line } in
      let held : Holds runtime d input prefix first read rows = record {
        groups = h.groups;
        waiting = h.waiting;
        sent = h.sent;
        sizes = h.sizes;
        batch = h.batch;
        count = h.count;
        total = h.total;
        same = h.same;
      } in
      elim (Bool-cases (skipped s.line r)) [
        | inl skip ↦
            let same : read ≡ after = ground (arith, skip, e) in
            rw skip (
              subst
                (λ t.
                  Holds runtime d input prefix first t rows
                  × (t.batch_rows < 500)
                  × (t.line ≡ suc s.line))
                same (held, small, refl))
        | inr take ↦ rw take (
            flush_full-Holds first (add_row runtime d input prefix read (clean s.line r)) after
              (rows ++ (clean s.line r ∷ []))
              (add_row-Holds runtime d input prefix first read rows (clean s.line r) held) small
              (rw take at e))
      ]

  rows_from-append :
      (line : ℕ) (r : List Bytes) (rows rs : List (List Bytes))
      → (if skipped line r then rows else rows ++ (clean line r ∷ [])) ++ rows_from (suc line) rs
        ≡ rows ++ rows_from line (r ∷ rs)
  unfolding rows_from
  rows_from-append line r rows rs = elim (Bool-cases (skipped line r)) [
    | inl skip ↦ rw skip refl
    | inr take ↦ rw take (append-append rows (clean line r ∷ []) (rows_from (suc line) rs))
  ]

  pub import_loop-Holds :
      (first : d.Tx) (s after : Import runtime d input prefix) (rows : List (List Bytes))
      (records : List (Option (List Bytes)))
      → Holds runtime d input prefix first s rows
      → s.batch_rows < 500
      → import_loop runtime d input prefix s records ≡ ended after
      → (rs : List (List Bytes)) × (all_read records ≡ some rs)
        × Holds runtime d input prefix first after (rows ++ rows_from s.line rs)
        × (after.batch_rows < 500)
  unfolding import_loop all_read rows_from
  import_loop-Holds first s after rows [] h small e =
      let same : s ≡ after = ground (arith, e) in
      let (held, less) =
        subst
          (λ t.
            Holds runtime d input prefix first t (rows ++ rows_from s.line [])
            × (t.batch_rows < 500))
          same (subst (Holds runtime d input prefix first s) (sym (append-nil rows)) h, small) in
      ([], refl, held, less)
  import_loop-Holds first s after rows (none ∷ rest) h small e = absurd (ground (arith, e))
  import_loop-Holds first s after rows (some r ∷ rest) h small e =
      elim (Option-cases (import_record runtime d input prefix s r)) [
        | inl n ↦ absurd (ground (arith, n, e))
        | inr (mid, m) ↦
            let (held, less, line) = import_record-Holds first s mid rows r h small m in
            let (rs, read, done, small') =
              import_loop-Holds first mid after _ rest held less (ground (arith, m, e)) in
            (
              r ∷ rs,
              rw read refl,
              subst (Holds runtime d input prefix first after)
                  (ap
                      (λ l.
                        (if skipped s.line r then rows else rows ++ (clean s.line r ∷ []))
                        ++ rows_from l rs)
                      line
                    ∙ rows_from-append s.line r rows rs)
                  done,
              small',
            )
      ]
