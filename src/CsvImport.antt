-- ===== src/CsvImport.antt =====
-- `runImport` of rowset-core/internal/api/csvimport.go, from the columns of the request to the commit.
-- What csv.Reader reads is a list of records, `none` where it returns an error; the database and its
-- transactions are an interface.
pub mod Batches
pub mod Loop
pub mod Rows
use rowset_studio.Common.{
  ℕ, suc, ◌+◌, ◌*◌, ◌==◌, Bool, true, false, not, ◌&&◌, ◌||◌, Option, none, some, List, [], ◌∷◌,
  ◌++◌, Bytes, codes, bytes_eq, map, any, length, drop, get_elem?, join, trim_space, trim_prefix,
  leb, if◌then◌else◌, ℤ, pos, negsuc,
}
use rowset_studio.SqlGuard.Types.{Runtime, to_lower}
use rowset_studio.Quoting.{quote_identifier, hex_text, hex_literal, import_literal}

-- `importColumn`.
pub record ImportColumn : Type 0 where
  pub source : ℤ
  pub target : Bytes

-- `importInput` as far as the loop reads it, with the columns that take hex as bytes.
pub record ImportInput : Type 0 where
  pub engine : Bytes
  pub header : Bool
  pub null_empty : Bool
  pub columns : List ImportColumn
  pub hex_columns : List Bool

-- Transactions; `none` is an error. One that is not committed leaves its database as it was.
pub record Transactions : Type 1 where
  pub Db : Type 0
  pub Tx : Type 0
  pub begin : Db → Option Tx
  pub execute : Tx → Bytes → Option Tx
  pub commit : Tx → Option Db

-- `importBatchRows` and `importBatchBytes`.
abbrev pub import_batch_rows : ℕ
import_batch_rows = 500

abbrev pub import_batch_bytes : ℕ
import_batch_bytes = 512 * 1024

pub data Outcome : Type 0 where
  imported bad_csv statement_failed : ℕ → Outcome
  not_begun not_committed : Outcome

abbrev pub is_empty : Bytes → Bool
is_empty [] = true
is_empty (c ∷ cs) = false

-- `record[column.Source]`, or nothing where the record is too short.
unfoldable pub value_at : List Bytes → ℤ → Bytes
value_at record_ (pos n) = elim (get_elem? record_ n) [ none ↦ [] | some value ↦ value ]
value_at record_ (negsuc n) = []

-- A record that is one empty field.
unfoldable pub is_blank : List Bytes → Bool
is_blank [] = false
is_blank (value ∷ []) = is_empty value
is_blank (value ∷ next ∷ rest) = false

-- The byte order mark in UTF-8.
abbrev pub byte_order_mark : Bytes
byte_order_mark = 0xEF ∷ 0xBB ∷ 0xBF ∷ []

unfoldable pub without_mark : List Bytes → List Bytes
unfolding trim_prefix
without_mark [] = []
without_mark (value ∷ rest) = trim_prefix value byte_order_mark ∷ rest

module _ (runtime : Runtime) where
  -- The names of the columns: none of them blank or twice, all from a column of the file.
  unfoldable pub column_names : Bytes → List Bytes → List ImportColumn → Option (List Bytes)
  unfolding trim_space bytes_eq
  column_names engine seen [] = some []
  column_names engine seen (column ∷ columns) =
      let key = to_lower runtime (trim_space column.target) in
      let rest = column_names engine (key ∷ seen) columns in
      let name = quote_identifier runtime engine (trim_space column.target) in
      elim column.source [
        | negsuc n ↦ none
        | pos n ↦
            if is_empty key || any (bytes_eq key) seen
            then none
            else elim rest [ none ↦ none | some names ↦ some (name ∷ names) ]
      ]

  unfoldable pub insert_prefix : Bytes → Bytes → Bytes → List Bytes → Bytes
  unfolding join
  insert_prefix engine schema table names =
      codes "INSERT INTO "
      ++ ((if is_empty schema
            then quote_identifier runtime engine table
            else quote_identifier runtime engine schema
              ++ (b'.' ∷ quote_identifier runtime engine table))
          ++ (codes " (" ++ (join (codes ", ") names ++ codes ") VALUES ")))

  -- One value of a row.
  unfoldable pub import_value : ImportInput → Bool → Bytes → Bytes
  unfolding hex_text
  import_value input takes_hex value =
      if is_empty value && input.null_empty
      then codes "NULL"
      else if takes_hex && hex_text value
      then hex_literal runtime input.engine (drop 2 value)
      else import_literal runtime input.engine value

  unfoldable pub import_values :
      ImportInput → List ImportColumn → List Bool → List Bytes → List Bytes
  unfolding import_value value_at
  import_values input [] hex record_ = []
  import_values input (column ∷ columns) [] record_ =
      import_value input false (value_at record_ column.source)
      ∷ import_values input columns [] record_
  import_values input (column ∷ columns) (takes_hex ∷ hex) record_ =
      import_value input takes_hex (value_at record_ column.source)
      ∷ import_values input columns hex record_

  unfoldable pub row_text : ImportInput → List Bytes → Bytes
  unfolding import_values join
  row_text input record_ =
      b'('
      ∷ (join (codes ", ") (import_values input input.columns input.hex_columns record_)
          ++ (b')' ∷ []))

  module _ (d : Transactions) (input : ImportInput) (prefix : Bytes) where
    -- The locals of the loop.
    pub record Import : Type 0 where
      pub transaction : d.Tx
      pub batch : Bytes
      pub batch_rows : ℕ
      pub rows : ℕ
      pub line : ℕ

    pub data LoopEnd : Type 0 where
      ended : Import → LoopEnd
      stopped : Outcome → LoopEnd

    -- `flush`.
    unfoldable pub flush : Import → Option Import
    flush s = if s.batch_rows == 0 then some s else elim (d.execute s.transaction s.batch) [
      | none ↦ none
      | some after ↦ some (record s { transaction = after; batch = []; batch_rows = 0 })
    ]

    unfoldable pub add_row : Import → List Bytes → Import
    unfolding row_text
    add_row s record_ = record s {
      batch =
          s.batch ++ ((if s.batch_rows == 0 then prefix else codes ", ") ++ row_text input record_);
      batch_rows = suc s.batch_rows;
      rows = suc s.rows;
    }

    unfoldable pub flush_full : Import → Option Import
    unfolding flush
    flush_full s =
        if leb import_batch_rows s.batch_rows || leb import_batch_bytes (length s.batch)
        then flush s
        else some s

    -- One turn of the loop behind `Read`; `none` if the database refuses the batch.
    unfoldable pub import_record : Import → List Bytes → Option Import
    unfolding without_mark is_blank add_row flush_full
    import_record s record_ =
        let read = record s { line = suc s.line } in
        let clean = if s.line == 0 then without_mark record_ else record_ in
        if (s.line == 0 && input.header) || is_blank clean
        then some read
        else flush_full (add_row read clean)

    unfoldable pub import_loop : Import → List (Option (List Bytes)) → LoopEnd
    import_loop s [] = ended s
    import_loop s (none ∷ rest) = stopped (bad_csv (suc s.line))
    import_loop s (some record_ ∷ rest) = elim (import_record s record_) [
      | none ↦ stopped (statement_failed (suc s.line))
      | some after ↦ import_loop after rest
    ]

    unfoldable pub finish_import : d.Db → LoopEnd → d.Db × Outcome
    unfolding flush
    finish_import db (stopped outcome) = (db, outcome)
    finish_import db (ended s) = elim (flush s) [
      | none ↦ (db, statement_failed s.line)
      | some flushed ↦ elim (d.commit flushed.transaction) [
        | none ↦ (db, not_committed)
        | some after ↦ (after, imported flushed.rows)
      ]
    ]

    -- The database behind the import, and how it ended.
    unfoldable pub run_import : d.Db → List (Option (List Bytes)) → d.Db × Outcome
    unfolding import_loop finish_import
    run_import db records = elim (d.begin db) [
      | none ↦ (db, not_begun)
      | some transaction ↦ finish_import db (
          import_loop
            (record { transaction = transaction; batch = []; batch_rows = 0; rows = 0; line = 0 })
            records)
    ]
