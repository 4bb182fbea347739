-- ===== src/Audit/Database.antt =====
-- What rowset-core/internal/store/audit.go asks of its SQLite database, as operations and laws:
-- the two queries, the inserts and the transaction.
use rowset_studio.Common.{
  ℤ, ◌≡◌, Bool, Option, none, some, List, [], ◌∷◌, ◌++◌, Bytes, bytes_eq, if◌then◌else◌,
}
use rowset_studio.Audit.Entry.{Row, text}

pub record QueryHistory : Type 0 where
  pub id : Bytes
  pub user_id : Bytes
  pub connection_id : Bytes
  pub sql : Bytes
  pub normalized_sql : Bytes
  pub query_hash : Bytes
  pub status : Bytes
  pub rows_returned : ℤ
  pub duration_ms : ℤ
  pub created_at : Bytes

-- The rows of one organization, in their order.
unfoldable pub of_org : Bytes → List Row → List Row
of_org org [] = []
of_org org (row ∷ rows) =
    let rest = of_org org rows in if bytes_eq (text row.org_id) org then row ∷ rest else rest

-- The row as far as `auditChainScanQuery` selects it: its organization and its hash are not NULL.
unfoldable pub scanned : Row → List Row
scanned row = elim row.org_id [
  | none ↦ []
  | some org ↦ elim row.entry_hash [ none ↦ [] | some hash ↦ row ∷ [] ]
]

-- The hash of the last row, or none.
unfoldable pub last_hash : Option Bytes → List Row → Option Bytes
last_hash hash [] = hash
last_hash hash (row ∷ rows) = last_hash row.entry_hash rows

-- The operations; where a result is an option, `none` is an error of the database.
pub record Database : Type 1 where
  pub Db : Type 0
  -- "BEGIN IMMEDIATE" and "COMMIT": whether they succeed.
  pub begin : Db → Bool
  pub commit : Db → Bool
  -- `auditChainQuery`: no row, or a hash.
  pub head : Db → Bytes → Option (Option Bytes)
  pub insert_audit : Db → Row → Option Db
  pub insert_history : Db → QueryHistory → Option Db
  -- `auditChainScanQuery`.
  pub scan : Db → List Row

-- What the source relies on, for each organization: the query for the head reads the hash that the
-- scan reads last, an inserted row is the last of the scan, and history is stored elsewhere.
pub record Laws (d : Database) : Type 0 where
  pub head-scan :
      (db : d.Db) (org : Bytes) (answer : Option Bytes)
      → d.head db org ≡ some answer
      → text answer ≡ text (last_hash none (of_org org (d.scan db)))
  pub insert_audit-scan :
      (db : d.Db) (row : Row) (after : d.Db) (org : Bytes)
      → d.insert_audit db row ≡ some after
      → of_org org (d.scan after) ≡ of_org org (d.scan db) ++ of_org org (scanned row)
  pub insert_history-scan :
      (db : d.Db) (history : QueryHistory) (after : d.Db)
      → d.insert_history db history ≡ some after
      → d.scan after ≡ d.scan db
