-- ===== src/Lib.antt =====
-- Rowset Studio: the SQL analysis, the guardrails and policies, the activity and audit log, the row
-- backups, the open transactions, the schedules, the CSV import, the caches of the engines, the
-- sign-in tokens and the access checks of rowset-core.
--
-- How the parts interact. A statement or a script arrives as text. `ParseDialect` answers from a
-- sharded cache or parses the text: `LexDialect` cuts it into tokens, `splitStatements` into
-- statements, `classifyStatement` reads each of them as an `Info`, and `mergeScript` folds the
-- Infos of a script into one. `resolvePolicies` and `policy.Evaluate` with `applyCustomPolicies`
-- decide from that Info. Before an UPDATE or DELETE runs, `backupTargetOf` says which rows are saved,
-- and `restorePlan` writes the statements that put them back, in the spelling of `QuoteIdentifier`
-- and `importLiteral`. What ran goes through the queue of `Buffered` and is recorded by
-- `WriteActivity`, which chains the entries of each organization by hashes that
-- `VerifyAuditChain` walks. Before any of that, `canUseConnection` says who may use a connection.
-- `applyRowBackup` runs the plan of a backup under the same policies, and `runImport` writes the rows
-- of a file; each is one transaction. `runOnConnections` runs a script on several connections. A statement that may change the catalog invalidates the cached
-- schemas of its connection.
-- A scheduled query runs at the times that `next` of its `scheduleSpec` gives.
--
-- Which file models what:
--   Common, Common/*         Go's strings as lists of bytes, lists, Boolean tests on numbers,
--                            strconv.Atoi
--   SqlGuard/Types           rowset-core/sqlguard/parser.go: Kind, Dialect, Token, TableRef, Info
--   SqlGuard/Lexer           LexDialect; Lexer/Scan has its inner loops, Extent, Total, Turns, Spans
--                            and Nesting have the proofs on it
--   SqlGuard/Split           splitStatements, routineDefinition
--   SqlGuard/Constant        constantBoolean, whereIsTautology, writesHaveEffectiveWhere
--   SqlGuard/Tables          extractTables
--   SqlGuard/Classify,       classifyStatement and its passes; Effects has those on the session,
--   Effects                  the transaction and the tables
--   SqlGuard/Script          mergeScript, parseDialect
--   SqlGuard/Cache           ParseDialect with parseCacheIndex and cacheParsed
--   SqlGuard/Cql             ParseCQL of rowset-core/sqlguard/cql.go
--   SqlGuard/Readings        DialectForEngine, Normalize, ExactHash, SecondarySafe
--   Policy                   Evaluate of rowset-core/internal/policy/policy.go
--   Governance/Clock,        applyCustomPolicies of rowset-core/internal/api/query.go; Blocks,
--   Custom                   Limits, Blocking and Outcome have the proofs
--   Governance/Overrides     resolvePolicies of rowset-core/internal/api/query.go
--   Governance/Verdict       EvaluateStatement and ExecuteDeferred of
--                            rowset-core/internal/api/escalation.go, openGovernedSelect of
--                            rowset-core/internal/api/scheduler.go: their decisions
--   Quoting                  QuoteIdentifier of rowset-core/internal/engine/ddl.go and the literals of
--                            rowset-core/internal/api/csvimport.go; Scanned, Tokens and Roundtrip
--                            have the proofs
--   RowBackup/Target,        rowset-core/internal/api/rowbackup.go: backupTargetOf, assignedColumns,
--   Restore, Apply           backupSelectList; restoreLiteral, restorePlan; applyRowBackup
--   Activity                 rowset-core/internal/activity/activity.go: the steps of senders, the
--                            writer and Close; Order, Barriers, Bounds and Drain have the proofs
--   Transactions             rowset-core/internal/api/transactions.go: the table of transactions;
--                            Finish has the end of one, Claims the steps of all requests
--   SchemaCache              CachedSchema and InvalidateSchema of
--                            rowset-core/internal/engine/schemacache.go, as steps; Serves and Fresh
--                            have the proofs
--   OriginCache              rowset-core/internal/engine/origincache.go; Sound, Fitting and
--                            Bounded have the proofs
--   CsvImport                runImport of rowset-core/internal/api/csvimport.go; Batches, Loop and Rows
--                            have the proofs
--   Auth                     Issue and Verify of rowset-core/internal/auth/auth.go; Verified and Issued
--                            have the proofs
--   MultiRun                 runOnConnections and runTarget of rowset-core/internal/api/multirun.go, as
--                            steps; Targets, Going and Ended have the proofs
--   Recording                the activity buffer over the database of the audit log; Rows and Flushed
--                            have the proofs
--   Schedules                scheduleSpec of rowset-core/internal/api/schedule.go; NextRun has the proof
--   Schedules/Runs           the scheduler of rowset-core/internal/api/scheduler.go, as steps; Ordered,
--                            Once, Later and Reached have the proofs
--   Audit/Entry, Verify,     rowset-core/internal/store/audit.go, and AuditLog and QueryHistory of
--   Write                    rowset-core/internal/domain/models.go
--   Audit/Database           the SQLite database that the audit log is written to, as an interface
--   Access                   rowset-core/internal/api/access.go
--   Tests/*                  runs, and the theorems at concrete inputs
--
-- Correspondence. A string is the list of its bytes, an offset a native number. A Go map is an
-- association list where it is bounded and a function where only its look-ups matter. A function
-- that returns a value beside an error returns both; one that returns nothing beside it returns a
-- Result or an Option. The fields of a record are those of the struct. The mutable locals of a loop
-- are the arguments of a function by recursion; a loop that scans ahead in the token slice is a
-- function of the tokens that remain.
--
-- Parameters. `Runtime` holds what depends on Unicode tables or on floating point: the mapping of
-- text that is not ASCII and strconv.ParseFloat. `digest` is SHA-256 in hexadecimal. `Database`
-- holds the operations on SQLite, `Laws` what the source relies on. `Access` holds the installed
-- access rules, a list of rules those that AddRule registered, and `custom_rules` the registered
-- kinds of custom policies. `Workspace` has what the store lists, and the minute of the day. What
-- Commit and Rollback of an engine's transaction return is the argument `ended`. `Calendar` is what
-- the schedules use of Go's time zones. `Transactions` and `RestoreDb` are the transactions of the
-- engines, what csv.Reader reads is a list of records, and what a load of a schema finds is any
-- result.
--
-- Fuel. The loop of the lexer recurses on fuel, the length of the text and one, since each turn
-- reads a byte at least. `constant_loop` recurses on the number
-- of tokens and one, since each call has fewer tokens than the one around it. The digits of an
-- int64 recurse on 20. The batches of a restore recurse on the number of rows.
--
-- Interleavings. A step of Activity, SchemaCache, MultiRun, Schedules/Runs or Transactions/Claims is
-- one critical section, one channel operation, one statement on the database, or the end of a load;
-- a run is any sequence of them. A barrier's channel and a transaction are told apart by their
-- identifiers. A failed WriteBatch stores nothing, as WriteActivity does, so a retry is a step
-- that changes nothing; a backend without WriteBatch is not modelled. The two critical sections of
-- `beginTransaction` are two definitions. The saves of a scheduled query are steps that write any row.
--
-- Not modelled: the database engines, the HTTP handlers, the store beyond the audit log, the
-- application shell and the web client. The locks of the parse cache and of the audit log make an
-- operation one step here. Integers that cannot overflow are native numbers; the hash of the cache
-- index wraps at 2 ^ 32.
pub mod Common
pub mod SqlGuard
pub mod Policy
pub mod Quoting
pub mod RowBackup
pub mod Activity
pub mod Transactions
pub mod CsvImport
pub mod MultiRun
pub mod OriginCache
pub mod SchemaCache
pub mod Schedules
pub mod Governance
pub mod Audit
pub mod Recording
pub mod Access
pub mod Auth
mod Tests
