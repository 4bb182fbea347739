-- ===== src/Transactions.antt =====
-- The open manual-commit transactions of rowset-core/internal/api/transactions.go: the table `txns`,
-- the claims on its entries, the idle limit, and the end of a transaction. A time is a number of
-- nanoseconds, as in Go's package time.
pub mod Claims
pub mod Finish
pub mod Limits
use rowset_studio.Common.{
  ℕ, ◌+◌, ◌-◌, ◌*◌, ◌≡◌, ◌==◌, Bool, true, false, not, ◌&&◌, ◌||◌, Option, none, some, List, [],
  ◌∷◌, ◌++◌, Bytes, bytes_eq, ltb, leb, if◌then◌else◌,
}

-- time.Minute.
abbrev pub minute : ℕ
minute = 60 * 1000000000

-- `transactionIdleTimeout`.
unfoldable pub transaction_idle_timeout : Bool → ℕ
transaction_idle_timeout shared = if shared then 5 * minute else 60 * minute

-- `transactionEntry`, but for its lock and its engine transaction.
pub record TransactionEntry : Type 0 where
  pub user_id : Bytes
  pub connection_id : Bytes
  pub last_used : ℕ
  pub running : ℕ

abbrev pub Txns : Type 0
Txns = List (Bytes × TransactionEntry)

-- `s.txns[id]`.
unfoldable pub lookup_txn : Bytes → Txns → Option TransactionEntry
unfolding bytes_eq
lookup_txn id [] = none
lookup_txn id ((k, e) ∷ txns) =
    let rest = lookup_txn id txns in if bytes_eq k id then some e else rest

-- `delete` from the map of the entries for which a test holds.
unfoldable pub delete_if : (Bytes → TransactionEntry → Bool) → Txns → Txns
delete_if p [] = []
delete_if p ((k, e) ∷ txns) = let rest = delete_if p txns in if p k e then rest else (k, e) ∷ rest

-- A change of the entry at a key.
unfoldable pub update_txn : (TransactionEntry → TransactionEntry) → Bytes → Txns → Txns
unfolding bytes_eq
update_txn f id [] = []
update_txn f id ((k, e) ∷ txns) = (k, if bytes_eq k id then f e else e) ∷ update_txn f id txns

-- `item.running == 0 && now.Sub(item.lastUsed) > s.transactionIdleTimeout()`.
unfoldable pub is_idle : Bool → ℕ → TransactionEntry → Bool
unfolding transaction_idle_timeout
is_idle shared now e = e.running == 0 && ltb (transaction_idle_timeout shared) (now - e.last_used)

-- `reapIdleTransactions`, the part on `txns`.
unfoldable pub reap_idle_transactions : Bool → ℕ → Txns → Txns
unfolding delete_if is_idle
reap_idle_transactions shared now = delete_if (λ id e. is_idle shared now e)

-- `closeConnectionTransactions`, the part on `txns`.
unfoldable pub close_connection_transactions : Bytes → Txns → Txns
unfolding delete_if bytes_eq
close_connection_transactions connection_id =
    delete_if (λ id e. bytes_eq e.connection_id connection_id)

unfoldable pub delete_txn : Bytes → Txns → Txns
unfolding delete_if bytes_eq
delete_txn id = delete_if (λ k e. bytes_eq k id)

-- What `transactionEntry` finds, in the order of its tests.
pub data Claim : Type 0 where
  not_found expired : Claim
  claimed : TransactionEntry → Claim

abbrev pub claim_of : Bool → ℕ → Bytes → Bytes → Option TransactionEntry → Claim
unfolding bytes_eq is_idle
claim_of shared now user_id connection_id none = not_found
claim_of shared now user_id connection_id (some e) =
    if not (bytes_eq e.user_id user_id && bytes_eq e.connection_id connection_id)
    then not_found
    else if is_idle shared now e
    then expired
    else claimed e

abbrev pub mark_claimed : ℕ → TransactionEntry → TransactionEntry
mark_claimed now e = record e { last_used = now; running = e.running + 1 }

abbrev pub mark_released : ℕ → TransactionEntry → TransactionEntry
mark_released now e = record e { last_used = now; running = e.running - 1 }

-- `transactionEntry`: the table behind it, and what it found.
unfoldable pub transaction_entry : Bool → ℕ → Bytes → Bytes → Bytes → Txns → Txns × Claim
unfolding claim_of lookup_txn delete_txn update_txn
transaction_entry shared now user_id connection_id id txns =
    elim (claim_of shared now user_id connection_id (lookup_txn id txns)) [
      | not_found ↦ (txns, not_found)
      | expired ↦ (delete_txn id txns, expired)
      | claimed e ↦ (update_txn (mark_claimed now) id txns, claimed e)
    ]

-- `done`, on an entry that is still in the table.
unfoldable pub release_entry : ℕ → Bytes → Txns → Txns
unfolding update_txn
release_entry now id txns = update_txn (mark_released now) id txns

-- The counts of `beginTransaction` and its limits.
unfoldable pub count_if : (TransactionEntry → Bool) → Txns → ℕ
count_if p [] = 0
count_if p ((k, e) ∷ txns) = let rest = count_if p txns in if p e then 1 + rest else rest

unfoldable pub user_count : Bytes → Txns → ℕ
unfolding count_if bytes_eq
user_count user_id = count_if (λ e. bytes_eq e.user_id user_id)

unfoldable pub connection_count : Bytes → Txns → ℕ
unfolding count_if bytes_eq
connection_count connection_id = count_if (λ e. bytes_eq e.connection_id connection_id)

abbrev pub per_user : Bool → ℕ
per_user shared = if shared then 5 else 20

-- The count of `beginTransaction` under its lock, and whether the request goes on.
unfoldable pub begin_allowed : Bool → Bytes → Bytes → Txns → Bool
unfolding user_count connection_count
begin_allowed shared user_id connection_id txns = not (
    leb (per_user shared) (user_count user_id txns) || leb 50 (connection_count connection_id txns))

-- The entry of `beginTransaction`, under the lock again, with a new identifier.
unfoldable pub add_txn : ℕ → Bytes → Bytes → Bytes → Txns → Txns
unfolding delete_txn
add_txn now user_id connection_id id txns =
    (id, record { user_id = user_id; connection_id = connection_id; last_used = now; running = 0 })
    ∷ delete_txn id txns
