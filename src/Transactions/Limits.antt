-- ===== src/Transactions/Limits.antt =====
-- The limits of `beginTransaction` in rowset-core/internal/api/transactions.go.
use rowset_studio.Common.{ℕ, ◌≤◌, Bool, [], ◌∷◌, Bytes, bytes_eq, arith}
use rowset_studio.Transactions.{
  TransactionEntry, Txns, delete_if, is_idle, reap_idle_transactions, count_if, user_count,
  connection_count, per_user,
}

count_if-delete_if :
    (p : TransactionEntry → Bool) (q : Bytes → TransactionEntry → Bool) (txns : Txns)
    → count_if p (delete_if q txns) ≤ count_if p txns
unfolding count_if delete_if
count_if-delete_if p q [] = omega arith
count_if-delete_if p q ((k, e) ∷ txns) = ground (arith, count_if-delete_if p q txns)

-- The counts of each user's and of each connection's entries.
abbrev pub Limited : Bool → Txns → Type 0
Limited shared txns =
    ((user_id : Bytes) → user_count user_id txns ≤ per_user shared)
    × ((connection_id : Bytes) → connection_count connection_id txns ≤ 50)

-- The reaper, which `beginTransaction` calls in front of its count, keeps the limits.
reap-Limited :
    (shared : Bool) (now : ℕ) (txns : Txns)
    → Limited shared txns
    → Limited shared (reap_idle_transactions shared now txns)
unfolding reap_idle_transactions user_count connection_count
reap-Limited shared now txns h = (
  λ u. omega (
    arith,
    h.0 u,
    count_if-delete_if (λ e. bytes_eq e.user_id u) (λ id e. is_idle shared now e) txns,
  ),
  λ c. omega (
    arith,
    h.1 c,
    count_if-delete_if (λ e. bytes_eq e.connection_id c) (λ id e. is_idle shared now e) txns,
  ),
)
