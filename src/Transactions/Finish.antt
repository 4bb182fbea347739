-- ===== src/Transactions/Finish.antt =====
-- `finishTransaction` and the end of `transactionQuery` of rowset-core/internal/api/transactions.go.
-- The engine's transaction is the parameter: its state, and what Commit and Rollback give.
use rowset_studio.Common.{◌≡◌, refl, Bool, true, false, if◌then◌else◌, arith}

-- `engine.TransactionState`: as the source tells them apart.
pub data TransactionState : Type 0 where
  active aborted lost : TransactionState

-- What Commit or Rollback returns: nothing, pgx.ErrTxCommitRollback, or another error.
pub data Ended : Type 0 where
  done commit_rolled_back failed : Ended

-- The answers, by their codes; `no_content` is 204.
pub data Answer : Type 0 where
  no_content txn_lost txn_rolled_back txn_finish_error : Answer

-- The calls that reach the engine's transaction.
pub data Call : Type 0 where
  commit rollback : Call

abbrev answer_of : Ended → Answer
answer_of done = no_content
answer_of commit_rolled_back = txn_rolled_back
answer_of failed = txn_finish_error

-- `finishTransaction` behind its claim: the call that is made, and the answer.
unfoldable pub finish_transaction : (Call → Ended) → TransactionState → Bool → Call × Answer
finish_transaction ended lost commits = (rollback, if commits then txn_lost else no_content)
finish_transaction ended aborted true = (rollback, txn_rolled_back)
finish_transaction ended aborted false = (rollback, answer_of (ended rollback))
finish_transaction ended active true = (commit, answer_of (ended commit))
finish_transaction ended active false = (rollback, answer_of (ended rollback))

answered : (e : Ended) → answer_of e ≡ no_content → e ≡ done
answered e a = ground arith

-- The answer of success to a commit is given only where Commit was called on a transaction that was
-- neither lost nor aborted and returned without an error; and Commit is called nowhere else.
pub finish_transaction-committed :
    (ended : Call → Ended) (state : TransactionState) (commits : Bool)
    → ((finish_transaction ended state commits).0 ≡ commit → (commits ≡ true) × (state ≡ active))
      × (commits ≡ true
          → (finish_transaction ended state commits).1 ≡ no_content
          → (state ≡ active)
            × ((finish_transaction ended state commits).0 ≡ commit)
            × (ended commit ≡ done))
unfolding finish_transaction
finish_transaction-committed ended lost commits = ground arith
finish_transaction-committed ended aborted true = ground arith
finish_transaction-committed ended aborted false = ground arith
finish_transaction-committed ended active true =
    (λ e. (refl, refl), λ c a. (refl, refl, answered (ended commit) a))
finish_transaction-committed ended active false = ground arith
