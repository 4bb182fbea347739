-- ===== src/Tests/SessionWitnesses.antt =====
-- The theorems on the activity buffer and on open transactions, applied to short runs.
use rowset_studio.Common.{ℕ, ◌≡◌, ◌≢◌, refl, inl, arith, true, List, [], ◌∷◌, ◌++◌, codes}
use rowset_studio.Activity.{
  QueuedRecord, audit, barrier, audits_of, histories_of, barriers_of, has_data, written, closed,
  Buffered, new_buffered, stopped, Reach, here, next, send, receive, collect, end_batch,
  store_batch, begin_shutdown, close_queue, stop,
}
use rowset_studio.Activity.Barriers.{released-Stored}
use rowset_studio.Activity.Drain.{drain}
use rowset_studio.Transactions.{
  lookup_txn, reap_idle_transactions, transaction_entry, expired, add_txn, user_count,
  connection_count, user_count, connection_count,
}
use rowset_studio.Transactions.Claims
use rowset_studio.Transactions.Claims.{Claims, claim_count, claimed-kept}

-- An entry and a barrier in one batch.
abbrev queued : Buffered ℕ ℕ
queued = record new_buffered {
  queue = audit 7 ∷ barrier 1 ∷ [];
  log = record new_buffered.log { sent = audit 7 ∷ barrier 1 ∷ [] };
}

queued-Reach : Reach 2 new_buffered queued
queued-Reach =
    next (next here (send new_buffered (audit 7) refl (omega arith)))
      (send _ (barrier 1) refl (omega arith))

abbrev flushed : Buffered ℕ ℕ
flushed = record queued {
  queue = [];
  log = record queued.log { handled = queued.log.sent; audits = 7 ∷ []; released = 1 ∷ [] };
}

flushed-Reach : Reach 2 new_buffered flushed
unfolding has_data written
flushed-Reach =
    next
      (next
        (next (next queued-Reach (receive queued (audit 7) (barrier 1 ∷ []) refl refl))
          (collect _ (barrier 1) (audit 7 ∷ []) [] refl (omega arith) refl))
        (end_batch _ (audit 7 ∷ barrier 1 ∷ []) refl))
      (store_batch _ (audit 7 ∷ barrier 1 ∷ []) refl refl)

released-Stored_example :
    ((later : List ℕ) × (flushed.log.audits
        ≡ audits_of (let rs : List (QueuedRecord ℕ ℕ) = audit 7 ∷ [] in rs) ++ later))
    × ((later : List ℕ) × (flushed.log.histories
          ≡ histories_of (let rs : List (QueuedRecord ℕ ℕ) = audit 7 ∷ [] in rs) ++ later))
unfolding barriers_of
released-Stored_example =
    released-Stored 2 1 (audit 7 ∷ []) [] flushed-Reach refl refl (λ m. m) (inl refl)

drain_example :
    (c : Buffered ℕ ℕ) × Reach 2 queued c
    × (c.queue ≡ [])
    × (c.log.audits ≡ audits_of queued.log.sent)
    × (c.log.histories ≡ histories_of queued.log.sent)
drain_example = drain 2 queued-Reach refl

abbrev ended : Buffered ℕ ℕ
ended = record flushed { writer = stopped; closing = closed }

ended-Reach : Reach 2 new_buffered ended
ended-Reach =
    next (next (next flushed-Reach (begin_shutdown flushed refl)) (close_queue _ refl refl))
      (stop _ refl refl refl)

-- One open transaction that its owner uses, an hour long.
abbrev in_use : Claims
in_use = record {
  txns =
      (
        codes "t",
        record { user_id = codes "u"; connection_id = codes "c"; last_used = 5; running = 1 },
      )
      ∷ [];
  claims = codes "t" ∷ [];
}

in_use-Reach : Claims.Reach true in_use
unfolding claim_count add_txn transaction_entry
in_use-Reach =
    Claims.next
      (Claims.next Claims.here (Claims.begin _ 0 (codes "u") (codes "c") (codes "t") refl))
      (Claims.claim _ 5 (codes "u") (codes "c") (codes "t"))

claimed-kept_example :
    (lookup_txn (codes "t") (reap_idle_transactions true 9000000000000 in_use.txns)
      ≡ lookup_txn (codes "t") in_use.txns)
    × ((transaction_entry true 9000000000000 (codes "u") (codes "c") (codes "t") in_use.txns).1
        ≢ expired)
unfolding claim_count
claimed-kept_example =
    claimed-kept true (codes "t") 9000000000000 (codes "u") (codes "c") in_use-Reach (omega arith)
