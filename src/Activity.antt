-- ===== src/Activity.antt =====
-- The buffer of rowset-core/internal/activity/activity.go: senders put records in a bounded queue, one
-- writer takes them out in batches and stores each batch in one transaction, and barriers tell a reader
-- that what was queued before them is stored. Every step of a sender, of the writer and of `Close` is
-- one step of the relation `Step`, so that its runs are all interleavings of theirs.
pub mod Order
pub mod Barriers
pub mod Bounds
pub mod Drain
use rowset_studio.Common.{
  ℕ, ◌≤◌, ◌<◌, ◌≡◌, Bool, true, false, ◌||◌, List, [], ◌∷◌, ◌++◌, length, ltb, if◌then◌else◌,
}

-- `maxBatch`.
abbrev pub max_batch : ℕ
max_batch = 256

-- `NewBuffered`: the capacity of its queue.
abbrev pub buffer_capacity : ℕ → ℕ
buffer_capacity capacity = if ltb capacity 1 then 1 else capacity

-- How far `Close` has come: not called, `shutdown` closed, the queue closed, and the writer's
-- context cancelled.
pub data Closing : Type 0 where
  running shutdown closed cancelled : Closing

-- The queue is open: `closed` is not set.
abbrev pub accepts : Closing → Bool
accepts running = true
accepts shutdown = true
accepts _ = false

abbrev pub is_running : Closing → Bool
is_running running = true
is_running _ = false

abbrev pub is_cancelled : Closing → Bool
is_cancelled cancelled = true
is_cancelled _ = false

module _ (Audit History : Type 0) where
  -- `queuedRecord`: a record has an audit entry or a history row, or it is a barrier, whose channel is
  -- the number here.
  pub data QueuedRecord : Type 0 where
    audit : Audit → QueuedRecord
    history : History → QueuedRecord
    barrier : ℕ → QueuedRecord

  -- Where `run` stands: at its receive, in `collect`, in `store`, or behind its loop.
  pub data Writer : Type 0 where
    receiving : Writer
    collecting : List QueuedRecord → Writer
    storing : List QueuedRecord → Writer
    stopped : Writer

  -- What the steps have done: the records in the order in which they entered the queue, those of them
  -- that the writer is through with, what its batches have stored, the barriers closed behind a batch,
  -- and those that `enqueueBarrier` has closed itself.
  pub record Log : Type 0 where
    pub sent : List QueuedRecord
    pub handled : List QueuedRecord
    pub audits : List Audit
    pub histories : List History
    pub released : List ℕ
    pub early : List ℕ

  -- The queue, the senders that wait for room in it, the writer, and `Close`. `direct` is what senders
  -- have written themselves.
  pub record Buffered : Type 0 where
    pub queue : List QueuedRecord
    pub waiting : List QueuedRecord
    pub direct : List QueuedRecord
    pub writer : Writer
    pub closing : Closing
    pub log : Log

module _ {Audit History : Type 0} where
  -- What `write` gathers of a batch, and the barriers that `run` closes behind it.
  unfoldable pub audits_of : List (QueuedRecord Audit History) → List Audit
  audits_of [] = []
  audits_of (audit a ∷ rs) = a ∷ audits_of rs
  audits_of (history h ∷ rs) = audits_of rs
  audits_of (barrier k ∷ rs) = audits_of rs

  unfoldable pub histories_of : List (QueuedRecord Audit History) → List History
  histories_of [] = []
  histories_of (audit a ∷ rs) = histories_of rs
  histories_of (history h ∷ rs) = h ∷ histories_of rs
  histories_of (barrier k ∷ rs) = histories_of rs

  unfoldable pub barriers_of : List (QueuedRecord Audit History) → List ℕ
  barriers_of [] = []
  barriers_of (audit a ∷ rs) = barriers_of rs
  barriers_of (history h ∷ rs) = barriers_of rs
  barriers_of (barrier k ∷ rs) = k ∷ barriers_of rs

  -- `hasData`.
  unfoldable pub has_data : List (QueuedRecord Audit History) → Bool
  has_data [] = false
  has_data (barrier k ∷ rs) = has_data rs
  has_data (_ ∷ rs) = true

  -- The records that the writer holds.
  abbrev pub in_hand : Writer Audit History → List (QueuedRecord Audit History)
  in_hand receiving = []
  in_hand (collecting rs) = rs
  in_hand (storing rs) = rs
  in_hand stopped = []

  -- `NewBuffered`.
  abbrev pub new_buffered : Buffered Audit History
  new_buffered = record {
    queue = [];
    waiting = [];
    direct = [];
    writer = receiving;
    closing = running;
    log = record {
      sent = [];
      handled = [];
      audits = [];
      histories = [];
      released = [];
      early = [];
    };
  }

  abbrev pub entering : QueuedRecord Audit History → Log Audit History → Log Audit History
  entering r l = record l { sent = l.sent ++ (r ∷ []) }

  -- A batch is written: WriteBatch is one transaction. Its barriers are closed behind it.
  unfoldable pub written : List (QueuedRecord Audit History) → Log Audit History → Log Audit History
  unfolding audits_of histories_of barriers_of
  written rs l = record l {
    handled = l.handled ++ rs;
    audits = l.audits ++ audits_of rs;
    histories = l.histories ++ histories_of rs;
    released = l.released ++ barriers_of rs;
  }

  -- A batch is given up; its barriers are closed all the same.
  unfoldable pub abandoned :
      List (QueuedRecord Audit History) → Log Audit History → Log Audit History
  unfolding barriers_of
  abandoned rs l = record l { handled = l.handled ++ rs; released = l.released ++ barriers_of rs }

  -- A barrier that does not enter the queue is closed.
  abbrev pub closing_early : ℕ → Log Audit History → Log Audit History
  closing_early k l = record l { early = l.early ++ (k ∷ []) }

  module _ (capacity : ℕ) where
    pub data Step : Buffered Audit History → Buffered Audit History → Type 0 where
      -- `enqueue` and `enqueueBarrier`: there is room in the queue.
      send :
          (b : Buffered Audit History) (r : QueuedRecord Audit History)
          → accepts b.closing ≡ true
          → length b.queue < capacity
          → Step b (record b { queue = b.queue ++ (r ∷ []); log = entering r b.log })
      -- There is none, and the sender waits.
      wait :
          (b : Buffered Audit History) (r : QueuedRecord Audit History)
          → accepts b.closing ≡ true
          → capacity ≤ length b.queue
          → Step b (record b { waiting = r ∷ b.waiting })
      -- One of those who wait finds room.
      admit :
          (b : Buffered Audit History) (before after : List (QueuedRecord Audit History))
          (r : QueuedRecord Audit History)
          → b.waiting ≡ before ++ (r ∷ after)
          → length b.queue < capacity
          → Step b (record b {
            queue = b.queue ++ (r ∷ []);
            waiting = before ++ after;
            log = entering r b.log;
          })
      -- One of those who wait gives up, at `shutdown` or at its timer or context, and writes its record
      -- itself; a barrier, whose `Flush` gives up at its context, has none.
      give_up :
          (b : Buffered Audit History) (before after : List (QueuedRecord Audit History))
          (r : QueuedRecord Audit History)
          → b.waiting ≡ before ++ (r ∷ after)
          → Step b (record b { waiting = before ++ after; direct = r ∷ b.direct })
      -- `enqueue` of data when the buffer is closed.
      send_direct :
          (b : Buffered Audit History) (r : QueuedRecord Audit History)
          → accepts b.closing ≡ false
          → has_data (r ∷ []) ≡ true
          → Step b (record b { direct = r ∷ b.direct })
      -- `enqueueBarrier` closes a barrier itself, when the buffer is closed or at `shutdown`; one that
      -- waits for room, at `shutdown`.
      close_barrier :
          (b : Buffered Audit History) (k : ℕ)
          → is_running b.closing ≡ false
          → Step b (record b { log = closing_early k b.log })
      close_waiting :
          (b : Buffered Audit History) (before after : List (QueuedRecord Audit History)) (k : ℕ)
          → b.waiting ≡ before ++ (barrier k ∷ after)
          → is_running b.closing ≡ false
          → Step b (record b { waiting = before ++ after; log = closing_early k b.log })
      -- `run`: the first record of a batch, one more, and the end of the batch, at `maxBatch` records,
      -- at the end of the window, or when the queue is closed and empty.
      receive :
          (b : Buffered Audit History) (r : QueuedRecord Audit History)
          (rest : List (QueuedRecord Audit History))
          → b.writer ≡ receiving
          → b.queue ≡ r ∷ rest
          → Step b (record b { queue = rest; writer = collecting (r ∷ []) })
      collect :
          (b : Buffered Audit History) (r : QueuedRecord Audit History)
          (rs rest : List (QueuedRecord Audit History))
          → b.writer ≡ collecting rs
          → length rs < max_batch
          → b.queue ≡ r ∷ rest
          → Step b (record b { queue = rest; writer = collecting (rs ++ (r ∷ [])) })
      end_batch :
          (b : Buffered Audit History) (rs : List (QueuedRecord Audit History))
          → b.writer ≡ collecting rs
          → Step b (record b { writer = storing rs })
      -- `store`: a batch without data needs no write; a write that succeeds, one that fails and is
      -- tried again, and one that is given up when the writer's context is cancelled.
      store_barriers :
          (b : Buffered Audit History) (rs : List (QueuedRecord Audit History))
          → b.writer ≡ storing rs
          → has_data rs ≡ false
          → Step b (record b { writer = receiving; log = written rs b.log })
      store_batch :
          (b : Buffered Audit History) (rs : List (QueuedRecord Audit History))
          → b.writer ≡ storing rs
          → has_data rs ≡ true
          → Step b (record b { writer = receiving; log = written rs b.log })
      retry :
          (b : Buffered Audit History) (rs : List (QueuedRecord Audit History))
          → b.writer ≡ storing rs
          → has_data rs ≡ true
          → Step b b
      abandon :
          (b : Buffered Audit History) (rs : List (QueuedRecord Audit History))
          → b.writer ≡ storing rs
          → has_data rs ≡ true
          → b.closing ≡ cancelled
          → Step b (record b { writer = receiving; log = abandoned rs b.log })
      -- The loop ends when the queue is closed and empty.
      stop :
          (b : Buffered Audit History)
          → b.writer ≡ receiving
          → b.queue ≡ []
          → accepts b.closing ≡ false
          → Step b (record b { writer = stopped })
      -- `Close`: `shutdown`; the lock, which no waiting sender holds, with the end of the queue; and
      -- the cancellation, when the writer is done or the deadline is over.
      begin_shutdown :
          (b : Buffered Audit History)
          → b.closing ≡ running
          → Step b (record b { closing = shutdown })
      close_queue :
          (b : Buffered Audit History)
          → b.closing ≡ shutdown
          → b.waiting ≡ []
          → Step b (record b { closing = closed })
      cancel :
          (b : Buffered Audit History)
          → b.closing ≡ closed
          → Step b (record b { closing = cancelled })

    -- The states that runs lead to.
    pub data Reach (first : Buffered Audit History) : Buffered Audit History → Type 0 where
      here : Reach first first
      next : {b c : Buffered Audit History} → Reach first b → Step b c → Reach first c
