-- ===== src/Activity/Bounds.antt =====
-- How many records the queue and a batch hold.
use rowset_studio.Common.{
  ℕ, ◌≤◌, ◌<◌, ◌≡◌, subst, ap, List, [], ◌∷◌, ◌++◌, length, length-append, arith,
}
use rowset_studio.Activity.{
  Writer, collecting, in_hand, Buffered, new_buffered, Step, send, wait, admit, give_up,
  send_direct, close_barrier, close_waiting, receive, collect, end_batch, store_barriers,
  store_batch, retry, abandon, stop, begin_shutdown, close_queue, cancel, Reach, here, next,
}
use rowset_studio.Activity.{max_batch}

shorter :
    {A : Type 0} (xs ys : List A) (x : A) (n : ℕ) → length xs ≤ n → xs ≡ x ∷ ys → length ys ≤ n
shorter xs ys x n h e = omega (arith, ap length e, h)

longer : {A : Type 0} (xs : List A) (x : A) (n : ℕ) → length xs < n → length (xs ++ (x ∷ [])) ≤ n
longer xs x n h = omega (arith, length-append xs (x ∷ []), h)

module _ {Audit History : Type 0} (capacity : ℕ) where
  abbrev pub Bounded : Buffered Audit History → Type 0
  Bounded b = (length b.queue ≤ capacity) × (length (in_hand b.writer) ≤ max_batch)

  hand-Bounded :
      (w v : Writer Audit History)
      → w ≡ v
      → length (in_hand w) ≤ max_batch
      → length (in_hand v) ≤ max_batch
  hand-Bounded w v e h = subst (λ u. length (in_hand u) ≤ max_batch) e h

  Step-Bounded : {b c : Buffered Audit History} → Step capacity b c → Bounded b → Bounded c
  Step-Bounded (send b r _ room) h = (longer b.queue r capacity room, h.1)
  Step-Bounded (wait b r _ _) h = h
  Step-Bounded (admit b before after r _ room) h = (longer b.queue r capacity room, h.1)
  Step-Bounded (give_up b before after r _) h = h
  Step-Bounded (send_direct b r _ _) h = h
  Step-Bounded (close_barrier b k _) h = h
  Step-Bounded (close_waiting b before after k _ _) h = h
  Step-Bounded (receive b r rest _ q) h = (shorter b.queue rest r capacity h.0 q, omega arith)
  Step-Bounded (collect b r rs rest _ room q) h =
      (shorter b.queue rest r capacity h.0 q, longer rs r max_batch room)
  Step-Bounded (end_batch b rs e) h = (h.0, hand-Bounded b.writer (collecting rs) e h.1)
  Step-Bounded (store_barriers b rs _ _) h = (h.0, omega arith)
  Step-Bounded (store_batch b rs _ _) h = (h.0, omega arith)
  Step-Bounded (retry b rs _ _) h = h
  Step-Bounded (abandon b rs _ _ _) h = (h.0, omega arith)
  Step-Bounded (stop b _ _ _) h = (h.0, omega arith)
  Step-Bounded (begin_shutdown b _) h = h
  Step-Bounded (close_queue b _ _) h = h
  Step-Bounded (cancel b _) h = h

  -- In every state that the buffer reaches, its queue holds no more records than its capacity, and the
  -- batch in the writer's hands no more than 256.
  pub Reach-Bounded : {b : Buffered Audit History} → Reach capacity new_buffered b → Bounded b
  Reach-Bounded here = (omega arith, omega arith)
  Reach-Bounded (next run step) = Step-Bounded step (Reach-Bounded run)
