-- ===== src/Activity/Order.antt =====
-- In all interleavings nothing that enters the queue is lost, stored twice or stored out of order.
use rowset_studio.Common.{ℕ, ◌≡◌, refl, sym, ap, ap₂, ◌∙◌, List, [], ◌∷◌, ◌++◌}
use rowset_studio.Activity.{
  QueuedRecord, audit, history, barrier, audits_of, histories_of, barriers_of, Writer, receiving,
  collecting, storing, in_hand, Buffered, new_buffered, written, abandoned, Step, send, wait, admit,
  give_up, send_direct, close_barrier, close_waiting, receive, collect, end_batch, store_barriers,
  store_batch, retry, abandon, stop, begin_shutdown, close_queue, cancel, Reach, here, next,
}

pub append-append {ℓ} : {A : Type ℓ} (xs ys zs : List A) → (xs ++ ys) ++ zs ≡ xs ++ (ys ++ zs)
append-append [] ys zs = refl
append-append (x ∷ xs) ys zs = ap (λ t. x ∷ t) (append-append xs ys zs)

pub append-nil {ℓ} : {A : Type ℓ} (xs : List A) → xs ++ [] ≡ xs
append-nil [] = refl
append-nil (x ∷ xs) = ap (λ t. x ∷ t) (append-nil xs)

module _ {Audit History : Type 0} where
  pub audits_of-append :
      (xs ys : List (QueuedRecord Audit History))
      → audits_of (xs ++ ys) ≡ audits_of xs ++ audits_of ys
  unfolding audits_of
  audits_of-append [] ys = refl
  audits_of-append (audit a ∷ xs) ys = ap (λ t. a ∷ t) (audits_of-append xs ys)
  audits_of-append (history h ∷ xs) ys = audits_of-append xs ys
  audits_of-append (barrier k ∷ xs) ys = audits_of-append xs ys

  pub histories_of-append :
      (xs ys : List (QueuedRecord Audit History))
      → histories_of (xs ++ ys) ≡ histories_of xs ++ histories_of ys
  unfolding histories_of
  histories_of-append [] ys = refl
  histories_of-append (audit a ∷ xs) ys = histories_of-append xs ys
  histories_of-append (history h ∷ xs) ys = ap (λ t. h ∷ t) (histories_of-append xs ys)
  histories_of-append (barrier k ∷ xs) ys = histories_of-append xs ys

  pub barriers_of-append :
      (xs ys : List (QueuedRecord Audit History))
      → barriers_of (xs ++ ys) ≡ barriers_of xs ++ barriers_of ys
  unfolding barriers_of
  barriers_of-append [] ys = refl
  barriers_of-append (audit a ∷ xs) ys = barriers_of-append xs ys
  barriers_of-append (history h ∷ xs) ys = barriers_of-append xs ys
  barriers_of-append (barrier k ∷ xs) ys = ap (λ t. k ∷ t) (barriers_of-append xs ys)

  -- What entered the queue is, in this order, handled, in the writer's hands, or still queued.
  abbrev pub InOrder : Buffered Audit History → Type 0
  InOrder b = b.log.sent ≡ b.log.handled ++ (in_hand b.writer ++ b.queue)

  enter-InOrder :
      (b : Buffered Audit History) (r : QueuedRecord Audit History)
      → InOrder b
      → b.log.sent ++ (r ∷ []) ≡ b.log.handled ++ (in_hand b.writer ++ (b.queue ++ (r ∷ [])))
  enter-InOrder b r h =
      ap (λ s. s ++ (r ∷ [])) h
      ∙ (append-append b.log.handled (in_hand b.writer ++ b.queue) (r ∷ [])
          ∙ ap (λ s. b.log.handled ++ s) (append-append (in_hand b.writer) b.queue (r ∷ [])))

  -- The queue's first record goes to the writer.
  take-InOrder :
      (b : Buffered Audit History) (w v : Writer Audit History) (r : QueuedRecord Audit History)
      (rest : List (QueuedRecord Audit History))
      → b.writer ≡ w
      → in_hand v ≡ in_hand w ++ (r ∷ [])
      → b.queue ≡ r ∷ rest
      → InOrder b
      → b.log.sent ≡ b.log.handled ++ (in_hand v ++ rest)
  take-InOrder b w v r rest e f q h =
      h
      ∙ (ap₂ (λ u s. b.log.handled ++ (in_hand u ++ s)) e q
          ∙ ap (λ s. b.log.handled ++ s)
              (sym (append-append (in_hand w) (r ∷ []) rest) ∙ ap (λ s. s ++ rest) (sym f)))

  -- The writer is through with its batch.
  hand-InOrder :
      (b : Buffered Audit History) (w : Writer Audit History)
      → b.writer ≡ w
      → InOrder b
      → b.log.sent ≡ (b.log.handled ++ in_hand w) ++ b.queue
  hand-InOrder b w e h =
      h
      ∙ (ap (λ u. b.log.handled ++ (in_hand u ++ b.queue)) e
          ∙ sym (append-append b.log.handled (in_hand w) b.queue))

  module _ (capacity : ℕ) where
    Step-InOrder : {b c : Buffered Audit History} → Step capacity b c → InOrder b → InOrder c
    unfolding written abandoned
    Step-InOrder (send b r _ _) h = enter-InOrder b r h
    Step-InOrder (wait b r _ _) h = h
    Step-InOrder (admit b before after r _ _) h = enter-InOrder b r h
    Step-InOrder (give_up b before after r _) h = h
    Step-InOrder (send_direct b r _ _) h = h
    Step-InOrder (close_barrier b k _) h = h
    Step-InOrder (close_waiting b before after k _ _) h = h
    Step-InOrder (receive b r rest e q) h =
        take-InOrder b receiving (collecting (r ∷ [])) r rest e refl q h
    Step-InOrder (collect b r rs rest e _ q) h =
        take-InOrder b (collecting rs) (collecting (rs ++ (r ∷ []))) r rest e refl q h
    Step-InOrder (end_batch b rs e) h = h ∙ ap (λ u. b.log.handled ++ (in_hand u ++ b.queue)) e
    Step-InOrder (store_barriers b rs e _) h = hand-InOrder b (storing rs) e h
    Step-InOrder (store_batch b rs e _) h = hand-InOrder b (storing rs) e h
    Step-InOrder (retry b rs _ _) h = h
    Step-InOrder (abandon b rs e _ _) h = hand-InOrder b (storing rs) e h
    Step-InOrder (stop b e _ _) h = h ∙ ap (λ u. b.log.handled ++ (in_hand u ++ b.queue)) e
    Step-InOrder (begin_shutdown b _) h = h
    Step-InOrder (close_queue b _ _) h = h
    Step-InOrder (cancel b _) h = h

    pub Reach-InOrder : {b : Buffered Audit History} → Reach capacity new_buffered b → InOrder b
    Reach-InOrder here = refl
    Reach-InOrder (next run step) = Step-InOrder step (Reach-InOrder run)
