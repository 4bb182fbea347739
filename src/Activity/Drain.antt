-- ===== src/Activity/Drain.antt =====
-- The writer empties the queue, and `Close` leaves nothing in it.
use rowset_studio.Common.{
  ℕ, ◌≡◌, refl, sym, ap, ap₂, ◌∙◌, true, false, List, [], ◌∷◌, ◌++◌, Bool-cases, inl, inr,
}
use rowset_studio.Activity.{
  QueuedRecord, audits_of, histories_of, has_data, Writer, receiving, collecting, storing, stopped,
  in_hand, Closing, Buffered, new_buffered, written, accepts, Step, send, wait, admit, give_up,
  send_direct, close_barrier, close_waiting, receive, collect, end_batch, store_barriers,
  store_batch, retry, abandon, stop, begin_shutdown, close_queue, cancel, Reach, here, next,
  barrier,
}
use rowset_studio.Activity.{is_cancelled}
use rowset_studio.Activity.Order.{Reach-InOrder, append-nil}
use rowset_studio.Activity.Barriers.{Reach-Stored}

apart : (c : Closing) → accepts c ≡ true → accepts c ≡ false → ⊥
apart c e f = cc

no_place : {A : Type 0} (before after : List A) (x : A) → before ++ (x ∷ after) ≡ [] → ⊥
no_place [] after x e = cc
no_place (a ∷ before) after x e = cc

module _ {Audit History : Type 0} (capacity : ℕ) where
  -- When the queue is closed no sender waits, and when the writer has stopped the queue is closed and
  -- empty.
  abbrev pub Closed : Buffered Audit History → Type 0
  Closed b =
      (accepts b.closing ≡ false → b.waiting ≡ [])
      × (b.writer ≡ stopped → (accepts b.closing ≡ false) × (b.queue ≡ []))

  Step-Closed : {b c : Buffered Audit History} → Step capacity b c → Closed b → Closed c
  Step-Closed (send b r a _) h = (h.0, λ w. absurd (apart b.closing a (h.1 w).0))
  Step-Closed (wait b r a _) h = (λ c. absurd (apart b.closing a c), h.1)
  Step-Closed (admit b before after r w _) h = (
    λ c. absurd (no_place before after r (sym w ∙ h.0 c)),
    λ s. absurd (no_place before after r (sym w ∙ h.0 (h.1 s).0)),
  )
  Step-Closed (give_up b before after r w) h =
      (λ c. absurd (no_place before after r (sym w ∙ h.0 c)), h.1)
  Step-Closed (send_direct b r _ _) h = h
  Step-Closed (close_barrier b k _) h = h
  Step-Closed (close_waiting b before after k w _) h =
      (λ c. absurd (no_place before after (barrier k) (sym w ∙ h.0 c)), h.1)
  Step-Closed (receive b r rest _ _) h = (h.0, λ w. cc)
  Step-Closed (collect b r rs rest _ _ _) h = (h.0, λ w. cc)
  Step-Closed (end_batch b rs _) h = (h.0, λ w. cc)
  Step-Closed (store_barriers b rs _ _) h = (h.0, λ w. cc)
  Step-Closed (store_batch b rs _ _) h = (h.0, λ w. cc)
  Step-Closed (retry b rs _ _) h = h
  Step-Closed (abandon b rs _ _ _) h = (h.0, λ w. cc)
  Step-Closed (stop b _ q c) h = (h.0, λ w. (c, q))
  Step-Closed (begin_shutdown b e) h =
      (λ c. cc, λ w. absurd (apart b.closing (ap accepts e) (h.1 w).0))
  Step-Closed (close_queue b e w) h =
      (λ c. w, λ s. absurd (apart b.closing (ap accepts e) (h.1 s).0))
  Step-Closed (cancel b e) h = (λ c. h.0 (ap accepts e), λ w. (refl, (h.1 w).1))

  pub Reach-Closed : {b : Buffered Audit History} → Reach capacity new_buffered b → Closed b
  Reach-Closed here = (λ c. refl, λ w. cc)
  Reach-Closed (next run step) = Step-Closed step (Reach-Closed run)

  -- When the writer has stopped without a cancelled context, the queue is empty, nobody waits for it,
  -- and the data of all records that ever entered it is stored in their order.
  pub stopped-Stored :
      {b : Buffered Audit History}
      → Reach capacity new_buffered b
      → b.writer ≡ stopped
      → is_cancelled b.closing ≡ false
      → (b.queue ≡ [])
        × (b.waiting ≡ [])
        × (b.log.audits ≡ audits_of b.log.sent)
        × (b.log.histories ≡ histories_of b.log.sent)
  stopped-Stored {b} run e live =
      let q : b.queue ≡ [] = ((Reach-Closed run).1 e).1 in
      let done : b.log.sent ≡ b.log.handled =
        Reach-InOrder capacity run
        ∙ (ap₂ (λ w s. b.log.handled ++ (in_hand w ++ s)) e q ∙ append-nil b.log.handled) in
      (
        q,
        (Reach-Closed run).0 ((Reach-Closed run).1 e).0,
        ((Reach-Stored capacity run).1 live).0 ∙ ap audits_of (sym done),
        ((Reach-Stored capacity run).1 live).1 ∙ ap histories_of (sym done),
      )

  abbrev Runs : Buffered Audit History → Buffered Audit History → Type 0
  Runs b c = Reach capacity b c

  Reach-Reach : {a b c : Buffered Audit History} → Runs a b → Runs b c → Runs a c
  Reach-Reach run here = run
  Reach-Reach run (next later step) = next (Reach-Reach run later) step

  -- From here the writer alone comes to a state in which it holds nothing and nothing is queued.
  abbrev Drained : Buffered Audit History → Type 0
  Drained b =
      (c : Buffered Audit History) × Runs b c
      × (c.queue ≡ [])
      × (in_hand c.writer ≡ [])
      × (c.log.sent ≡ b.log.sent)
      × (c.closing ≡ b.closing)

  behind :
      {a b : Buffered Audit History}
      → Runs a b
      → b.log.sent ≡ a.log.sent
      → b.closing ≡ a.closing
      → Drained b
      → Drained a
  behind run s k d = (d.0, Reach-Reach run d.1, d.2, d.3, d.4 ∙ s, d.5 ∙ k)

  store-Runs :
      (b : Buffered Audit History) (rs : List (QueuedRecord Audit History))
      → b.writer ≡ storing rs
      → Step capacity b (record b { writer = receiving; log = written rs b.log })
  store-Runs b rs e = elim (Bool-cases (has_data rs)) [
    | inl h ↦ store_batch b rs e h
    | inr h ↦ store_barriers b rs e h
  ]

  collected-Runs :
      (b : Buffered Audit History) (rs : List (QueuedRecord Audit History))
      → b.writer ≡ collecting rs
      → Runs b (record b { writer = receiving; log = written rs b.log })
  collected-Runs b rs e =
      next (next here (end_batch b rs e)) (store-Runs (record b { writer = storing rs }) rs refl)

  receiving-Drained :
      (queue : List (QueuedRecord Audit History)) (b : Buffered Audit History)
      → b.writer ≡ receiving
      → b.queue ≡ queue
      → Drained b
  unfolding written
  receiving-Drained [] b e q = (b, here, q, ap in_hand e, refl, refl)
  receiving-Drained (r ∷ rest) b e q =
      let first : Buffered Audit History = record b {
        queue = rest;
        writer = collecting (r ∷ []);
      } in
      behind (Reach-Reach (next here (receive b r rest e q)) (collected-Runs first (r ∷ []) refl))
        refl refl
        (receiving-Drained rest
          (record first { writer = receiving; log = written (r ∷ []) first.log }) refl refl)

  Reach-Drained :
      (b : Buffered Audit History) (w : Writer Audit History) → b.writer ≡ w → Closed b → Drained b
  unfolding written
  Reach-Drained b receiving e h = receiving-Drained b.queue b e refl
  Reach-Drained b (collecting rs) e h = behind (collected-Runs b rs e) refl refl (
      receiving-Drained b.queue (record b { writer = receiving; log = written rs b.log }) refl refl)
  Reach-Drained b (storing rs) e h = behind (next here (store-Runs b rs e)) refl refl (
      receiving-Drained b.queue (record b { writer = receiving; log = written rs b.log }) refl refl)
  Reach-Drained b stopped e h = (b, here, (h.1 e).1, ap in_hand e, refl, refl)

  -- From every state that the buffer reaches, unless the writer's context is cancelled, there are
  -- steps to a state in which nothing is queued or held, and the data of all records that had entered the
  -- queue, and of no other, is stored in their order.
  pub drain :
      {b : Buffered Audit History}
      → Reach capacity new_buffered b
      → is_cancelled b.closing ≡ false
      → (c : Buffered Audit History) × Reach capacity b c
        × (c.queue ≡ [])
        × (c.log.audits ≡ audits_of b.log.sent)
        × (c.log.histories ≡ histories_of b.log.sent)
  drain {b} run live =
      let d = Reach-Drained b b.writer refl (Reach-Closed run) in
      let whole = Reach-Reach run d.1 in
      let done : d.0.log.handled ≡ b.log.sent =
        sym (
          Reach-InOrder capacity whole
          ∙ (ap₂ (λ h s. d.0.log.handled ++ (h ++ s)) d.3 d.2 ∙ append-nil d.0.log.handled))
        ∙ d.4 in
      let stored = (Reach-Stored capacity whole).1 (ap is_cancelled d.5 ∙ live) in
      (d.0, d.1, d.2, stored.0 ∙ ap audits_of done, stored.1 ∙ ap histories_of done)
