-- ===== src/Activity/Barriers.antt =====
-- What is stored, and what a closed barrier tells: `Flush` of rowset-core/internal/activity/activity.go.
use rowset_studio.Common.{
  ℕ, ◌≡◌, refl, sym, subst, ap, ap₂, ◌∙◌, false, List, [], ◌∷◌, ◌++◌, Member, Member-append, inl,
  inr, ◌⊎◌,
}
use rowset_studio.Activity.{
  QueuedRecord, barrier, audits_of, histories_of, barriers_of, receiving, in_hand, Closing,
  cancelled, Buffered, new_buffered, written, abandoned, Step, send, wait, admit, give_up,
  send_direct, close_barrier, close_waiting, receive, collect, end_batch, store_barriers,
  store_batch, retry, abandon, stop, begin_shutdown, close_queue, cancel, Reach, here, next,
}
use rowset_studio.Activity.{is_cancelled}
use rowset_studio.Activity.Order.{
  Reach-InOrder, audits_of-append, histories_of-append, barriers_of-append,
}

pub was_live : (c : Closing) → c ≡ cancelled → is_cancelled c ≡ false → ⊥
was_live c e h = cc

first_of {ℓ} : {A : Type ℓ} → A → List A → A
first_of d [] = d
first_of d (x ∷ xs) = x

rest_of {ℓ} : {A : Type ℓ} → List A → List A
rest_of [] = []
rest_of (x ∷ xs) = xs

-- Where one text is split in two ways, the one place is in front of the other.
pub split_at :
    {A : Type 0} (xs ys pre post : List A) (x : A)
    → xs ++ ys ≡ pre ++ (x ∷ post)
    → ((d : List A) × (pre ≡ xs ++ d)) ⊎ ((more : List A) × (xs ≡ pre ++ (x ∷ more)))
unfolding first_of rest_of
split_at [] ys pre post x e = inl (pre, refl)
split_at (a ∷ xs) ys [] post x e = inr (xs, ap (λ t. t ∷ xs) (ap (first_of x) e))
split_at (a ∷ xs) ys (p ∷ pre) post x e = elim (split_at xs ys pre post x (ap rest_of e)) [
  | inl (d, h) ↦ inl (d, ap₂ (λ t s. t ∷ s) (sym (ap (first_of x) e)) h)
  | inr (more, h) ↦ inr (more, ap₂ (λ t s. t ∷ s) (ap (first_of x) e) h)
]

module _ {Audit History : Type 0} where
  -- The barriers that are closed are those of the batches that the writer is through with, and while
  -- its context is not cancelled all of these batches are stored.
  abbrev pub Stored : Buffered Audit History → Type 0
  Stored b =
      (b.log.released ≡ barriers_of b.log.handled)
      × (is_cancelled b.closing ≡ false
          → (b.log.audits ≡ audits_of b.log.handled)
            × (b.log.histories ≡ histories_of b.log.handled))

  release-Stored :
      (b : Buffered Audit History) (rs : List (QueuedRecord Audit History))
      → Stored b
      → b.log.released ++ barriers_of rs ≡ barriers_of (b.log.handled ++ rs)
  release-Stored b rs h =
      ap (λ s. s ++ barriers_of rs) h.0 ∙ sym (barriers_of-append b.log.handled rs)

  written-Stored :
      (b : Buffered Audit History) (rs : List (QueuedRecord Audit History))
      → Stored b
      → Stored (record b { writer = receiving; log = written rs b.log })
  unfolding written
  written-Stored b rs h = (
    release-Stored b rs h,
    λ live. (
      ap (λ s. s ++ audits_of rs) (h.1 live).0 ∙ sym (audits_of-append b.log.handled rs),
      ap (λ s. s ++ histories_of rs) (h.1 live).1 ∙ sym (histories_of-append b.log.handled rs),
    ),
  )

  module _ (capacity : ℕ) where
    Step-Stored : {b c : Buffered Audit History} → Step capacity b c → Stored b → Stored c
    unfolding abandoned
    Step-Stored (send b r _ _) h = h
    Step-Stored (wait b r _ _) h = h
    Step-Stored (admit b before after r _ _) h = h
    Step-Stored (give_up b before after r _) h = h
    Step-Stored (send_direct b r _ _) h = h
    Step-Stored (close_barrier b k _) h = h
    Step-Stored (close_waiting b before after k _ _) h = h
    Step-Stored (receive b r rest _ _) h = h
    Step-Stored (collect b r rs rest _ _ _) h = h
    Step-Stored (end_batch b rs _) h = h
    Step-Stored (store_barriers b rs _ _) h = written-Stored b rs h
    Step-Stored (store_batch b rs _ _) h = written-Stored b rs h
    Step-Stored (retry b rs _ _) h = h
    Step-Stored (abandon b rs _ _ c) h =
        (release-Stored b rs h, λ live. absurd (was_live b.closing c live))
    Step-Stored (stop b _ _ _) h = h
    Step-Stored (begin_shutdown b e) h = (h.0, λ live. h.1 (rw e refl))
    Step-Stored (close_queue b e _) h = (h.0, λ live. h.1 (rw e refl))
    Step-Stored (cancel b e) h = (h.0, λ live. absurd (was_live cancelled refl live))

    pub Reach-Stored : {b : Buffered Audit History} → Reach capacity new_buffered b → Stored b
    unfolding barriers_of audits_of histories_of
    Reach-Stored here = (refl, λ live. (refl, refl))
    Reach-Stored (next run step) = Step-Stored step (Reach-Stored run)

    -- When the barrier that entered the queue behind the records `before` is closed behind its batch, and the writer's
    -- context is not cancelled, all data of these records is stored, in their order and in front of
    -- what is stored of later records. The barrier's channel is none of those in `before`.
    pub released-Stored :
        {b : Buffered Audit History} (k : ℕ) (before after : List (QueuedRecord Audit History))
        → Reach capacity new_buffered b
        → is_cancelled b.closing ≡ false
        → b.log.sent ≡ before ++ (barrier k ∷ after)
        → (Member k (barriers_of before) → ⊥)
        → Member k b.log.released
        → ((later : List Audit) × (b.log.audits ≡ audits_of before ++ later))
          × ((later : List History) × (b.log.histories ≡ histories_of before ++ later))
    unfolding audits_of histories_of
    released-Stored {b} k before after run live sent fresh m =
        elim (split_at b.log.handled (in_hand b.writer ++ b.queue) before after (barrier k)
          (sym (Reach-InOrder capacity run) ∙ sent)) [
            | inl (d, e) ↦ absurd (
                fresh (
                  subst (Member k) (sym (ap barriers_of e ∙ barriers_of-append b.log.handled d)) (
                    Member-append k (barriers_of b.log.handled) (barriers_of d)
                      (subst (Member k) (Reach-Stored run).0 m))))
            | inr (more, e) ↦ (
              (
                audits_of more,
                ((Reach-Stored run).1 live).0
                    ∙ (ap audits_of e ∙ audits_of-append before (barrier k ∷ more)),
              ),
              (
                histories_of more,
                ((Reach-Stored run).1 live).1
                    ∙ (ap histories_of e ∙ histories_of-append before (barrier k ∷ more)),
              ),
            )
          ]
