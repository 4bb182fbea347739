-- ===== src/SchemaCache/Fresh.antt =====
-- What a call is answered, in all interleavings of rowset-core/internal/engine/schemacache.go.
use rowset_studio.Common.{
  update, update_self, ℕ, ◌==◌, ◌≡◌, sym, ap, ◌∙◌, subst, ◌&&◌, Option, none, some, [], ◌∷◌, ◌++◌,
  Bytes, bytes_eq, has_prefix, Bool-cases, All, inl, inr, arith,
}
use rowset_studio.SchemaCache.{
  is_failure, Loaded, SchemaEntry, Call, SchemaCache, holds, finish_load, drop_failed, return_call,
  invalidate_schema, Step, begin_step, finish_step, return_loader, return_waiter, give_up,
  invalidate_step, pass, Reach, here, next,
}
use rowset_studio.SchemaCache.Serves.{Serves, Answered, Promised, Sound, called-update, begin-Sound}

module _ {Schema : Type 0} where
  -- The end of a load keeps the key and the beginning of each entry, and fills one that was empty.
  finish-Serves :
      (s : SchemaCache Schema) (i : ℕ) (result : Option Schema) (c : Call Schema)
      → (s.heap i).done ≡ none
      → Promised s.fresh s.clock s.heap c
      → Promised s.fresh s.clock (finish_load i result s).heap c
  unfolding finish_load
  finish-Serves s i result c empty h = (
    h.0,
    h.1,
    elim (Bool-cases (c.entry == i)) [
      | inr e ↦
          subst (Serves c)
            (let x : s.heap c.entry ≡ (finish_load i result s).heap c.entry = ground (arith, e) in
              x)
            h.2
      | inl e ↦
          let at : c.entry ≡ i = ground (arith, e) in
          let old = subst (λ j. Serves c (s.heap j)) at h.2 in
          let filled : SchemaEntry Schema = record (s.heap i) {
            done = some (record { schema = result; loaded = s.clock });
          } in
          let serves : Serves c filled = record {
            same_key = old.same_key;
            not_invalidated = old.not_invalidated;
            refreshed = old.refreshed;
            recent = λ l d. ground (arith, h.1, d);
            no_old_failure = λ l d f. ground (arith, h.1, d);
          } in
          subst (λ j. Serves c (update s.heap i filled j)) (sym at)
            (subst (Serves c) (sym (update_self s.heap i filled)) serves)
    ],
  )

  finish-Sound :
      (s : SchemaCache Schema) (i : ℕ) (result : Option Schema)
      → (s.heap i).done ≡ none
      → Sound s
      → Sound (finish_load i result s)
  unfolding finish_load
  finish-Sound s i result empty sound = record {
    kept = λ k j e. let h = sound.kept k j e in (h.0, ground (arith, h.1), ground (arith, h.2));
    called = λ p c e. finish-Serves s i result c empty (sound.called p c e);
    past = sound.past;
    answered = sound.answered;
  }

  return-Sound :
      (s : SchemaCache Schema) (p : ℕ) (c : Call Schema) (l : Loaded Schema)
      → s.calls p ≡ some c
      → (s.heap c.entry).done ≡ some l
      → Sound s
      → Sound (return_call p c l s)
  unfolding return_call
  return-Sound s p c l e d sound = record {
    kept = sound.kept;
    called =
        called-update s.calls p none (Promised s.fresh s.clock s.heap) (λ c f. cc) sound.called;
    past = sound.past;
    answered = (((sound.called p c e).2, d), sound.answered);
  }

  drop-Sound :
      (s : SchemaCache Schema) (c : Call Schema) (l : Loaded Schema)
      → Sound s
      → Sound (drop_failed c l s)
  unfolding drop_failed
  drop-Sound s c l sound =
      elim (Bool-cases (is_failure l.schema && holds (s.entries c.key) c.entry)) [
        | inr f ↦ rw (f, drop_failed) sound
        | inl f ↦
            rw (f, drop_failed)
              (record {
                kept = λ k i e. elim (Bool-cases (bytes_eq k c.key)) [
                  | inl same ↦ absurd (ground (arith, e, same))
                  | inr other ↦ sound.kept k i (rw other at e)
                ];
                called = sound.called;
                past = sound.past;
                answered = sound.answered;
              })
      ]

  invalidate-Sound :
      (s : SchemaCache Schema) (id : Bytes) → Sound s → Sound (invalidate_schema id s)
  unfolding invalidate_schema
  invalidate-Sound s [] sound = sound
  invalidate-Sound s (b ∷ bs) sound = record {
    kept = λ k i e. elim (Bool-cases (has_prefix k ((b ∷ bs) ++ (b'|' ∷ [])))) [
      | inl gone ↦ absurd (ground (arith, e, gone))
      | inr other ↦ rw other (sound.kept k i (rw other at e))
    ];
    called = sound.called;
    past = λ k. let h = sound.past k in ground arith;
    answered = sound.answered;
  }

  unchanged :
      (s : SchemaCache Schema) (c : Call Schema) (l : Loaded Schema)
      → ((drop_failed c l s).calls ≡ s.calls) × ((drop_failed c l s).heap ≡ s.heap)
  unfolding drop_failed
  unchanged s c l = (ground arith, ground arith)

  Step-Sound : {s t : SchemaCache Schema} → Step s t → Sound s → Sound t
  Step-Sound (begin_step s p key refresh _) h = begin-Sound s p key refresh h
  Step-Sound (finish_step s p c result _ _ empty) h = finish-Sound s c.entry result empty h
  Step-Sound (return_loader s p c l e _ d) h =
      let (calls, heap) = unchanged s c l in
      return-Sound (drop_failed c l s) p c l (ap (λ f. f p) calls ∙ e)
        (ap (λ f. (f c.entry).done) heap ∙ d) (drop-Sound s c l h)
  Step-Sound (return_waiter s p c l e _ d) h = return-Sound s p c l e d h
  Step-Sound (give_up s p c e _) h = record {
    kept = h.kept;
    called = called-update s.calls p none (Promised s.fresh s.clock s.heap) (λ c f. cc) h.called;
    past = h.past;
    answered = h.answered;
  }
  Step-Sound (invalidate_step s id) h = invalidate-Sound s id h
  Step-Sound (pass s time) h = record {
    kept = h.kept;
    called = λ p c e. let g = h.called p c e in (g.0, omega (arith, g.1), g.2);
    past = h.past;
    answered = h.answered;
  }

  Reach-Sound : {s : SchemaCache Schema} → Reach s → Sound s
  Reach-Sound here = record {
    kept = λ k i e. cc;
    called = λ p c e. cc;
    past = λ k. omega arith;
    answered = tt;
  }
  Reach-Sound (next run step) = Step-Sound step (Reach-Sound run)

  -- In every interleaving of calls, loads, invalidations and returns, a call of CachedSchema is
  -- answered from an entry of its own key whose load began after the last InvalidateSchema of the
  -- key before the call, and after the call where it asks for a refresh; whose schema was found at
  -- most 30 seconds before the call, or after it; and whose error was met after the call.
  pub Reach-Answered : {s : SchemaCache Schema} → Reach s → All Answered s.answers
  Reach-Answered run = (Reach-Sound run).answered
