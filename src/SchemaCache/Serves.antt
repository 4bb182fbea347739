-- ===== src/SchemaCache/Serves.antt =====
-- What a call finds in the map of rowset-core/internal/engine/schemacache.go: `CachedSchema` up to the end
-- of its critical section.
use rowset_studio.Common.{
  update, update_self, ℕ, suc, ◌+◌, ◌==◌, ◌≡◌, ◌≤◌, ◌<◌, refl, sym, subst, Bool, true, false,
  Option, none, some, Bytes, bytes_eq, bytes_eq_iff, Bool-cases, Option-cases, All, inl, inr, arith,
}
use rowset_studio.SchemaCache.{
  schema_ttl, is_failure, Loaded, SchemaEntry, Call, Answer, SchemaCache, usable, entry_for,
  call_of, wait_for, start_load, begin_call,
}

-- An entry that exists is none that is made.
update_below : {A : Type 0} (f : ℕ → A) (n : ℕ) (a : A) (i : ℕ) → i < n → update f n a i ≡ f i
update_below f n a i h = ground arith

module _ {Schema : Type 0} where
  -- What a call may expect of an entry: it is of its key; its load began after the last invalidation
  -- before the call, and after the call itself for a refresh; and once it is filled, then at most the
  -- TTL before the call, and no failure before the call.
  pub record Serves (c : Call Schema) (e : SchemaEntry Schema) : Type 0 where
    pub same_key : e.key ≡ c.key
    pub not_invalidated : c.floor ≤ e.began
    pub refreshed : c.refresh ≡ true → c.moment ≤ e.began
    pub recent : (l : Loaded Schema) → e.done ≡ some l → c.time ≤ l.loaded + schema_ttl
    pub no_old_failure : (l : Loaded Schema) → e.done ≡ some l → l.schema ≡ none → c.time ≤ l.loaded

  -- The entry that a call has been answered from serves it.
  abbrev pub Answered : Answer Schema → Type 0
  Answered a = Serves a.call a.entry × (a.entry.done ≡ some a.found)

  -- A call that runs: its entry exists and serves it.
  abbrev pub Promised : ℕ → ℕ → (ℕ → SchemaEntry Schema) → Call Schema → Type 0
  Promised fresh clock heap c = (c.entry < fresh) × (c.time ≤ clock) × Serves c (heap c.entry)

  -- An entry in the map is of its key, and not older than the key's last invalidation.
  abbrev pub Kept : ℕ → (ℕ → SchemaEntry Schema) → (Bytes → ℕ) → Bytes → ℕ → Type 0
  Kept fresh heap invalidated k i =
      (i < fresh) × ((heap i).key ≡ k) × (invalidated k ≤ (heap i).began)

  pub record Sound (s : SchemaCache Schema) : Type 0 where
    pub kept : (k : Bytes) (i : ℕ) → s.entries k ≡ some i → Kept s.fresh s.heap s.invalidated k i
    pub called : (p : ℕ) (c : Call Schema) → s.calls p ≡ some c → Promised s.fresh s.clock s.heap c
    pub past : (k : Bytes) → s.invalidated k ≤ s.events
    pub answered : All Answered s.answers

  entry_for-some :
      (s : SchemaCache Schema) (key : Bytes) (refresh : Bool) (i : ℕ)
      → entry_for s key refresh ≡ some i
      → (s.entries key ≡ some i) × (usable (s.heap i) s.clock refresh ≡ true)
  unfolding entry_for
  entry_for-some s key refresh i h = elim (Option-cases (s.entries key)) [
    | inl e ↦ absurd (ground (arith, h, e))
    | inr (j, e) ↦ elim (Bool-cases (usable (s.heap j) s.clock refresh)) [
      | inl u ↦ let same : j ≡ i = ground (arith, h, e, u) in rw (← same) (e, u)
      | inr u ↦ absurd (ground (arith, h, e, u))
    ]
  ]

  usable-filled :
      (e : SchemaEntry Schema) (clock : ℕ) (refresh : Bool)
      → usable e clock refresh ≡ true
      → (refresh ≡ false)
        × ((l : Loaded Schema)
            → e.done ≡ some l
            → (is_failure l.schema ≡ false) × (clock ≤ l.loaded + schema_ttl))
  unfolding usable
  usable-filled e clock refresh h = (
    elim (Option-cases e.done) [ inl d ↦ ground (arith, h, d) | inr (l, d) ↦ ground (arith, h, d) ],
    λ l d. (ground (arith, h, d), ground (arith, h, d)),
  )

  joined-Serves :
      (s : SchemaCache Schema)
      → Sound s
      → (key : Bytes) (refresh : Bool) (i : ℕ) → entry_for s key refresh ≡ some i
      → (i < s.fresh) × Serves (call_of s key refresh i false) (s.heap i)
  joined-Serves s sound key refresh i h =
      let (e, u) = entry_for-some s key refresh i h in
      let (below, same, floor) = sound.kept key i e in
      let (old, filled) = usable-filled (s.heap i) s.clock refresh u in
      (
        below,
        record {
          same_key = same;
          not_invalidated = floor;
          refreshed = λ yes_. cc;
          recent = λ l d. (filled l d).1;
          no_old_failure = λ l d f. let x = (filled l d).0 in absurd (ground (arith, x, f));
        },
      )

  -- A property of all calls after one of them is set.
  pub called-update :
      (calls : ℕ → Option (Call Schema)) (p : ℕ) (o : Option (Call Schema))
      (P : Call Schema → Type 0)
      → ((c : Call Schema) → o ≡ some c → P c)
      → ((q : ℕ) (c : Call Schema) → calls q ≡ some c → P c)
      → (q : ℕ) (c : Call Schema) → update calls p o q ≡ some c
      → P c
  called-update calls p o P new old q c h = elim (Bool-cases (q == p)) [
    | inl e ↦ new c (rw e at h)
    | inr e ↦ old q c (rw e at h)
  ]

  wait_for-Sound :
      (s : SchemaCache Schema) (p : ℕ) (key : Bytes) (refresh : Bool) (i : ℕ)
      → entry_for s key refresh ≡ some i
      → Sound s
      → Sound (wait_for p key refresh s i)
  unfolding wait_for
  wait_for-Sound s p key refresh i e sound =
      let (below, serves) = joined-Serves s sound key refresh i e in
      record {
        kept = sound.kept;
        called =
            called-update s.calls p (some (call_of s key refresh i false))
              (Promised s.fresh s.clock s.heap)
              (λ c f.
                let same : call_of s key refresh i false ≡ c = cc in
                subst (Promised s.fresh s.clock s.heap) same (below, omega arith, serves))
              sound.called;
        past = λ k. let h = sound.past k in omega arith;
        answered = sound.answered;
      }

  -- What holds of an entry that exists still holds after one is made.
  Promised-more :
      (fresh clock : ℕ) (heap : ℕ → SchemaEntry Schema) (e : SchemaEntry Schema) (c : Call Schema)
      → Promised fresh clock heap c
      → Promised (suc fresh) clock (update heap fresh e) c
  Promised-more fresh clock heap e c h =
      (omega (arith, h.0), h.1, subst (Serves c) (sym (update_below heap fresh e c.entry h.0)) h.2)

  Kept-more :
      (fresh : ℕ) (heap : ℕ → SchemaEntry Schema) (invalidated : Bytes → ℕ) (e : SchemaEntry Schema)
      (k : Bytes) (i : ℕ)
      → Kept fresh heap invalidated k i
      → Kept (suc fresh) (update heap fresh e) invalidated k i
  Kept-more fresh heap invalidated e k i h =
      subst (λ x. (i < suc fresh) × (x.key ≡ k) × (invalidated k ≤ x.began))
        (sym (update_below heap fresh e i h.0)) (omega (arith, h.0), h.1, h.2)

  start_load-Sound :
      (s : SchemaCache Schema) (p : ℕ) (key : Bytes) (refresh : Bool)
      → Sound s
      → Sound (start_load p key refresh s)
  unfolding start_load
  start_load-Sound s p key refresh sound =
      let made : SchemaEntry Schema = record { key = key; began = s.events; done = none } in
      let call = call_of s key refresh s.fresh true in
      let self = update_self s.heap s.fresh made in
      record {
        kept = λ k i e. elim (Bool-cases (bytes_eq k key)) [
          | inl same ↦
              let at : s.fresh ≡ i = ground (arith, e, same) in
              let of_key : key ≡ k = sym ((bytes_eq_iff k key).0 same) in
              subst (Kept (suc s.fresh) (update s.heap s.fresh made) s.invalidated k) at (
                subst (λ x. (s.fresh < suc s.fresh) × (x.key ≡ k) × (s.invalidated k ≤ x.began))
                  (sym self) (omega arith, of_key, sound.past k))
          | inr other ↦
              Kept-more s.fresh s.heap s.invalidated made k i (sound.kept k i (rw other at e))
        ];
        called =
            called-update s.calls p (some call)
              (Promised (suc s.fresh) s.clock (update s.heap s.fresh made))
              (λ c f.
                let same : call ≡ c = cc in
                subst (Promised (suc s.fresh) s.clock (update s.heap s.fresh made)) same (
                  omega arith,
                  omega arith,
                  subst (Serves call) (sym self) (record {
                    same_key = refl;
                    not_invalidated = sound.past key;
                    refreshed = λ r. omega arith;
                    recent = λ l d. cc;
                    no_old_failure = λ l d f. cc;
                  }),
                ))
              (λ q c h. Promised-more s.fresh s.clock s.heap made c (sound.called q c h));
        past = λ k. let h = sound.past k in omega arith;
        answered = sound.answered;
      }

  pub begin-Sound :
      (s : SchemaCache Schema) (p : ℕ) (key : Bytes) (refresh : Bool)
      → Sound s
      → Sound (begin_call p key refresh s)
  unfolding begin_call
  begin-Sound s p key refresh sound = elim (Option-cases (entry_for s key refresh)) [
    | inr (i, e) ↦ rw (e, begin_call) (wait_for-Sound s p key refresh i e sound)
    | inl e ↦ rw (e, begin_call) (start_load-Sound s p key refresh sound)
  ]
