-- ===== src/SchemaCache.antt =====
-- The cache of rowset-core/internal/engine/schemacache.go, as all interleavings of its callers: every
-- critical section of `CachedSchema` and of `InvalidateSchema`, every end of a load and every return is
-- one step. Schemas are a parameter, and so is what a load finds.
pub mod Serves
pub mod Fresh
use rowset_studio.Common.{
  ℕ, suc, ◌+◌, ◌*◌, ◌==◌, ◌≡◌, Bool, true, false, not, ◌&&◌, ◌||◌, Option, none, some, List, [],
  ◌∷◌, ◌++◌, Bytes, bytes_eq, has_prefix, ltb, update, if◌then◌else◌,
}

-- `schemaTTL`, in nanoseconds.
abbrev pub schema_ttl : ℕ
schema_ttl = 30 * 1000000000

abbrev pub is_failure {ℓ} : {A : Type ℓ} → Option A → Bool
is_failure none = true
is_failure (some a) = false

module _ (Schema : Type 0) where
  -- What a load has found, `none` for its error, and when it ended.
  pub record Loaded : Type 0 where
    pub schema : Option Schema
    pub loaded : ℕ

  -- `schemaEntry`: `done` once its channel is closed. `key` is the key it was made for, and `began` the
  -- event at which its load began.
  pub record SchemaEntry : Type 0 where
    pub key : Bytes
    pub began : ℕ
    pub done : Option Loaded

  -- A call behind its critical section: what it asks for, the event and the time of the section, the
  -- last event before it that invalidated its key, and the entry that it loads or waits for.
  pub record Call : Type 0 where
    pub key : Bytes
    pub refresh : Bool
    pub moment : ℕ
    pub time : ℕ
    pub floor : ℕ
    pub entry : ℕ
    pub loads : Bool

  -- A call that has returned what an entry holds.
  pub record Answer : Type 0 where
    pub call : Call
    pub entry : SchemaEntry
    pub found : Loaded

  -- `schemaCache`, the entries by their addresses, the calls that run, and what has happened.
  pub record SchemaCache : Type 0 where
    pub entries : Bytes → Option ℕ
    pub heap : ℕ → SchemaEntry
    pub fresh : ℕ
    pub calls : ℕ → Option Call
    pub answers : List Answer
    pub clock : ℕ
    pub events : ℕ
    pub invalidated : Bytes → ℕ

abbrev pub update_key : (Bytes → Option ℕ) → Bytes → Option ℕ → Bytes → Option ℕ
update_key f k o j = if bytes_eq j k then o else f j

abbrev pub holds : Option ℕ → ℕ → Bool
holds none i = false
holds (some j) i = j == i

module _ {Schema : Type 0} where
  -- The entry of a key serves a call: its load runs, or has found a schema that is not too old.
  unfoldable pub usable : SchemaEntry Schema → ℕ → Bool → Bool
  usable e clock refresh = elim e.done [
    | none ↦ not refresh
    | some l ↦ not (refresh || is_failure l.schema || ltb (l.loaded + schema_ttl) clock)
  ]

  unfoldable pub entry_for : SchemaCache Schema → Bytes → Bool → Option ℕ
  unfolding usable
  entry_for s key refresh = elim (s.entries key) [
    | none ↦ none
    | some i ↦ if usable (s.heap i) s.clock refresh then some i else none
  ]

  abbrev pub call_of : SchemaCache Schema → Bytes → Bool → ℕ → Bool → Call Schema
  call_of s key refresh i loads = record {
    key = key;
    refresh = refresh;
    moment = s.events;
    time = s.clock;
    floor = s.invalidated key;
    entry = i;
    loads = loads;
  }

  -- A call waits for an entry.
  unfoldable pub wait_for : ℕ → Bytes → Bool → SchemaCache Schema → ℕ → SchemaCache Schema
  wait_for p key refresh s i = record s {
    calls = update s.calls p (some (call_of s key refresh i false));
    events = suc s.events;
  }

  -- A call makes an entry and begins its load.
  unfoldable pub start_load : ℕ → Bytes → Bool → SchemaCache Schema → SchemaCache Schema
  unfolding bytes_eq
  start_load p key refresh s = record s {
    entries = update_key s.entries key (some s.fresh);
    heap = update s.heap s.fresh (record { key = key; began = s.events; done = none });
    fresh = suc s.fresh;
    calls = update s.calls p (some (call_of s key refresh s.fresh true));
    events = suc s.events;
  }

  -- The critical section of `CachedSchema`.
  unfoldable pub begin_call : ℕ → Bytes → Bool → SchemaCache Schema → SchemaCache Schema
  begin_call p key refresh s = elim (entry_for s key refresh) [
    | some i ↦ wait_for p key refresh s i
    | none ↦ start_load p key refresh s
  ]

  -- A load ends: the entry is filled and its channel closed.
  unfoldable pub finish_load : ℕ → Option Schema → SchemaCache Schema → SchemaCache Schema
  finish_load i result s = record s {
    heap =
        update s.heap i
          (record (s.heap i) { done = some (record { schema = result; loaded = s.clock }) });
  }

  -- After an error the loader removes its entry, if the map still has it, and then returns.
  unfoldable pub drop_failed : Call Schema → Loaded Schema → SchemaCache Schema → SchemaCache Schema
  unfolding bytes_eq
  drop_failed c l s =
      if is_failure l.schema && holds (s.entries c.key) c.entry
      then record s { entries = update_key s.entries c.key none }
      else s

  unfoldable pub return_call :
      ℕ → Call Schema → Loaded Schema → SchemaCache Schema → SchemaCache Schema
  return_call p c l s = record s {
    calls = update s.calls p none;
    answers = record { call = c; entry = s.heap c.entry; found = l } ∷ s.answers;
  }

  -- `InvalidateSchema`; it does nothing without an identifier.
  unfoldable pub invalidate_schema : Bytes → SchemaCache Schema → SchemaCache Schema
  unfolding has_prefix bytes_eq
  invalidate_schema [] s = s
  invalidate_schema (b ∷ bs) s = record s {
    entries = λ key. if has_prefix key ((b ∷ bs) ++ (b'|' ∷ [])) then none else s.entries key;
    events = suc s.events;
    invalidated =
        λ key. if has_prefix key ((b ∷ bs) ++ (b'|' ∷ [])) then suc s.events else s.invalidated key;
  }

  abbrev pub new_cache : SchemaCache Schema
  new_cache = record {
    entries = λ key. none;
    heap = λ i. record { key = []; began = 0; done = none };
    fresh = 0;
    calls = λ p. none;
    answers = [];
    clock = 0;
    events = 0;
    invalidated = λ key. 0;
  }

  pub data Step : SchemaCache Schema → SchemaCache Schema → Type 0 where
    begin_step :
        (s : SchemaCache Schema) (p : ℕ) (key : Bytes) (refresh : Bool)
        → s.calls p ≡ none
        → Step s (begin_call p key refresh s)
    finish_step :
        (s : SchemaCache Schema) (p : ℕ) (c : Call Schema) (result : Option Schema)
        → s.calls p ≡ some c
        → c.loads ≡ true
        → (s.heap c.entry).done ≡ none
        → Step s (finish_load c.entry result s)
    return_loader :
        (s : SchemaCache Schema) (p : ℕ) (c : Call Schema) (l : Loaded Schema)
        → s.calls p ≡ some c
        → c.loads ≡ true
        → (s.heap c.entry).done ≡ some l
        → Step s (return_call p c l (drop_failed c l s))
    return_waiter :
        (s : SchemaCache Schema) (p : ℕ) (c : Call Schema) (l : Loaded Schema)
        → s.calls p ≡ some c
        → c.loads ≡ false
        → (s.heap c.entry).done ≡ some l
        → Step s (return_call p c l s)
    -- The context of a call that waits is done.
    give_up :
        (s : SchemaCache Schema) (p : ℕ) (c : Call Schema)
        → s.calls p ≡ some c
        → c.loads ≡ false
        → Step s (record s { calls = update s.calls p none })
    invalidate_step : (s : SchemaCache Schema) (id : Bytes) → Step s (invalidate_schema id s)
    pass : (s : SchemaCache Schema) (time : ℕ) → Step s (record s { clock = s.clock + time })

  -- The states that runs lead to.
  pub data Reach : SchemaCache Schema → Type 0 where
    here : Reach new_cache
    next : {s t : SchemaCache Schema} → Reach s → Step s t → Reach t
