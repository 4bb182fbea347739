-- ===== src/Tests/CacheWitnesses.antt =====
-- The theorems on the caches of the engine package, applied to short runs.
use rowset_studio.Common.{
  ℕ, ◌≡◌, ◌≤◌, refl, All, length, true, false, some, List, [], ◌∷◌, codes, bytes_eq, has_prefix,
}
use rowset_studio.SchemaCache
use rowset_studio.SchemaCache.{
  SchemaCache, begin_call, finish_load, drop_failed, return_call, invalidate_schema, Reach,
  begin_step, finish_step, return_loader, invalidate_step, usable, entry_for, wait_for, start_load,
  Call, Loaded,
}
use rowset_studio.SchemaCache.Serves.{Answered}
use rowset_studio.SchemaCache.Fresh.{Reach-Answered}
use rowset_studio.OriginCache.{
  Use, putting, forgetting, get, after, apply, put, has_key, find, store, keep,
}
use rowset_studio.OriginCache.Sound.{last_put, get-after}
use rowset_studio.OriginCache.Bounded.{after_bound}

-- A call that loads the schema 7, behind an invalidation.
abbrev invalidated : SchemaCache ℕ
invalidated = invalidate_schema (codes "c") SchemaCache.new_cache

abbrev loading : SchemaCache ℕ
loading = begin_call 0 (codes "c|x") false invalidated

abbrev call : Call ℕ
call = record {
  key = codes "c|x";
  refresh = false;
  moment = 1;
  time = 0;
  floor = 1;
  entry = 0;
  loads = true;
}

abbrev found : Loaded ℕ
found = record { schema = some 7; loaded = 0 }

abbrev returned : SchemaCache ℕ
returned = return_call 0 call found (drop_failed call found (finish_load 0 (some 7) loading))

returned-Reach : Reach returned
unfolding invalidate_schema begin_call start_load finish_load entry_for
returned-Reach =
    SchemaCache.next
      (SchemaCache.next
        (SchemaCache.next
          (SchemaCache.next SchemaCache.here (invalidate_step SchemaCache.new_cache (codes "c")))
          (begin_step invalidated 0 (codes "c|x") false refl))
        (finish_step loading 0 call (some 7) refl refl refl))
      (return_loader (finish_load 0 (some 7) loading) 0 call found refl refl refl)

Reach-Answered_example : All Answered returned.answers
Reach-Answered_example = Reach-Answered returned-Reach

-- Two puts and a forgotten connection.
abbrev uses : List (Use ℕ)
uses = putting (codes "b|2") 8 ∷ forgetting (codes "a") ∷ putting (codes "a|1") 7 ∷ []

get-after_example : last_put (codes "b|2") uses ≡ some 8
unfolding get after apply find put store has_key keep bytes_eq has_prefix
get-after_example = get-after (codes "b|2") uses 8 refl

after_bound_example : length (after uses).entries ≤ 512
after_bound_example = after_bound uses
