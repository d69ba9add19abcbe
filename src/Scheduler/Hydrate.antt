-- ===== src/Scheduler/Hydrate.antt =====
-- pkg/scheduler/persist.go: the jobs in a store, their loading into the time wheel at start, and the policies for the
-- firings that were missed.
pub mod Backfill
mod Tests
use soyaos.Prelude.{
  ℕ, suc, ◌+◌, ◌-◌, Bool, true, false, ◌&&◌, ◌||◌, List, [], ◌∷◌, Option, none, some, Bytes, codes,
  bytes_eq, is_empty, Result, ok, err, ltb, ◌==◌, if◌then◌else◌,
}
use soyaos.Store.{Store, StoreError}
use soyaos.Scheduler.{CronSpec, CronError, parse_cron, Calendar, matches}
use soyaos.Scheduler.Window.{cron_matches_between, any_match_between}
use soyaos.Scheduler.Wheel.{Job, Wheel, AddError, empty_job, bad_cron, add}
use soyaos.Scheduler.Dedup.{
  job_namespace, window, JobText, FireError, store_error, encode_error, Log, try_fire, prune_dedup,
}

abbrev pub skip : Bytes
skip = codes "skip"

abbrev pub once : Bytes
once = codes "once"

abbrev pub backfill : Bytes
backfill = codes "backfill"

pub data LoadError : Type 0 where
  fire_error : FireError → LoadError
  add_error : AddError → LoadError
  bad_expression : CronError → LoadError
  store_failed : StoreError → LoadError
  not_encoded canceled : LoadError

abbrev or_skip : Job → Job
or_skip j = if is_empty j.missed_fire then record j { missed_fire = skip } else j

-- Where the missed firings begin
abbrev pub missed_from : Job → ℕ → ℕ
missed_from j now = if j.last_fired_at == 0 then now - window else j.last_fired_at

module _ (S : Store) (T : JobText) where
  abbrev World : Type 0
  World = S.Db × Log

  abbrev Loaded : Type 0
  Loaded = Result LoadError (Unit {0}) × (World × Wheel)

  -- `SavePersistent`, of the job with its policy
  pub save_encoded : S.Db → Job → Option Bytes → Result LoadError (Unit {0}) × S.Db
  save_encoded d j none = (err not_encoded, d)
  save_encoded d j (some body) = written (S.put d job_namespace j.id body)
    where
      written : Result StoreError (Unit {0}) × S.Db → Result LoadError (Unit {0}) × S.Db
      written (ok _, d') = (ok tt, d')
      written (err e, d') = (err (store_failed e), d')

  unfoldable pub save_persistent : S.Db → Job → Bytes → Result LoadError (Unit {0}) × S.Db
  unfolding save_encoded
  save_persistent d j policy =
      let j' = or_skip (record j { missed_fire = policy }) in save_encoded d j' (T.marshal j')

  -- `DeletePersistent`
  unfoldable pub delete_persistent : S.Db → Bytes → Result StoreError (Unit {0}) × S.Db
  delete_persistent d id = S.delete d job_namespace id

  pub decoded : List (Bytes × Bytes) → List Job
  decoded [] = []
  decoded ((k, v) ∷ ps) = keep (T.unmarshal v) (decoded ps)
    where
      keep : Option Job → List Job → List Job
      keep none js = js
      keep (some j) js = j ∷ js

  -- `LoadPersistent`
  unfoldable pub load_persistent : S.Db → Result StoreError (List Job)
  unfolding decoded
  load_persistent d = elim (S.list d job_namespace []) [ ok ps ↦ ok (decoded ps) | err e ↦ err e ]

  abbrev fired : Result FireError (Unit {0}) × World → Result LoadError (Unit {0}) × World
  fired (ok _, w) = (ok tt, w)
  fired (err e, w) = (err (fire_error e), w)

  -- After a firing that is not the last: its error, or the wait, or what comes next
  pub then_wait :
      Bool
      → Result FireError (Unit {0}) × World
      → Result LoadError (Unit {0}) × World
      → Result LoadError (Unit {0}) × World
  then_wait waited (err e, w) rest = (err (fire_error e), w)
  then_wait false (ok _, w) rest = (err canceled, w)
  then_wait true (ok _, w) rest = rest

  -- The loop of the policy `backfill`. Whether the wait after the i-th firing ends before the context is done is the
  -- parameter `waits`.
  pub backfill_each : (ℕ → Bool) → Job → ℕ → List ℕ → World → Result LoadError (Unit {0}) × World
  backfill_each waits j i [] w = (ok tt, w)
  backfill_each waits j i (t ∷ []) w = fired (try_fire S T j t w)
  backfill_each waits j i (t ∷ u ∷ ts) w =
      let r = try_fire S T j t w in
      then_wait (waits i) r (backfill_each waits j (suc i) (u ∷ ts) r.1)

  pub missed_cron :
      Calendar → (ℕ → Bool) → Job → ℕ → CronSpec → World → Result LoadError (Unit {0}) × World
  unfolding backfill_each
  missed_cron cal waits j now spec w =
      if bytes_eq j.missed_fire once
      then (if any_match_between (matches cal spec) (missed_from j now) now
          then fired (try_fire S T j now w)
          else (ok tt, w))
      else if bytes_eq j.missed_fire backfill
      then backfill_each waits j 0 (cron_matches_between (matches cal spec) (missed_from j now) now)
          w
      else (ok tt, w)

  pub missed_parsed :
      Calendar
      → (ℕ → Bool)
      → Job
      → ℕ
      → World
      → Result CronError CronSpec
      → Result LoadError (Unit {0}) × World
  unfolding missed_cron
  missed_parsed cal waits j now w (err e) = (err (bad_expression e), w)
  missed_parsed cal waits j now w (ok spec) = missed_cron cal waits j now spec w

  -- `applyMissedFire`
  unfoldable pub apply_missed_fire :
      Calendar → (ℕ → Bool) → Job → ℕ → World → Result LoadError (Unit {0}) × World
  unfolding missed_parsed
  apply_missed_fire cal waits j now w =
      if bytes_eq j.missed_fire skip || is_empty j.missed_fire
      then (ok tt, w)
      else if is_empty j.cron
      then (if ltb j.run_at now && j.last_fired_at == 0
          then fired (try_fire S T j now w)
          else (ok tt, w))
      else missed_parsed cal waits j now w (parse_cron j.cron)

  -- A job in the loop of `LoadFromStore`, behind its `Add`, and behind its policy
  pub then_next : World → Result AddError (Unit {0}) × Wheel → (Wheel → Loaded) → Loaded
  then_next w (ok _, tw) rest = rest tw
  then_next w (err empty_job, tw) rest = rest tw
  then_next w (err (bad_cron e), tw) rest = (err (add_error (bad_cron e)), (w, tw))

  pub then_add :
      Job → Wheel → Result LoadError (Unit {0}) × World → (World → Wheel → Loaded) → Loaded
  unfolding then_next
  then_add j tw (err e, w) rest = (err e, (w, tw))
  then_add j tw (ok _, w) rest = then_next w (add j tw) (rest w)

  -- The loop of `LoadFromStore`; `handled` says for which jobs there is a callback.
  pub load_each : Calendar → (ℕ → Bool) → (Job → Bool) → ℕ → List Job → World → Wheel → Loaded
  unfolding apply_missed_fire then_add
  load_each cal waits handled now [] w tw = (ok tt, (w, tw))
  load_each cal waits handled now (p ∷ ps) w tw =
      let skipped = load_each cal waits handled now ps w tw in
      let loaded =
        then_add (or_skip p) tw (apply_missed_fire cal waits (or_skip p) now w)
          (λ w' tw'. load_each cal waits handled now ps w' tw') in
      if handled p then loaded else skipped

  -- `LoadFromStore`, at a store, a wheel and a resolver that are there and a time that is set
  unfoldable pub load_from_store : Calendar → (ℕ → Bool) → (Job → Bool) → ℕ → World → Wheel → Loaded
  unfolding load_each
  load_from_store cal waits handled now (d, log) tw =
      let (r, d') = prune_dedup S T now d in
      elim r [
        | err e ↦ (err (store_failed e), ((d', log), tw))
        | ok _ ↦ elim (load_persistent d') [
          | err e ↦ (err (store_failed e), ((d', log), tw))
          | ok js ↦ load_each cal waits handled now js (d', log) tw
        ]
      ]
