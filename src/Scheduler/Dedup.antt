-- ===== src/Scheduler/Dedup.antt =====
-- pkg/scheduler/persist.go: the firing of jobs under idempotency keys, at start (`tryFire`) and live
-- (`wrapFireWithDedup`), with the records of the last 24 hours in a store of pkg/store. The callbacks of the jobs are
-- not part of it: that one runs is an entry of a log, the newest first. A live callback runs on a goroutine of its own, so
-- it is two steps, with the job between them.
pub mod Attempts
pub mod Spacing
pub mod Prune
mod Tests
use soyaos.Prelude.{
  ℕ, ◌+◌, ◌*◌, ◌<◌, ◌≡◌, Bool, true, false, not, List, [], ◌∷◌, Option, none, some, Bytes, codes,
  is_empty, Result, ok, err, ltb, if◌then◌else◌, bytes_eq,
}
use soyaos.Store.{Store, StoreError, not_found, backend}
use soyaos.Scheduler.Wheel.{Job}

abbrev pub job_namespace : Bytes
job_namespace = codes "scheduler.jobs"

abbrev pub dedup_namespace : Bytes
dedup_namespace = codes "scheduler.dedup"

-- `DedupWindow`, 24 hours
abbrev pub window : ℕ
window = 24 * (3600 * 1_000_000_000)

-- The start of the year 10000: RFC 3339 has four digits for the year.
abbrev pub time_end : ℕ
time_end = 315_537_897_600 * 1_000_000_000

-- `Time.Format` and `time.Parse` at `time.RFC3339Nano`, and `json.Marshal` and `json.Unmarshal` at `PersistedJob`.
pub record JobText : Type 0 where
  pub format : ℕ → Bytes
  pub parse : Bytes → Option ℕ
  pub marshal : Job → Option Bytes
  pub unmarshal : Bytes → Option Job
  pub parse-format : (t : ℕ) → t < time_end → parse (format t) ≡ some t

pub data FireError : Type 0 where
  store_error : StoreError → FireError
  encode_error : FireError

abbrev pub Log : Type 0
Log = List (Job × ℕ)

module _ (S : Store) (T : JobText) where
  -- What `dedupSeen` makes of the record of a key
  pub judge_time : ℕ → Option ℕ → Bool
  judge_time now none = false
  judge_time now (some last) = ltb now (last + window)

  pub judge : ℕ → Result StoreError Bytes → Result StoreError Bool
  unfolding judge_time
  judge now (ok raw) = ok (judge_time now (T.parse raw))
  judge now (err not_found) = ok false
  judge now (err backend) = err backend

  -- `dedupSeen`
  pub dedup_seen : S.Db → Bytes → ℕ → Result StoreError Bool
  unfolding judge
  dedup_seen d key now = judge now (S.get d dedup_namespace key)

  -- `dedupRecord`
  pub dedup_record : S.Db → Bytes → ℕ → Result StoreError (Unit {0}) × S.Db
  dedup_record d key at = S.put d dedup_namespace key (T.format at)

  -- The two steps of `tryFire` that are left out where the job has no key
  unfoldable pub seen_if_keyed : S.Db → Job → ℕ → Result StoreError Bool
  seen_if_keyed d j at =
      if is_empty j.idempotency_key then ok false else dedup_seen d j.idempotency_key at

  unfoldable pub record_if_keyed : S.Db → Job → ℕ → Result StoreError (Unit {0}) × S.Db
  record_if_keyed d j at =
      if is_empty j.idempotency_key then (ok tt, d) else dedup_record d j.idempotency_key at

  unfoldable pub saved :
      Log → Result StoreError (Unit {0}) × S.Db → Result FireError (Unit {0}) × (S.Db × Log)
  saved log (ok _, d) = (ok tt, (d, log))
  saved log (err e, d) = (err (store_error e), (d, log))

  unfoldable pub save_encoded :
      Log → S.Db → Job → Option Bytes → Result FireError (Unit {0}) × (S.Db × Log)
  unfolding saved
  save_encoded log d j none = (err encode_error, (d, log))
  save_encoded log d j (some body) = saved log (S.put d job_namespace j.id body)

  -- `tryFire` behind the record of the key
  unfoldable pub after_record :
      Log
      → Job
      → ℕ
      → Result StoreError (Unit {0}) × S.Db
      → Result FireError (Unit {0}) × (S.Db × Log)
  unfolding save_encoded
  after_record log j at (err e, d) = (err (store_error e), (d, log))
  after_record log j at (ok _, d) =
      let j' = record j { last_fired_at = at } in save_encoded log d j' (T.marshal j')

  -- `tryFire` behind the question whether the key was seen
  unfoldable pub fire_unless :
      Job → ℕ → S.Db × Log → Result StoreError Bool → Result FireError (Unit {0}) × (S.Db × Log)
  unfolding after_record record_if_keyed
  fire_unless j at w (err e) = (err (store_error e), w)
  fire_unless j at w (ok true) = (ok tt, w)
  fire_unless j at (d, log) (ok false) = after_record ((j, at) ∷ log) j at (record_if_keyed d j at)

  -- `tryFire`
  unfoldable pub try_fire : Job → ℕ → S.Db × Log → Result FireError (Unit {0}) × (S.Db × Log)
  unfolding fire_unless seen_if_keyed
  try_fire j at (d, log) = fire_unless j at (d, log) (seen_if_keyed d j at)

  abbrev pub is_fresh : Result StoreError Bool → Bool
  is_fresh (ok seen) = not seen
  is_fresh (err e) = false

  -- The callback that `wrapFireWithDedup` makes, called at `now`, up to the job itself: whether that runs. Nothing locks
  -- the record of the key between this and `live_end`.
  unfoldable pub live_begins : S.Db → Job → ℕ → Bool
  unfolding seen_if_keyed
  live_begins d j now = is_fresh (seen_if_keyed d j now)

  -- The rest of the callback, behind the job
  unfoldable pub live_end : S.Db → Job → ℕ → S.Db
  unfolding record_if_keyed
  live_end d j now = (record_if_keyed d j now).1

  -- One round of the loop of `pruneDedup`
  pub prune_pair : ℕ → Bytes → Option ℕ → S.Db → S.Db
  prune_pair now k none d = d
  prune_pair now k (some t) d = if ltb (t + window) now then (S.delete d dedup_namespace k).1 else d

  pub prune_pairs : ℕ → List (Bytes × Bytes) → S.Db → S.Db
  unfolding prune_pair
  prune_pairs now [] d = d
  prune_pairs now ((k, v) ∷ ps) d = prune_pairs now ps (prune_pair now k (T.parse v) d)

  pub pruned :
      ℕ → S.Db → Result StoreError (List (Bytes × Bytes)) → Result StoreError (Unit {0}) × S.Db
  unfolding prune_pairs
  pruned now d (err e) = (err e, d)
  pruned now d (ok ps) = (ok tt, prune_pairs now ps d)

  -- `pruneDedup`
  unfoldable pub prune_dedup : ℕ → S.Db → Result StoreError (Unit {0}) × S.Db
  unfolding pruned
  prune_dedup now d = pruned now d (S.list d dedup_namespace [])
