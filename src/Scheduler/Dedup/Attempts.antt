-- ===== src/Scheduler/Dedup/Attempts.antt =====
-- Firings under one idempotency key, by pkg/scheduler/persist.go, where attempts overlap: at start, in `tryFire`, and
-- live, in the callbacks of `wrapFireWithDedup`. An attempt begins with the question whether its key was seen, and ends
-- with the record; others may begin and end while its job runs.
use soyaos.Prelude.{
  ℕ, zero, suc, ◌+◌, ◌≤◌, ◌<◌, ◌≡◌, refl, Bool, true, false, List, [], ◌∷◌, Option, none, some,
  Bytes, Result, ok, err, if◌then◌else◌, bytes_eq, get_elem?,
}
use soyaos.Store.{Store, StoreError}
use soyaos.Scheduler.Wheel.{Job}
use soyaos.Scheduler.Dedup.{
  job_namespace, window, time_end, JobText, Log, seen_if_keyed, record_if_keyed, saved,
  save_encoded, after_record, is_fresh, live_begins, live_end, try_fire, fire_unless,
}

-- An attempt at a time: by `tryFire`, or by a live callback
pub data Attempt : Type 0 where
  at_start live : Job → ℕ → Attempt

abbrev pub job_of : Attempt → Job
job_of (at_start j t) = j
job_of (live j t) = j

abbrev pub time_of : Attempt → ℕ
time_of (at_start j t) = t
time_of (live j t) = t

-- An attempt begins, or the one at a place among those in flight ends.
pub data Step : Type 0 where
  begin : Attempt → Step
  finish : ℕ → Step

-- When the jobs of a key ran, the newest first
abbrev pub fires : Bytes → Log → List ℕ
fires key [] = []
fires key ((j, t) ∷ log) =
    let rest = fires key log in if bytes_eq j.idempotency_key key then t ∷ rest else rest

-- Each run is a window after the one before it.
abbrev pub Spaced : List ℕ → Type 0
Spaced [] = Unit
Spaced (t ∷ []) = Unit
Spaced (t ∷ u ∷ ts) = (u + window ≤ t) × Spaced (u ∷ ts)

abbrev pub has_key : Bytes → Attempt → Bool
has_key key a = bytes_eq (job_of a).idempotency_key key

-- The times of the attempts under a key
abbrev pub flying : Bytes → List Attempt → List ℕ
flying key [] = []
flying key (a ∷ fs) = let rest = flying key fs in if has_key key a then time_of a ∷ rest else rest

abbrev pub remove_at : ℕ → List Attempt → List Attempt
remove_at n [] = []
remove_at zero (a ∷ fs) = fs
remove_at (suc n) (a ∷ fs) = a ∷ remove_at n fs

module _ (S : Store) (T : JobText) where
  -- The store, the log, and the attempts whose job runs
  abbrev pub World : Type 0
  World = S.Db × (Log × List Attempt)

  -- The end of an attempt whose job has run: the record of the key, and in `tryFire` that of the job
  abbrev pub ended : Attempt → S.Db → S.Db
  ended (at_start j t) d = (after_record S T [] j t (record_if_keyed S T d j t)).1.0
  ended (live j t) d = live_end S T d j t

  abbrev pub finished : Option Attempt → ℕ → World → World
  finished none n w = w
  finished (some a) n (d, (log, fs)) = (ended a d, (log, remove_at n fs))

  abbrev pub advance : Step → World → World
  advance (begin a) (d, (log, fs)) =
      if live_begins S T d (job_of a) (time_of a)
      then (d, ((job_of a, time_of a) ∷ log, a ∷ fs))
      else (d, (log, fs))
  advance (finish n) (d, (log, fs)) = finished (get_elem? fs n) n (d, (log, fs))

  abbrev pub progress : List Step → World → World
  progress [] w = w
  progress (s ∷ rest) w = progress rest (advance s w)

  after_record-log :
      (log : Log) (j : Job) (t : ℕ) (p : Result StoreError (Unit {0}) × S.Db)
      → (after_record S T log j t p).1 ≡ ((after_record S T [] j t p).1.0, log)
  unfolding after_record save_encoded saved
  after_record-log log j t (err e, d) = refl
  after_record-log log j t (ok u, d) = encoded (T.marshal (record j { last_fired_at = t }))
    where
      j' : Job
      j' = record j { last_fired_at = t }

      written :
          (q : Result StoreError (Unit {0}) × S.Db)
          → (saved S T log q).1 ≡ ((saved S T [] q).1.0, log)
      written (ok u', d') = refl
      written (err e, d') = refl

      encoded :
          (o : Option Bytes)
          → (save_encoded S T log d j' o).1 ≡ ((save_encoded S T [] d j' o).1.0, log)
      encoded none = refl
      encoded (some body) = written (S.put d job_namespace j.id body)

  -- `tryFire` where nothing happens while its job runs: the attempt begins, and ends at once if it did.
  pub try_fire-progress :
      (j : Job) (t : ℕ) (d : S.Db) (log : Log)
      → (try_fire S T j t (d, log)).1
        ≡ (if live_begins S T d j t then (ended (at_start j t) d, (j, t) ∷ log) else (d, log))
  unfolding try_fire fire_unless live_begins
  try_fire-progress j t d log = decided (seen_if_keyed S T d j t)
    where
      decided :
          (r : Result StoreError Bool)
          → (fire_unless S T j t (d, log) r).1
            ≡ (if is_fresh S T r then (ended (at_start j t) d, (j, t) ∷ log) else (d, log))
      decided (err e) = refl
      decided (ok true) = refl
      decided (ok false) = after_record-log ((j, t) ∷ log) j t (record_if_keyed S T d j t)

  -- No attempt under the key begins while the job of another under it runs, and times are before the year 10000.
  abbrev pub MayBegin : Bytes → Step → World → Type 0
  MayBegin key (begin a) (d, (log, fs)) =
      has_key key a ≡ true → (flying key fs ≡ []) × (time_of a < time_end)
  MayBegin key (finish n) w = Unit {0}

  abbrev pub IsSerial : Bytes → List Step → World → Type 0
  IsSerial key [] w = Unit {0}
  IsSerial key (s ∷ rest) w = MayBegin key s w × IsSerial key rest (advance s w)
