-- ===== src/Scheduler/Hydrate/Backfill.antt =====
-- The policies for missed firings of pkg/scheduler/persist.go, for jobs without an idempotency key.
use soyaos.Prelude.{
  ℕ, suc, ◌%◌, ◌↔◌, In, length, ◌≤◌, ◌<◌, ◌≡◌, refl, inl, inr, Bool, true, false, ◌&&◌, ◌||◌, List,
  [], ◌∷◌, some, Bytes, bytes_eq, is_empty, Result, ok, err, ltb, ◌==◌, if◌then◌else◌, arith, ap,
  Bool-cases,
}
use soyaos.Store.{Store, StoreError}
use soyaos.Scheduler.{minute_ns, CronSpec, parse_cron, Calendar, matches}
use soyaos.Scheduler.Window.{
  cap, cron_matches_between, any_match_between, IsAscending, matches_between-IsAscending,
  matches_between_sound, matches_between_complete,
}
use soyaos.Scheduler.Wheel.{
  Job, add, schedule, put_scheduled, set, remove, unfired, no_cron, tick, due, after,
}
use soyaos.Scheduler.Dedup.{
  time_end, job_namespace, JobText, Log, try_fire, fire_unless, seen_if_keyed, after_record,
  record_if_keyed, save_encoded, saved,
}
use soyaos.Scheduler.Hydrate.{
  skip, once, backfill, missed_from, then_wait, then_add, then_next, backfill_each, missed_parsed,
  missed_cron, apply_missed_fire, load_each,
}

-- The log after a run at each of the times, in order
abbrev pub runs : Job → List ℕ → Log → Log
runs j [] log = log
runs j (t ∷ ts) log = runs j ts ((j, t) ∷ log)

module _ (S : Store) (T : JobText) (j : Job) (encoded : ℕ → Bytes)
    (keyless : is_empty j.idempotency_key ≡ true)
    (encodes : (t : ℕ)
      → t < time_end
      → T.marshal (record j { last_fired_at = t }) ≡ some (encoded t)) where
  abbrev after_put : S.Db → ℕ → S.Db
  after_put d t = (S.put d job_namespace j.id (encoded t)).1

  unkeyed_seen : (d : S.Db) (t : ℕ) → seen_if_keyed S T d j t ≡ ok false
  unfolding seen_if_keyed
  unkeyed_seen d t = rw keyless refl

  unkeyed_recorded : (d : S.Db) (t : ℕ) → record_if_keyed S T d j t ≡ (ok tt, d)
  unfolding record_if_keyed
  unkeyed_recorded d t = rw keyless refl

  try_fire_keyless :
      (d : S.Db) (log : Log) (t : ℕ)
      → t < time_end
      → S.Accepts d job_namespace j.id
      → try_fire S T j t (d, log) ≡ (ok tt, (after_put d t, (j, t) ∷ log))
  unfolding try_fire fire_unless after_record save_encoded saved
  try_fire_keyless d log t early a = rw seen (
      rw recorded (
        rw (encodes t early) (
          saved_ok (S.put d job_namespace j.id (encoded t))
            (S.put_accepts d job_namespace j.id (encoded t) a))))
    where
      seen : seen_if_keyed S T d j t ≡ ok false
      seen = unkeyed_seen d t

      recorded : record_if_keyed S T d j t ≡ (ok tt, d)
      recorded = unkeyed_recorded d t

      saved_ok :
          (q : Result StoreError (Unit {0}) × S.Db)
          → q.0 ≡ ok tt
          → saved S T ((j, t) ∷ log) q ≡ (ok tt, (q.1, (j, t) ∷ log))
      saved_ok (ok u, d') e = refl
      saved_ok (err x, d') e = cc

  backfill_each_keyless :
      (waits : ℕ → Bool) (ts : List ℕ) (i : ℕ) (d : S.Db) (log : Log)
      → ((n : ℕ) → waits n ≡ true)
      → ((t : ℕ) → In t ts → t < time_end)
      → S.Accepts d job_namespace j.id
      → ((backfill_each S T waits j i ts (d, log)).0 ≡ ok tt)
        × ((backfill_each S T waits j i ts (d, log)).1.1 ≡ runs j ts log)
  unfolding backfill_each then_wait
  backfill_each_keyless waits [] i d log all early a = (refl, refl)
  backfill_each_keyless waits (t ∷ []) i d log all early a =
      rw (try_fire_keyless d log t (early t (inl refl)) a) (refl, refl)
  backfill_each_keyless waits (t ∷ u ∷ ts) i d log all early a =
      rw (try_fire_keyless d log t (early t (inl refl)) a) (
        rw (all i) (
          backfill_each_keyless waits (u ∷ ts) (suc i) (after_put d t) ((j, t) ∷ log) all
            (λ v m. early v (inr m))
            (S.accepts_put d job_namespace j.id (encoded t) job_namespace j.id a)))

  backfill-matches :
      (cal : Calendar) (waits : ℕ → Bool) (now : ℕ) (spec : CronSpec) (d : S.Db) (log : Log)
      → j.missed_fire ≡ backfill
      → is_empty j.cron ≡ false
      → parse_cron j.cron ≡ ok spec
      → ((n : ℕ) → waits n ≡ true)
      → now < time_end
      → S.Accepts d job_namespace j.id
      → ((apply_missed_fire S T cal waits j now (d, log)).0 ≡ ok tt)
        × ((apply_missed_fire S T cal waits j now (d, log)).1.1
            ≡ runs j (cron_matches_between (matches cal spec) (missed_from j now) now) log)
  unfolding apply_missed_fire missed_parsed missed_cron
  backfill-matches cal waits now spec d log policy cron parsed all early a =
      let kept : (bytes_eq j.missed_fire skip || is_empty j.missed_fire) ≡ false =
        ap (λ m. bytes_eq m skip || is_empty m) policy in
      let not_once : bytes_eq j.missed_fire once ≡ false = ap (λ m. bytes_eq m once) policy in
      let is_backfill : bytes_eq j.missed_fire backfill ≡ true =
        ap (λ m. bytes_eq m backfill) policy in
      let from = missed_from j now in
      rw (kept, cron, parsed, not_once, is_backfill)
        (backfill_each_keyless waits (cron_matches_between (matches cal spec) from now) 0 d log all
          (λ t m. omega (arith, (matches_between_sound (matches cal spec) from now t m).1)) a)

  -- Under the policy `backfill`, a job without an idempotency key and with an expression that
  -- parses is run exactly once at every minute boundary after its last firing and not after the
  -- present time that the expression matches, in order and at no other time, and there is no
  -- error: where fewer than 10080 such times are found, the present time is before the year 10000,
  -- the job can be encoded with such times, no write at it fails, and no wait is cut short. A job
  -- that never ran is taken to have run 24 hours ago.
  pub backfill_all :
      (cal : Calendar) (waits : ℕ → Bool) (now : ℕ) (spec : CronSpec) (d : S.Db) (log : Log)
      → j.missed_fire ≡ backfill
      → is_empty j.cron ≡ false
      → parse_cron j.cron ≡ ok spec
      → ((n : ℕ) → waits n ≡ true)
      → now < time_end
      → S.Accepts d job_namespace j.id
      → length (cron_matches_between (matches cal spec) (missed_from j now) now) < cap
      → ((apply_missed_fire S T cal waits j now (d, log)).0 ≡ ok tt)
        × ((ts : List ℕ) × ((apply_missed_fire S T cal waits j now (d, log)).1.1 ≡ runs j ts log)
            × IsAscending ts
            × ((t : ℕ)
                → In t ts ↔ (
                    (missed_from j now < t)
                    × (t ≤ now)
                    × (t % minute_ns ≡ 0)
                    × (matches cal spec t ≡ true))))
  backfill_all cal waits now spec d log policy cron parsed all early a few =
      let test = matches cal spec in
      let from = missed_from j now in
      let (fine, ran) = backfill-matches cal waits now spec d log policy cron parsed all early a in
      (
        fine,
        (
          cron_matches_between test from now,
          ran,
          matches_between-IsAscending test from now,
          λ t. (
            matches_between_sound test from now t,
            λ (lo, hi, grid, m). matches_between_complete test from now t few lo hi grid m,
          ),
        ),
      )

  -- Under the policy `once`, a job without an idempotency key and with an expression that parses
  -- is run once, at the present time, if `anyMatchBetween` finds a missed time, and else not, if
  -- the job can be encoded and no write at it fails.
  pub once_if_missed :
      (cal : Calendar) (waits : ℕ → Bool) (now : ℕ) (spec : CronSpec) (d : S.Db) (log : Log)
      → j.missed_fire ≡ once
      → is_empty j.cron ≡ false
      → parse_cron j.cron ≡ ok spec
      → now < time_end
      → S.Accepts d job_namespace j.id
      → (apply_missed_fire S T cal waits j now (d, log)).1.1 ≡ (
          if any_match_between (matches cal spec) (missed_from j now) now
          then (j, now) ∷ log
          else log)
  unfolding apply_missed_fire missed_parsed missed_cron
  once_if_missed cal waits now spec d log policy cron parsed early a =
      let kept : (bytes_eq j.missed_fire skip || is_empty j.missed_fire) ≡ false =
        ap (λ m. bytes_eq m skip || is_empty m) policy in
      let is_once : bytes_eq j.missed_fire once ≡ true = ap (λ m. bytes_eq m once) policy in
      elim (Bool-cases (any_match_between (matches cal spec) (missed_from j now) now)) [
        | inl missed ↦ rw kept (
            rw cron
              (rw parsed (rw is_once (rw missed (rw (try_fire_keyless d log now early a) refl)))))
        | inr none_missed ↦ rw kept (rw cron (rw parsed (rw is_once (rw none_missed refl))))
      ]

  passed_applied :
      (cal : Calendar) (waits : ℕ → Bool) (now : ℕ) (d : S.Db) (log : Log)
      → j.missed_fire ≡ once
      → is_empty j.cron ≡ true
      → (j.last_fired_at == 0) ≡ true
      → j.run_at < now
      → now < time_end
      → S.Accepts d job_namespace j.id
      → apply_missed_fire S T cal waits j now (d, log) ≡ (ok tt, (after_put d now, (j, now) ∷ log))
  unfolding apply_missed_fire
  passed_applied cal waits now d log policy cron never passed early a =
      let kept : (bytes_eq j.missed_fire skip || is_empty j.missed_fire) ≡ false =
        ap (λ m. bytes_eq m skip || is_empty m) policy in
      let before : (ltb j.run_at now && j.last_fired_at == 0) ≡ true = ground arith in
      rw kept (rw cron (rw before (rw (try_fire_keyless d log now early a) refl)))

  scheduled :
      is_empty j.cron ≡ true → (j.run_at == 0) ≡ false → schedule j ≡ ok (unfired j no_cron true)
  unfolding schedule
  scheduled cron given = rw (cron, given) refl

  -- A job without an idempotency key and without an expression, whose time has passed, and which
  -- never ran, is run under the policy `once` when it is loaded into an empty wheel, and is then
  -- started again by the first tick not before its time, if the present time is before the year
  -- 10000, the job can be encoded with such times and no write at it fails.
  pub passed_job_twice :
      (cal : Calendar) (waits : ℕ → Bool) (now later : ℕ) (d : S.Db) (log : Log)
      → j.missed_fire ≡ once
      → is_empty j.cron ≡ true
      → (j.run_at == 0) ≡ false
      → (j.last_fired_at == 0) ≡ true
      → j.run_at < now
      → j.run_at ≤ later
      → now < time_end
      → S.Accepts d job_namespace j.id
      → ((load_each S T cal waits (λ _. true) now (j ∷ []) (d, log) []).1.0.1 ≡ (j, now) ∷ log)
        × ((tick cal later (load_each S T cal waits (λ _. true) now (j ∷ []) (d, log) []).1.1).1
            ≡ j.id ∷ [])
  unfolding load_each then_add then_next tick due after add put_scheduled set remove
  passed_job_twice cal waits now later d log policy cron given never passed reach early a =
      let set_policy : is_empty j.missed_fire ≡ false = ap is_empty policy in
      rw set_policy (
        rw (passed_applied cal waits now d log policy cron never passed early a)
          (rw (scheduled cron given) (refl, started)))
    where
      started : (tick cal later ((j.id, unfired j no_cron true) ∷ [])).1 ≡ j.id ∷ []
      started = ground arith
