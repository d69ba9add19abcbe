-- ===== src/Scheduler/Wheel/Firing.antt =====
-- How often the time wheel of pkg/scheduler/scheduler.go starts a job.
use soyaos.Prelude.{
  ℕ, ◌+◌, ◌≡◌, refl, ◌⊎◌, inl, inr, Bool, true, false, ◌&&◌, ◌||◌, not, List, [], ◌∷◌, ◌++◌, Bytes,
  bytes_eq, bytes_eq_iff, bytes_eq_refl, is_empty, Result, ok, err, leb, ◌==◌, if◌then◌else◌, arith,
  Bool-cases, ◌∙◌,
}
use soyaos.Scheduler.{CronSpec, parse_cron, Calendar, matches}
use soyaos.Scheduler.Wheel.{
  Job, Scheduled, Wheel, remove, set, schedule, put_scheduled, add, cancel, due, after, tick, Op,
  add_job, cancel_job, tick_at, adds, cancels, step, run, AddError, unfired, no_cron,
}

abbrev pub count : Bytes → List Bytes → ℕ
count id [] = 0
count id (x ∷ xs) = let rest = count id xs in if bytes_eq x id then 1 + rest else rest

count-++ : (id : Bytes) (xs ys : List Bytes) → count id (xs ++ ys) ≡ count id xs + count id ys
count-++ id [] ys = omega arith
count-++ id (x ∷ xs) ys = ground (arith, count-++ id xs ys)

-- The wheel has no entry, or one entry, of the identifier.
abbrev Absent : Bytes → Wheel → Type 0
Absent id [] = Unit
Absent id ((k, s) ∷ w) = (bytes_eq k id ≡ false) × Absent id w

abbrev Only : Bytes → Scheduled → Wheel → Type 0
Only id s [] = ⊥
Only id s ((k, s') ∷ w) =
    ((bytes_eq k id ≡ true) × (s' ≡ s) × Absent id w) ⊎ ((bytes_eq k id ≡ false) × Only id s w)

remove-Absent : (id : Bytes) (w : Wheel) → Absent id (remove id w)
unfolding remove
remove-Absent id [] = tt
remove-Absent id ((k, s) ∷ w) = elim (Bool-cases (bytes_eq k id)) [
  | inl e ↦ rw e (remove-Absent id w)
  | inr e ↦ rw e (e, remove-Absent id w)
]

remove_other-Absent : (id k : Bytes) (w : Wheel) → Absent id w → Absent id (remove k w)
unfolding remove
remove_other-Absent id k [] h = tt
remove_other-Absent id k ((j, s) ∷ w) (e, h) = elim (Bool-cases (bytes_eq j k)) [
  | inl same ↦ rw same (remove_other-Absent id k w h)
  | inr other ↦ rw other (e, remove_other-Absent id k w h)
]

remove_other-Only :
    (id k : Bytes) (s : Scheduled) (w : Wheel)
    → bytes_eq k id ≡ false
    → Only id s w
    → Only id s (remove k w)
unfolding remove
remove_other-Only id k s [] e h = absurd h
remove_other-Only id k s ((j, s') ∷ w) e h = elim (Bool-cases (bytes_eq j k)) [
  | inl same ↦ rw same (remove_other-Only id k s w e (later h (cc_same same)))
  | inr other ↦ rw other (elim h [
    | inl here ↦ inl (here.0, here.1, remove_other-Absent id k w here.2)
    | inr there ↦ inr (there.0, remove_other-Only id k s w e there.1)
  ])
]
  where
    cc_same : bytes_eq j k ≡ true → bytes_eq j id ≡ false
    cc_same same = ground (arith, bytes_eq_iff j k, e)

    later :
        ((bytes_eq j id ≡ true) × (s' ≡ s) × Absent id w) ⊎ ((bytes_eq j id ≡ false) × Only id s w)
        → bytes_eq j id ≡ false
        → Only id s w
    later (inl here) f = ground arith
    later (inr there) f = there.1

-- No operation registers the identifier; or none registers or removes it.
abbrev pub unregistered : Bytes → List Op → Bool
unregistered id [] = true
unregistered id (o ∷ os) = not (adds id o) && unregistered id os

abbrev pub untouched : Bytes → List Op → Bool
untouched id [] = true
untouched id (o ∷ os) = not (adds id o || cancels id o) && untouched id os

-- Some tick is not before the time; and the number of ticks that the expression matches.
abbrev pub reached : ℕ → List Op → Bool
reached t [] = false
reached t (add_job j ∷ os) = reached t os
reached t (cancel_job k ∷ os) = reached t os
reached t (tick_at now ∷ os) = leb t now || reached t os

abbrev pub hits : Calendar → CronSpec → List Op → ℕ
hits cal spec [] = 0
hits cal spec (add_job j ∷ os) = hits cal spec os
hits cal spec (cancel_job k ∷ os) = hits cal spec os
hits cal spec (tick_at now ∷ os) =
    let rest = hits cal spec os in if matches cal spec now then 1 + rest else rest

put-Absent :
    (id : Bytes) (j : Job) (r : Result AddError Scheduled) (w : Wheel)
    → bytes_eq j.id id ≡ false
    → Absent id w
    → Absent id (put_scheduled j r w).1
unfolding put_scheduled set
put-Absent id j (err e) w ne h = h
put-Absent id j (ok s) w ne h = (ne, remove_other-Absent id j.id w h)

put-Only :
    (id : Bytes) (j : Job) (r : Result AddError Scheduled) (s : Scheduled) (w : Wheel)
    → bytes_eq j.id id ≡ false
    → Only id s w
    → Only id s (put_scheduled j r w).1
unfolding put_scheduled set
put-Only id j (err e) s w ne h = h
put-Only id j (ok s') s w ne h = inr (ne, remove_other-Only id j.id s w ne h)

module _ (cal : Calendar) where
  tick-Absent :
      (id : Bytes) (now : ℕ) (w : Wheel)
      → Absent id w
      → (count id (tick cal now w).1 ≡ 0) × Absent id (tick cal now w).0
  unfolding tick
  tick-Absent id now [] h = (refl, tt)
  tick-Absent id now ((k, s) ∷ w) (e, h) =
      let ih = tick-Absent id now w h in (ground (arith, ih.0), (e, ih.1))

  tick-Only :
      (id : Bytes) (now : ℕ) (s : Scheduled) (w : Wheel)
      → Only id s w
      → (count id (tick cal now w).1 ≡ (if due cal now s then 1 else 0))
        × Only id (after cal now s) (tick cal now w).0
  unfolding tick
  tick-Only id now s [] h = absurd h
  tick-Only id now s ((k, s') ∷ w) (inl (e, same, h)) =
      let ih = tick-Absent id now w h in rw same (ground (arith, ih.0), inl (e, refl, ih.1))
  tick-Only id now s ((k, s') ∷ w) (inr (e, h)) =
      let ih = tick-Only id now s w h in (ground (arith, ih.0), inr (e, ih.1))

  step-Absent :
      (id : Bytes) (o : Op) (w : Wheel)
      → adds id o ≡ false
      → Absent id w
      → (count id (step cal o w).1 ≡ 0) × Absent id (step cal o w).0
  unfolding add cancel
  step-Absent id (add_job j) w e h = (refl, put-Absent id j (schedule j) w e h)
  step-Absent id (cancel_job k) w e h = (refl, remove_other-Absent id k w h)
  step-Absent id (tick_at now) w e h = tick-Absent id now w h

  run-Absent :
      (id : Bytes) (os : List Op) (w : Wheel)
      → unregistered id os ≡ true
      → Absent id w
      → count id (run cal os w).1 ≡ 0
  run-Absent id [] w u h = refl
  run-Absent id (o ∷ os) w u h =
      let one = step-Absent id o w (ground arith) h in
      ground (
        arith,
        count-++ id (step cal o w).1 (run cal os (step cal o w).0).1,
        one.0,
        run-Absent id os (step cal o w).0 (ground arith) one.1,
      )

  -- What one operation, and a sequence of them, make of the job
  abbrev aged : Op → Scheduled → Scheduled
  aged (add_job j) s = s
  aged (cancel_job k) s = s
  aged (tick_at now) s = after cal now s

  abbrev starts : Op → Scheduled → ℕ
  starts (add_job j) s = 0
  starts (cancel_job k) s = 0
  starts (tick_at now) s = if due cal now s then 1 else 0

  abbrev all_starts : List Op → Scheduled → ℕ
  all_starts [] s = 0
  all_starts (o ∷ os) s = starts o s + all_starts os (aged o s)

  step-Only :
      (id : Bytes) (o : Op) (s : Scheduled) (w : Wheel)
      → (adds id o || cancels id o) ≡ false
      → Only id s w
      → (count id (step cal o w).1 ≡ starts o s) × Only id (aged o s) (step cal o w).0
  unfolding add cancel
  step-Only id (add_job j) s w e h = (refl, put-Only id j (schedule j) s w (ground arith) h)
  step-Only id (cancel_job k) s w e h = (refl, remove_other-Only id k s w (ground arith) h)
  step-Only id (tick_at now) s w e h = tick-Only id now s w h

  run-Only :
      (id : Bytes) (os : List Op) (s : Scheduled) (w : Wheel)
      → untouched id os ≡ true
      → Only id s w
      → count id (run cal os w).1 ≡ all_starts os s
  run-Only id [] s w u h = refl
  run-Only id (o ∷ os) s w u h =
      let one = step-Only id o s w (ground arith) h in
      ground (
        arith,
        count-++ id (step cal o w).1 (run cal os (step cal o w).0).1,
        one.0,
        run-Only id os (aged o s) (step cal o w).0 (ground arith) one.1,
      )

  starts_one_shot :
      (os : List Op) (s : Scheduled)
      → s.one_shot ≡ true
      → all_starts os s ≡ (if not s.fired && reached s.job.run_at os then 1 else 0)
  unfolding due after
  starts_one_shot [] s e = ground arith
  starts_one_shot (add_job j ∷ os) s e = ground (arith, starts_one_shot os s e)
  starts_one_shot (cancel_job k ∷ os) s e = ground (arith, starts_one_shot os s e)
  starts_one_shot (tick_at now ∷ os) s e =
      ground (arith, starts_one_shot os s e, starts_one_shot os (record s { fired = true }) e)

  starts_cron :
      (os : List Op) (s : Scheduled) → s.one_shot ≡ false → all_starts os s ≡ hits cal s.cron os
  unfolding due after
  starts_cron [] s e = refl
  starts_cron (add_job j ∷ os) s e = ground (arith, starts_cron os s e)
  starts_cron (cancel_job k ∷ os) s e = ground (arith, starts_cron os s e)
  starts_cron (tick_at now ∷ os) s e = ground (arith, starts_cron os s e)

-- After `Cancel`, whatever happens, the job is not started until its identifier is registered
-- again.
pub canceled_silent :
    (cal : Calendar) (id : Bytes) (os : List Op) (w : Wheel)
    → unregistered id os ≡ true
    → count id (run cal os (cancel id w)).1 ≡ 0
unfolding cancel
canceled_silent cal id os w u = run-Absent cal id os (remove id w) u (remove-Absent id w)

run_scheduled :
    (cal : Calendar) (j : Job) (s : Scheduled) (os : List Op) (w : Wheel)
    → schedule j ≡ ok s
    → untouched j.id os ≡ true
    → count j.id (run cal os (add j w).1).1 ≡ all_starts cal os s
unfolding add put_scheduled set
run_scheduled cal j s os w e u =
    rw e (
      run-Only cal j.id os s (set j.id s w) u
        (inl (bytes_eq_refl j.id, refl, remove-Absent j.id w)))

schedule_one_shot :
    (j : Job)
    → is_empty j.cron ≡ true
    → (j.run_at == 0) ≡ false
    → (s : Scheduled) × (schedule j ≡ ok s) × (s.job ≡ j) × (s.one_shot ≡ true) × (s.fired ≡ false)
unfolding schedule
schedule_one_shot j e t = (unfired j no_cron true, rw (e, t) refl, refl, refl, refl)

schedule_cron :
    (j : Job) (spec : CronSpec)
    → is_empty j.cron ≡ false
    → parse_cron j.cron ≡ ok spec
    → (s : Scheduled) × (schedule j ≡ ok s) × (s.cron ≡ spec) × (s.one_shot ≡ false)
unfolding schedule
schedule_cron j spec e p = (unfired j spec false, rw (e, p) refl, refl, refl)

-- A job without an expression and with a time, registered in any wheel, is started exactly once if
-- some later tick is not before its time, and never otherwise, while its identifier is neither
-- registered nor removed again.
pub one_shot_once :
    (cal : Calendar) (j : Job) (os : List Op) (w : Wheel)
    → is_empty j.cron ≡ true
    → (j.run_at == 0) ≡ false
    → untouched j.id os ≡ true
    → count j.id (run cal os (add j w).1).1 ≡ (if reached j.run_at os then 1 else 0)
one_shot_once cal j os w e t u =
    let (s, made, job_eq, shot, fresh) = schedule_one_shot j e t in
    run_scheduled cal j s os w made u ∙ starts_one_shot cal os s shot ∙ rw (fresh, job_eq) refl

-- A job with an expression that parses, registered in any wheel, is started exactly as often as a
-- later tick matches the expression, while its identifier is neither registered nor removed again.
pub cron_every_match :
    (cal : Calendar) (j : Job) (spec : CronSpec) (os : List Op) (w : Wheel)
    → is_empty j.cron ≡ false
    → parse_cron j.cron ≡ ok spec
    → untouched j.id os ≡ true
    → count j.id (run cal os (add j w).1).1 ≡ hits cal spec os
cron_every_match cal j spec os w e p u =
    let (s, made, cron_eq, shot) = schedule_cron j spec e p in
    run_scheduled cal j s os w made u ∙ starts_cron cal os s shot ∙ rw cron_eq refl
