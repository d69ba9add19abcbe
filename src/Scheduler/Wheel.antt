-- ===== src/Scheduler/Wheel.antt =====
-- pkg/scheduler/scheduler.go: the time wheel. Its mutex makes `Add`, `Cancel` and the choice of the jobs in `tick` one
-- step each, so its use is a sequence of operations. The map of jobs is an association list; the callbacks of a tick
-- run on goroutines of their own, and are the identifiers, as keys
-- of the map, of the jobs that it starts.
pub mod Firing
mod Tests
use soyaos.Prelude.{
  ℕ, Bool, true, false, not, ◌&&◌, List, [], ◌∷◌, ◌++◌, Option, none, some, Bytes, bytes_eq,
  is_empty, Result, ok, err, leb, ltb, ◌==◌, if◌then◌else◌,
}
use soyaos.Scheduler.{FieldSet, CronSpec, CronError, parse_cron, Calendar, matches}

-- Where the time is zero, it is not set.
pub record Job : Type 0 where
  pub id : Bytes
  pub cron : Bytes
  pub run_at : ℕ
  pub idempotency_key : Bytes
  pub missed_fire : Bytes
  pub last_fired_at : ℕ

pub record Scheduled : Type 0 where
  pub job : Job
  pub cron : CronSpec
  pub one_shot : Bool
  pub fired : Bool

abbrev pub Wheel : Type 0
Wheel = List (Bytes × Scheduled)

pub data AddError : Type 0 where
  empty_job : AddError
  bad_cron : CronError → AddError

-- The zero value of `cronSpec`
abbrev no_field : FieldSet
no_field = record { any = false; values = [] }

abbrev pub no_cron : CronSpec
no_cron = record {
  minute = no_field;
  hour = no_field;
  day_of_month = no_field;
  month = no_field;
  day_of_week = no_field;
}

abbrev pub unfired : Job → CronSpec → Bool → Scheduled
unfired j spec one_shot = record { job = j; cron = spec; one_shot = one_shot; fired = false }

unfoldable pub remove : Bytes → Wheel → Wheel
remove id [] = []
remove id ((k, s) ∷ w) = let rest = remove id w in if bytes_eq k id then rest else (k, s) ∷ rest

unfoldable pub set : Bytes → Scheduled → Wheel → Wheel
set id s w = (id, s) ∷ remove id w

-- What `Add` puts into the wheel for a job
unfoldable pub schedule : Job → Result AddError Scheduled
schedule j =
    if is_empty j.cron && j.run_at == 0
    then err empty_job
    else if is_empty j.cron
    then ok (unfired j no_cron true)
    else of_cron (parse_cron j.cron)
  where
    of_cron : Result CronError CronSpec → Result AddError Scheduled
    of_cron (err e) = err (bad_cron e)
    of_cron (ok spec) = ok (unfired j spec false)

unfoldable pub put_scheduled :
    Job → Result AddError Scheduled → Wheel → Result AddError (Unit {0}) × Wheel
unfolding set
put_scheduled j (err e) w = (err e, w)
put_scheduled j (ok s) w = (ok tt, set j.id s w)

-- `TimeWheel.Add`
unfoldable pub add : Job → Wheel → Result AddError (Unit {0}) × Wheel
unfolding schedule put_scheduled
add j w = put_scheduled j (schedule j) w

-- `TimeWheel.Cancel`
unfoldable pub cancel : Bytes → Wheel → Wheel
unfolding remove
cancel id w = remove id w

module _ (cal : Calendar) where
  -- The test of one job in `tick`
  unfoldable pub due : ℕ → Scheduled → Bool
  due now s = if s.one_shot then not s.fired && leb s.job.run_at now else matches cal s.cron now

  -- What the test leaves of the job
  unfoldable pub after : ℕ → Scheduled → Scheduled
  unfolding due
  after now s = if s.one_shot && due now s then record s { fired = true } else s

  -- `TimeWheel.tick`: the wheel it leaves, and the jobs it starts.
  unfoldable pub tick : ℕ → Wheel → Wheel × List Bytes
  unfolding due after
  tick now [] = ([], [])
  tick now ((k, s) ∷ w) =
      let (w', started) = tick now w in
      ((k, after now s) ∷ w', if due now s then k ∷ started else started)

pub data Op : Type 0 where
  add_job : Job → Op
  cancel_job : Bytes → Op
  tick_at : ℕ → Op

-- Whether an operation registers, or removes, the job of an identifier
abbrev pub adds : Bytes → Op → Bool
adds id (add_job j) = bytes_eq j.id id
adds id (cancel_job k) = false
adds id (tick_at now) = false

abbrev pub cancels : Bytes → Op → Bool
cancels id (add_job j) = false
cancels id (cancel_job k) = bytes_eq k id
cancels id (tick_at now) = false

abbrev pub step : Calendar → Op → Wheel → Wheel × List Bytes
step cal (add_job j) w = ((add j w).1, [])
step cal (cancel_job id) w = (cancel id w, [])
step cal (tick_at now) w = tick cal now w

-- A sequence of operations: the wheel at its end, and every job started, in order.
abbrev pub run : Calendar → List Op → Wheel → Wheel × List Bytes
run cal [] w = (w, [])
run cal (o ∷ os) w =
    let (w', started) = step cal o w in let (w'', later) = run cal os w' in (w'', started ++ later)
