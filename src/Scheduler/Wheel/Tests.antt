-- ===== src/Scheduler/Wheel/Tests.antt =====
-- Runs of the time wheel at concrete jobs.
use soyaos.Prelude.{true, false, ◌≡◌, ◌*◌, ◌/◌, ◌%◌, refl, List, [], ◌∷◌, codes, ok, if◌then◌else◌}
use soyaos.Scheduler.{CronSpec, Calendar, parse_cron, minute_ns}
use soyaos.Scheduler.Wheel.{Job, Op, add_job, cancel_job, tick_at, run, add}
use soyaos.Scheduler.Wheel.Firing.{count, hits, reached, one_shot_once, cron_every_match}

-- A calendar of days of 24 hours, in which every day is a Monday, the first of January.
abbrev days : Calendar
days = record {
  minute = λ t. t / minute_ns % 60;
  hour = λ t. t / (60 * minute_ns) % 24;
  day = λ t. 1;
  month = λ t. 1;
  weekday = λ t. 1;
}

abbrev once : Job
once = record {
  id = codes "once";
  cron = [];
  run_at = 90_000_000_000;
  idempotency_key = [];
  missed_fire = [];
  last_fired_at = 0;
}

abbrev hourly : Job
hourly = record once { id = codes "hourly"; cron = codes "0 * * * *" }

abbrev on_the_hour : CronSpec
on_the_hour = record {
  minute = record { any = false; values = 0 ∷ [] };
  hour = record { any = true; values = [] };
  day_of_month = record { any = true; values = [] };
  month = record { any = true; values = [] };
  day_of_week = record { any = true; values = [] };
}

abbrev ticks : List Op
ticks = tick_at 60_000_000_000 ∷ tick_at 91_000_000_000 ∷ tick_at 3_600_000_000_000 ∷ []

abbrev moves : List Op
moves = tick_at 60_000_000_000 ∷ add_job hourly ∷ cancel_job (codes "x") ∷ ticks

parse_hourly : parse_cron (codes "0 * * * *") ≡ ok on_the_hour
unfolding parse_cron
parse_hourly = refl

one_shot_once_example :
    count (codes "once") (run days moves (add once []).1).1
    ≡ (if reached 90_000_000_000 moves then 1 else 0)
one_shot_once_example = one_shot_once days once moves [] refl refl refl

cron_every_match_example :
    count (codes "hourly") (run days ticks (add hourly []).1).1 ≡ hits days on_the_hour ticks
cron_every_match_example = cron_every_match days hourly on_the_hour ticks [] refl parse_hourly refl
