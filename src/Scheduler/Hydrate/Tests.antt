-- ===== src/Scheduler/Hydrate/Tests.antt =====
-- Loads of concrete jobs, on the store in memory.
use soyaos.Prelude.{
  if◌then◌else◌, ltb, lt→ltb, List, In, ◌<◌, ◌≤◌, ◌↔◌, length, ℕ, ◌*◌, ◌/◌, ◌%◌, ◌≡◌, refl, arith,
  true, false, [], ◌∷◌, Option, none, some, Bytes, codes, ok,
}
use soyaos.Store.Memory.{memory}
use soyaos.Scheduler.{CronSpec, Calendar, parse_cron, matches, minute_ns}
use soyaos.Scheduler.Window.{cap, collect_matches, cron_matches_between, IsAscending}
use soyaos.Scheduler.Wheel.{Job, tick}
use soyaos.Scheduler.Dedup.{JobText, time_end}
use soyaos.Scheduler.Hydrate.{once, backfill, missed_from, apply_missed_fire, load_each}
use soyaos.Scheduler.Hydrate.Backfill.{runs, backfill_all, passed_job_twice}

abbrev parse : Bytes → Option ℕ
parse (t ∷ []) = some t
parse _ = none

abbrev plain_text : JobText
plain_text = record {
  format = λ t. t ∷ [];
  parse = parse;
  marshal = λ j. if ltb j.last_fired_at time_end then some j.id else none;
  unmarshal = λ b. none;
  parse-format = λ t b. refl;
}

abbrev days : Calendar
days = record {
  minute = λ t. t / minute_ns % 60;
  hour = λ t. t / (60 * minute_ns) % 24;
  day = λ t. 1;
  month = λ t. 1;
  weekday = λ t. 1;
}

abbrev hourly : Job
hourly = record {
  id = codes "hourly";
  cron = codes "0 * * * *";
  run_at = 0;
  idempotency_key = [];
  missed_fire = backfill;
  last_fired_at = 3_600_000_000_000;
}

abbrev passed : Job
passed = record hourly { cron = []; run_at = 5; missed_fire = once; last_fired_at = 0 }

encodes_hourly :
    (t : ℕ)
    → t < time_end
    → plain_text.marshal (record hourly { last_fired_at = t }) ≡ some (codes "hourly")
encodes_hourly t early = rw (lt→ltb t time_end early) refl

encodes_passed :
    (t : ℕ)
    → t < time_end
    → plain_text.marshal (record passed { last_fired_at = t }) ≡ some (codes "hourly")
encodes_passed t early = rw (lt→ltb t time_end early) refl

abbrev on_the_hour : CronSpec
on_the_hour = record {
  minute = record { any = false; values = 0 ∷ [] };
  hour = record { any = true; values = [] };
  day_of_month = record { any = true; values = [] };
  month = record { any = true; values = [] };
  day_of_week = record { any = true; values = [] };
}

parse_hourly : parse_cron (codes "0 * * * *") ≡ ok on_the_hour
unfolding parse_cron
parse_hourly = refl

abbrev now : ℕ
now = 10_900_000_000_000

-- Two hours were missed.
missed_hours :
    cron_matches_between (matches days on_the_hour) 3_600_000_000_000 now
    ≡ 7_200_000_000_000 ∷ 10_800_000_000_000 ∷ []
unfolding cron_matches_between collect_matches matches
missed_hours = refl

few : length (cron_matches_between (matches days on_the_hour) 3_600_000_000_000 now) < cap
few = rw missed_hours (omega arith)

backfill_all_example :
    ((apply_missed_fire memory plain_text days (λ _. true) hourly now ([], [])).0 ≡ ok tt)
    × ((ts : List ℕ) × ((apply_missed_fire memory plain_text days
            (λ _. true)
            hourly
            now
            ([], [])).1.1
          ≡ runs hourly ts [])
        × IsAscending ts
        × ((t : ℕ)
            → In t ts ↔ (
                (missed_from hourly now < t)
                × (t ≤ now)
                × (t % minute_ns ≡ 0)
                × (matches days on_the_hour t ≡ true))))
backfill_all_example =
    backfill_all memory plain_text hourly (λ _. codes "hourly") refl encodes_hourly days (λ _. true)
      now on_the_hour [] [] refl refl parse_hourly (λ _. refl) (omega arith) tt few

passed_job_twice_example :
    ((load_each memory plain_text days (λ _. true) (λ _. true) 9 (passed ∷ []) ([], []) []).1.0.1
      ≡ (passed, 9) ∷ [])
    × ((tick days 10
          (load_each memory plain_text days
            (λ _. true)
            (λ _. true)
            9
            (passed ∷ [])
            ([], [])
            []).1.1).1
        ≡ codes "hourly" ∷ [])
passed_job_twice_example =
    passed_job_twice memory plain_text passed (λ _. codes "hourly") refl encodes_passed days
      (λ _. true) 9 10 [] [] refl refl refl refl (omega arith) (omega arith) (omega arith) tt
