-- ===== src/Scheduler/Dedup/Tests.antt =====
-- Runs under an idempotency key, on the store in memory.
use soyaos.Prelude.{ℕ, ◌+◌, ◌≡◌, refl, arith, List, [], ◌∷◌, Option, none, some, Bytes, codes}
use soyaos.Store.Memory.{memory}
use soyaos.Scheduler.Wheel.{Job}
use soyaos.Scheduler.Dedup.{
  JobText, window, dedup_namespace, dedup_seen, prune_dedup, live_begins, live_end, seen_if_keyed,
  record_if_keyed, after_record, dedup_record, judge, judge_time, save_encoded, saved,
}
use soyaos.Scheduler.Dedup.Attempts.{Step, begin, finish, at_start, live, progress, fires, Spaced}
use soyaos.Scheduler.Dedup.Spacing.{fires-Spaced}
use soyaos.Scheduler.Dedup.Prune.{prune_unseen}

abbrev parse : Bytes → Option ℕ
parse (t ∷ []) = some t
parse _ = none

abbrev pub plain_text : JobText
plain_text = record {
  format = λ t. t ∷ [];
  parse = parse;
  marshal = λ j. some j.id;
  unmarshal = λ b. none;
  parse-format = λ t b. refl;
}

abbrev report : Job
report = record {
  id = codes "report";
  cron = codes "0 * * * *";
  run_at = 0;
  idempotency_key = codes "r";
  missed_fire = codes "backfill";
  last_fired_at = 0;
}

abbrev unkeyed : Job
unkeyed = record report { idempotency_key = [] }

-- The job without a key begins and ends while that with a key runs.
abbrev calls : List Step
calls =
    begin (at_start report 5)
    ∷ begin (live unkeyed 6)
    ∷ finish 0
    ∷ finish 0
    ∷ begin (live report 7)
    ∷ begin (live report (window + 5))
    ∷ finish 0
    ∷ []

fires-Spaced_example :
    Spaced (fires (codes "r") (progress memory plain_text calls ([], ([], []))).1.0)
unfolding live_begins live_end seen_if_keyed record_if_keyed after_record dedup_seen dedup_record
    judge judge_time save_encoded saved
fires-Spaced_example = fires-Spaced memory plain_text (codes "r") calls [] refl tt (
  λ e. (refl, omega arith),
  (λ e. cc, (tt, (tt, (λ e. (refl, omega arith), (λ e. (refl, omega arith), (tt, tt)))))),
)

prune_unseen_example :
    dedup_seen memory plain_text
      (prune_dedup memory plain_text (window + 9) ((dedup_namespace, codes "r", 5 ∷ []) ∷ [])).1
      (codes "r")
      (window + 9)
    ≡ dedup_seen memory plain_text
        ((dedup_namespace, codes "r", 5 ∷ []) ∷ [])
        (codes "r")
        (window + 9)
prune_unseen_example =
    prune_unseen memory plain_text ((dedup_namespace, codes "r", 5 ∷ []) ∷ []) (codes "r")
      (window + 9) (window + 9) tt (omega arith)
