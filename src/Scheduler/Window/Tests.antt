-- ===== src/Scheduler/Window/Tests.antt =====
-- The missed minutes of an expression that matches every full hour.
use soyaos.Prelude.{ℕ, ◌<◌, ◌≡◌, ◌%◌, refl, arith, Bool, [], ◌∷◌, In, length, ◌==◌}
use soyaos.Scheduler.Window.{cap, collect_matches, cron_matches_between, matches_between_complete}

abbrev full_hour : ℕ → Bool
full_hour t = t % 3_600_000_000_000 == 0

abbrev hour : ℕ
hour = 3_600_000_000_000

one_hour : cron_matches_between full_hour 5 4_000_000_000_000 ≡ hour ∷ []
unfolding cron_matches_between collect_matches
one_hour = refl

few : length (cron_matches_between full_hour 5 4_000_000_000_000) < cap
few = rw one_hour (omega arith)

matches_between_complete_example : In hour (cron_matches_between full_hour 5 4_000_000_000_000)
matches_between_complete_example =
    matches_between_complete full_hour 5 4_000_000_000_000 hour few (omega arith) (omega arith) refl
      refl
