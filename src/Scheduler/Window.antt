-- ===== src/Scheduler/Window.antt =====
-- The minutes of pkg/scheduler/persist.go that an expression matched between two times.
mod Tests
use soyaos.Prelude.{
  ℕ, zero, suc, ◌+◌, ◌-◌, ◌*◌, ◌/◌, ◌%◌, ◌≤◌, ◌<◌, ◌≡◌, refl, ◌⊎◌, inl, inr, Bool, true, false,
  ◌&&◌, ◌||◌, List, [], ◌∷◌, In, length, leb, ltb, ◌==◌, if◌then◌else◌, arith, Bool-cases, ap, sym,
  subst, if_both,
}
use soyaos.Scheduler.{second_ns, minute_ns, second}

-- At most a week of minutes is collected.
abbrev pub cap : ℕ
cap = 24 * 60 * 7

-- The next minute boundary after `from`: `Add`, then `Truncate`.
pub first_minute : ℕ → ℕ
first_minute from = (from + minute_ns - second from * second_ns) / minute_ns * minute_ns

-- The loop of `cronMatchesBetween`, with the number of times collected so far.
unfoldable pub collect_matches : ℕ → (ℕ → Bool) → ℕ → ℕ → ℕ → List ℕ
collect_matches zero matches cur to n = []
collect_matches (suc fuel) matches cur to n =
    let n' = if matches cur then n + 1 else n in
    let rest = collect_matches fuel matches (cur + minute_ns) to n' in
    let rest' = if leb cap n' then [] else rest in
    if ltb to cur then [] else if matches cur then cur ∷ rest' else rest'

abbrev rounds : ℕ → ℕ → ℕ
rounds from to = (to - from) / minute_ns + 2

-- `cronMatchesBetween`, of the test `spec.matches`
unfoldable pub cron_matches_between : (ℕ → Bool) → ℕ → ℕ → List ℕ
unfolding first_minute
cron_matches_between matches from to =
    if leb to from then [] else collect_matches (rounds from to) matches (first_minute from) to 0

-- `anyMatchBetween`
unfoldable pub any_match_between : (ℕ → Bool) → ℕ → ℕ → Bool
any_match_between matches from to = ltb 0 (length (cron_matches_between matches from to))

-- The loop begins at the first minute boundary after `from`.
first_minute_lem :
    (from : ℕ)
    → (from < first_minute from)
      × (first_minute from ≤ from + minute_ns)
      × (first_minute from % minute_ns ≡ 0)
unfolding first_minute
first_minute_lem from = omega arith

first_minute_least : (from t : ℕ) → from < t → t % minute_ns ≡ 0 → first_minute from ≤ t
unfolding first_minute
first_minute_least from t lo grid = omega arith

rounds_enough : (from to : ℕ) → to < first_minute from + rounds from to * minute_ns
unfolding first_minute
rounds_enough from to = omega arith

-- One round: what is in the list it returns, and what is put there.
In-round :
    (past hit full : Bool) (t cur : ℕ) (rest : List ℕ)
    → In t (
        if past
        then []
        else if hit
        then cur ∷ (if full then [] else rest)
        else (if full then [] else rest))
    → (past ≡ false) × (((t ≡ cur) × (hit ≡ true)) ⊎ In t rest)
In-round true hit full t cur rest h = absurd h
In-round false true full t cur rest (inl e) = (refl, inl (e, refl))
In-round false true true t cur rest (inr h) = absurd h
In-round false true false t cur rest (inr h) = (refl, inr h)
In-round false false true t cur rest h = absurd h
In-round false false false t cur rest h = (refl, inr h)

round-In :
    (hit full : Bool) (t cur : ℕ) (rest : List ℕ)
    → full ≡ false
    → ((t ≡ cur) × (hit ≡ true)) ⊎ In t rest
    → In t (if hit then cur ∷ (if full then [] else rest) else (if full then [] else rest))
round-In hit true t cur rest e h = cc
round-In true false t cur rest e (inl h) = inl h.0
round-In true false t cur rest e (inr h) = inr h
round-In false false t cur rest e (inl h) = cc
round-In false false t cur rest e (inr h) = h

In-else : (b : Bool) (t : ℕ) (xs : List ℕ) → In t (if b then [] else xs) → In t xs
In-else true t xs h = absurd h
In-else false t xs h = h

grid_case :
    (cur t : ℕ)
    → cur ≤ t
    → t % minute_ns ≡ cur % minute_ns
    → (t ≡ cur) ⊎ ((cur + minute_ns ≤ t) × (t % minute_ns ≡ (cur + minute_ns) % minute_ns))
grid_case cur t lo g = omega arith

module _ (matches : ℕ → Bool) where
  -- What is collected lies on the grid of minutes, from `cur` to `to`, and matches.
  collect_sound :
      (fuel cur to n t : ℕ)
      → In t (collect_matches fuel matches cur to n)
      → (cur ≤ t) × (t ≤ to) × (t % minute_ns ≡ cur % minute_ns) × (matches t ≡ true)
  unfolding collect_matches
  collect_sound zero cur to n t h = absurd h
  collect_sound (suc fuel) cur to n t h =
      from_round (collect_sound fuel (cur + minute_ns) to n' t)
        (In-round (ltb to cur) (matches cur) _ t cur _ h)
    where
      n' : ℕ
      n' = if matches cur then n + 1 else n

      from_round :
          {X : Type 0}
          → (X
              → (cur + minute_ns ≤ t)
                × (t ≤ to)
                × (t % minute_ns ≡ (cur + minute_ns) % minute_ns)
                × (matches t ≡ true))
          → (ltb to cur ≡ false) × (((t ≡ cur) × (matches cur ≡ true)) ⊎ X)
          → (cur ≤ t) × (t ≤ to) × (t % minute_ns ≡ cur % minute_ns) × (matches t ≡ true)
      from_round later (w, inl (e, m)) = ground arith
      from_round later (w, inr x) = ground (arith, later x)

  collect_cap :
      (fuel cur to n : ℕ) → n < cap → n + length (collect_matches fuel matches cur to n) ≤ cap
  unfolding collect_matches
  collect_cap zero cur to n h = omega arith
  collect_cap (suc fuel) cur to n h =
      elim (Bool-cases (leb cap (if matches cur then n + 1 else n))) [
        | inl full ↦ ground arith
        | inr room ↦
            ground (arith, collect_cap fuel (cur + minute_ns) to (if matches cur then n + 1 else n))
      ]

  -- Every match on the grid is collected, if the cap was not met and the fuel is enough.
  collect_complete :
      (fuel cur to n t : ℕ)
      → to < cur + fuel * minute_ns
      → n + length (collect_matches fuel matches cur to n) < cap
      → cur ≤ t
      → t ≤ to
      → t % minute_ns ≡ cur % minute_ns
      → matches t ≡ true
      → In t (collect_matches fuel matches cur to n)
  unfolding collect_matches
  collect_complete zero cur to n t enough below lo hi grid m = absurd (omega arith)
  collect_complete (suc fuel) cur to n t enough below lo hi grid m =
      elim (Bool-cases (leb cap n')) [
        | inl full ↦ absurd (ground arith)
        | inr room ↦ rw within (
            round-In (matches cur) (leb cap n') t cur _ room (elim (grid_case cur t lo grid) [
              | inl e ↦ inl (e, subst (λ u. matches u ≡ true) e m)
              | inr later ↦ inr (
                  collect_complete fuel (cur + minute_ns) to n' t (omega arith) (room_below room)
                    later.0 hi later.1 m)
            ]))
      ]
    where
      n' : ℕ
      n' = if matches cur then n + 1 else n

      within : ltb to cur ≡ false
      within = ground arith

      room_below :
          leb cap n' ≡ false
          → n' + length (collect_matches fuel matches (cur + minute_ns) to n') < cap
      room_below room = ground arith

-- Every time that `cronMatchesBetween` returns is a minute boundary after `from` and not after
-- `to` that the expression matches.
pub matches_between_sound :
    (matches : ℕ → Bool) (from to t : ℕ)
    → In t (cron_matches_between matches from to)
    → (from < t) × (t ≤ to) × (t % minute_ns ≡ 0) × (matches t ≡ true)
unfolding cron_matches_between
matches_between_sound matches from to t h = widen (
    collect_sound matches (rounds from to) (first_minute from) to 0 t (In-else (leb to from) t _ h))
  where
    widen :
        (first_minute from ≤ t)
          × (t ≤ to)
          × (t % minute_ns ≡ first_minute from % minute_ns)
          × (matches t ≡ true)
        → (from < t) × (t ≤ to) × (t % minute_ns ≡ 0) × (matches t ≡ true)
    widen f = ground (arith, first_minute_lem from)

-- Each time is before those behind it.
abbrev pub IsAscending : List ℕ → Type 0
IsAscending [] = Unit
IsAscending (t ∷ ts) = ((u : ℕ) → In u ts → t < u) × IsAscending ts

round-IsAscending :
    (past hit full : Bool) (cur : ℕ) (rest : List ℕ)
    → ((u : ℕ) → In u rest → cur < u)
    → IsAscending rest
    → IsAscending (
        if past
        then []
        else if hit
        then cur ∷ (if full then [] else rest)
        else (if full then [] else rest))
round-IsAscending true hit full cur rest h k = tt
round-IsAscending false true true cur rest h k = (λ u m. absurd m, tt)
round-IsAscending false true false cur rest h k = (h, k)
round-IsAscending false false true cur rest h k = tt
round-IsAscending false false false cur rest h k = k

collect-IsAscending :
    (matches : ℕ → Bool) (fuel cur to n : ℕ) → IsAscending (collect_matches fuel matches cur to n)
unfolding collect_matches
collect-IsAscending matches zero cur to n = tt
collect-IsAscending matches (suc fuel) cur to n =
    let n' = if matches cur then n + 1 else n in
    round-IsAscending (ltb to cur) (matches cur) (leb cap n') cur
      (collect_matches fuel matches (cur + minute_ns) to n')
      (λ u m. omega (arith, (collect_sound matches fuel (cur + minute_ns) to n' u m).0))
      (collect-IsAscending matches fuel (cur + minute_ns) to n')

-- The times are in order, and none is there twice.
pub matches_between-IsAscending :
    (matches : ℕ → Bool) (from to : ℕ) → IsAscending (cron_matches_between matches from to)
unfolding cron_matches_between
matches_between-IsAscending matches from to =
    if_both IsAscending (leb to from) tt
      (collect-IsAscending matches (rounds from to) (first_minute from) to 0)

-- `cronMatchesBetween` returns at most 10080 times, the minutes of a week.
length-matches_between_le :
    (matches : ℕ → Bool) (from to : ℕ) → length (cron_matches_between matches from to) ≤ cap
unfolding cron_matches_between
length-matches_between_le matches from to =
    ground (arith, collect_cap matches (rounds from to) (first_minute from) to 0)

-- Where `cronMatchesBetween` returns fewer than 10080 times, it returns every minute boundary
-- after `from` and not after `to` that the expression matches.
pub matches_between_complete :
    (matches : ℕ → Bool) (from to t : ℕ)
    → length (cron_matches_between matches from to) < cap
    → from < t
    → t ≤ to
    → t % minute_ns ≡ 0
    → matches t ≡ true
    → In t (cron_matches_between matches from to)
unfolding cron_matches_between
matches_between_complete matches from to t below lo hi grid m = rw some_left (
    collect_complete matches (rounds from to) (first_minute from) to 0 t enough below' start hi same
      m)
  where
    some_left : leb to from ≡ false
    some_left = ground arith

    enough : to < first_minute from + rounds from to * minute_ns
    enough = rounds_enough from to

    below' : 0 + length (collect_matches (rounds from to) matches (first_minute from) to 0) < cap
    below' = ground arith

    start : first_minute from ≤ t
    start = first_minute_least from t lo grid

    same : t % minute_ns ≡ first_minute from % minute_ns
    same = ground (arith, first_minute_lem from)
