-- ===== src/Scheduler.antt =====
-- pkg/scheduler: cron expressions (cron.go, here), the minutes that an expression matched while the
-- process was down (persist.go, Scheduler/Window), the time wheel (scheduler.go, Scheduler/Wheel),
-- and the firing of jobs under idempotency keys (persist.go, Scheduler/Dedup),
-- and the loading of jobs at start (persist.go, Scheduler/Hydrate).
-- A time is a count of nanoseconds since Go's zero time. What the calendar says of it is the
-- parameter `Calendar`; time zones are whole minutes apart, so the second is read off the count.
pub mod Window
pub mod Wheel
pub mod Dedup
pub mod Hydrate
use soyaos.Prelude.{
  ℕ, zero, suc, ◌+◌, ◌-◌, ◌*◌, ◌/◌, ◌%◌, ◌^◌, Bool, true, false, ◌&&◌, ◌||◌, List, [], ◌∷◌, ◌++◌,
  Option, none, some, Bytes, bytes_eq, is_empty, codes, Result, ok, err, ◌>>=◌, leb, ltb, ◌==◌,
  if◌then◌else◌,
}
use mathlib.Core.List.{reverse}

pub record FieldSet : Type 0 where
  pub any : Bool
  pub values : List ℕ

pub record CronSpec : Type 0 where
  pub minute : FieldSet
  pub hour : FieldSet
  pub day_of_month : FieldSet
  pub month : FieldSet
  pub day_of_week : FieldSet

pub data CronError : Type 0 where
  empty_field not_integer out_of_range not_five_fields : CronError

abbrev pub member : ℕ → List ℕ → Bool
member v [] = false
member v (x ∷ xs) = v == x || member v xs

-- `fieldSet.has`
pub has : FieldSet → ℕ → Bool
has f v = if f.any then true else member v f.values

-- `unicode.IsSpace` on ASCII
abbrev pub is_space : ℕ → Bool
is_space c = (leb 9 c && leb c 13) || c == 32

abbrev pub trim_left : Bytes → Bytes
trim_left [] = []
trim_left (c ∷ s) = let rest = trim_left s in if is_space c then rest else c ∷ s

-- `strings.TrimSpace`
abbrev pub trim_space : Bytes → Bytes
trim_space s = reverse (trim_left (reverse (trim_left s)))

abbrev add_to_head : ℕ → List Bytes → List Bytes
add_to_head c [] = (c ∷ []) ∷ []
add_to_head c (x ∷ xs) = (c ∷ x) ∷ xs

-- `strings.Split(s, sep)` at a single byte
abbrev pub split_at_byte : ℕ → Bytes → List Bytes
split_at_byte sep [] = [] ∷ []
split_at_byte sep (c ∷ s) =
    let rest = split_at_byte sep s in if c == sep then [] ∷ rest else add_to_head c rest

abbrev drop_empty : List Bytes → List Bytes
drop_empty [] = []
drop_empty (x ∷ xs) = let rest = drop_empty xs in if is_empty x then rest else x ∷ rest

abbrev spaces_as_one : Bytes → Bytes
spaces_as_one [] = []
spaces_as_one (c ∷ s) = (if is_space c then 32 else c) ∷ spaces_as_one s

-- `strings.Fields`
abbrev pub fields : Bytes → List Bytes
fields s = drop_empty (split_at_byte 32 (spaces_as_one s))

read_digits : ℕ → Bytes → Option ℕ
read_digits n [] = some n
read_digits n (c ∷ s) =
    if leb b'0' c && leb c b'9' then read_digits (n * 10 + (c - b'0')) s else none

abbrev below_int : ℕ → Option ℕ → Option ℕ
below_int limit none = none
below_int limit (some n) = if ltb n limit then some n else none

-- The digits behind the sign: at least one, for a number that fits an int64.
magnitude : ℕ → Bytes → Option ℕ
unfolding read_digits
magnitude limit [] = none
magnitude limit (c ∷ s) = below_int limit (read_digits 0 (c ∷ s))

-- `strconv.Atoi`: whether the number has a minus sign, and its size.
pub atoi : Bytes → Option (Bool × ℕ)
unfolding magnitude
atoi [] = none
atoi (c ∷ s) =
    if c == b'-'
    then signed true (magnitude (2 ^ 63 + 1) s)
    else if c == b'+'
    then signed false (magnitude (2 ^ 63) s)
    else signed false (magnitude (2 ^ 63) (c ∷ s))
  where
    signed : Bool → Option ℕ → Option (Bool × ℕ)
    signed minus none = none
    signed minus (some n) = some (minus, n)

-- One round of the loop of `parseField`
in_range : ℕ → ℕ → Option (Bool × ℕ) → Result CronError ℕ
in_range lo hi none = err not_integer
in_range lo hi (some (true, zero)) = if ltb 0 lo then err out_of_range else ok 0
in_range lo hi (some (true, suc n)) = err out_of_range
in_range lo hi (some (false, n)) = if ltb n lo || ltb hi n then err out_of_range else ok n

parse_values : ℕ → ℕ → List Bytes → Result CronError (List ℕ)
unfolding in_range atoi
parse_values lo hi [] = ok []
parse_values lo hi (p ∷ ps) =
    in_range lo hi (atoi (trim_space p)) >>= λ n. parse_values lo hi ps >>= λ ns. ok (n ∷ ns)

-- `parseField`
unfoldable pub parse_field : Bytes → ℕ → ℕ → Result CronError FieldSet
unfolding parse_values
parse_field raw lo hi =
    let s = trim_space raw in
    if bytes_eq s (codes "*")
    then ok (record { any = true; values = [] })
    else if is_empty s
    then err empty_field
    else parse_values lo hi (split_at_byte b',' s) >>= λ vs.
        ok (record { any = false; values = vs })

-- `parseCron`
unfoldable pub parse_cron : Bytes → Result CronError CronSpec
unfolding parse_field
parse_cron expr = of_fields (fields expr)
  where
    of_fields : List Bytes → Result CronError CronSpec
    of_fields (a ∷ b ∷ c ∷ d ∷ e ∷ []) = do
      m ← parse_field a 0 59
      h ← parse_field b 0 23
      dom ← parse_field c 1 31
      mon ← parse_field d 1 12
      dow ← parse_field e 0 6
      ok (record { minute = m; hour = h; day_of_month = dom; month = mon; day_of_week = dow })
    of_fields _ = err not_five_fields

-- What `time.Time` says of a time: `Minute`, `Hour`, `Day`, `Month`, `Weekday`.
pub record Calendar : Type 0 where
  pub minute : ℕ → ℕ
  pub hour : ℕ → ℕ
  pub day : ℕ → ℕ
  pub month : ℕ → ℕ
  pub weekday : ℕ → ℕ

abbrev pub second_ns : ℕ
second_ns = 1_000_000_000

abbrev pub minute_ns : ℕ
minute_ns = 60_000_000_000

abbrev pub second : ℕ → ℕ
second t = t / second_ns % 60

-- `cronSpec.matches`
unfoldable pub matches : Calendar → CronSpec → ℕ → Bool
unfolding has
matches cal s t =
    has s.minute (cal.minute t)
    && (has s.hour (cal.hour t)
        && (has s.day_of_month (cal.day t)
            && (has s.month (cal.month t) && (has s.day_of_week (cal.weekday t) && second t == 0))))
