-- ===== src/Scope/Usage.antt =====
-- pkg/scope/usage_aggregator.go: samples of usage are added up, a row for each minute and each API key, agent and
-- image. The rows of the present minute are in memory, and those of closed minutes in a store of pkg/store. A map is an
-- association list, and the order of a range over it the order of the list. float64, the text of a time and
-- `encoding/json` are the parameter `Outside`; an int64 is its bit pattern; a time is a count of nanoseconds.
pub mod Keys
pub mod Live
pub mod Written
pub mod Rows
pub mod Sums
pub mod Flushed
pub mod Answers
pub mod Exact
mod Tests
use soyaos.Prelude.{
  ℕ, ◌+◌, ◌-◌, ◌*◌, ◌%◌, ◌^◌, ◌<◌, ◌≡◌, ◌≢◌, All, Bool, true, false, not, ◌&&◌, ◌||◌, List, [], ◌∷◌,
  ◌++◌, Option, none, some, Bytes, bytes_eq, bytes_lt, codes, is_empty, Result, ok, err, ltb, ◌==◌,
  if◌then◌else◌,
}
use soyaos.Prelude.Dict.{lookup_key, set_key}
use soyaos.Store.{Store, StoreError}
use soyaos.Store.Key.{composite_key}

abbrev pub minute : ℕ
minute = 60 * 10 ^ 9

-- The end of the year 9999, counted from the year 1
abbrev pub time_end : ℕ
time_end = 3652059 * 86400 * 10 ^ 9

abbrev pub namespace : Bytes
namespace = codes "scope.usage.v0"

pub record UsagePayload (Num : Type 0) : Type 0 where
  pub api_key_prefix : Bytes
  pub agent_slug : Bytes
  pub sandbox_image : Bytes
  pub window : Bytes
  pub vcpu_seconds : Num
  pub gpu_seconds : Num
  pub bytes_in : ℕ
  pub bytes_out : ℕ

pub record UsageSample (Num : Type 0) : Type 0 where
  pub api_key_prefix : Bytes
  pub agent_slug : Bytes
  pub sandbox_image : Bytes
  pub at : ℕ
  pub vcpu_seconds : Num
  pub gpu_seconds : Num
  pub bytes_in : ℕ
  pub bytes_out : ℕ

-- A time that is zero is `none`.
pub record UsageQuery : Type 0 where
  pub api_key_prefix : Bytes
  pub agent_slug : Bytes
  pub sandbox_image : Bytes
  pub since : Option ℕ
  pub until : Option ℕ

abbrev pub bar : Bytes
bar = codes "|"

abbrev pub HasNoBar : Bytes → Type 0
HasNoBar = All (λ c. c ≢ b'|')

abbrev pub texts : {Num : Type 0} → (Bytes → Bytes) → UsagePayload Num → UsagePayload Num
texts text p = record p {
  api_key_prefix = text p.api_key_prefix;
  agent_slug = text p.agent_slug;
  sandbox_image = text p.sandbox_image;
  window = text p.window;
}

-- What the file takes from Go: float64 with its addition, the text of a time in UTC under RFC3339Nano, and the JSON of
-- a row. The texts of whole minutes before the year 10000 have one length, so they are ordered as the times. `text s`
-- is what a string comes back as from JSON: bytes that are not UTF-8 are replaced.
pub record Outside : Type 1 where
  pub Num : Type 0
  pub zero_num : Num
  pub add : Num → Num → Num
  pub format : ℕ → Bytes
  pub marshal : UsagePayload Num → Option Bytes
  pub unmarshal : Bytes → Option (UsagePayload Num)
  pub text : Bytes → Bytes
  pub format_bar : (t : ℕ) → t < time_end → t % minute ≡ 0 → HasNoBar (format t)
  pub format_order :
      (t u : ℕ)
      → t < time_end
      → u < time_end
      → t % minute ≡ 0
      → u % minute ≡ 0
      → bytes_lt (format t) (format u) ≡ ltb t u
  pub unmarshal-marshal :
      (p : UsagePayload Num) (b : Bytes) → marshal p ≡ some b → unmarshal b ≡ some (texts text p)

-- `bucketKey`
unfoldable pub bucket_key : Bytes → Bytes → Bytes → Bytes → Bytes
bucket_key api agent image w = w ++ (bar ++ (api ++ (bar ++ (agent ++ (bar ++ image)))))

pub data UsageError : Type 0 where
  encode_error : UsageError
  store_error : StoreError → UsageError

-- What `Put` is called with
abbrev pub row_key : Bytes → Bytes → Bytes → Bytes → Bytes
row_key api agent image w = composite_key (w ∷ api ∷ agent ∷ image ∷ [])

-- One of the tests of `matchesQuery` on the names
unfoldable pub name_matches : Bytes → Bytes → Bool
name_matches wanted name = is_empty wanted || bytes_eq wanted name

module _ (O : Outside) where
  abbrev pub Payload : Type 0
  Payload = UsagePayload O.Num

  abbrev pub Sample : Type 0
  Sample = UsageSample O.Num

  abbrev pub Live : Type 0
  Live = List (Bytes × Payload)

  -- `t.UTC().Truncate(time.Minute).Format(time.RFC3339Nano)`
  unfoldable pub window_of : ℕ → Bytes
  window_of t = O.format (t - t % minute)

  abbrev pub sample_key : Sample → Bytes
  sample_key s = bucket_key s.api_key_prefix s.agent_slug s.sandbox_image (window_of s.at)

  abbrev pub payload_key : Payload → Bytes
  payload_key p = bucket_key p.api_key_prefix p.agent_slug p.sandbox_image p.window

  abbrev pub payload_row_key : Payload → Bytes
  payload_row_key p = row_key p.api_key_prefix p.agent_slug p.sandbox_image p.window

  -- The row that a sample opens
  unfoldable pub new_payload : Sample → Payload
  new_payload s = record {
    api_key_prefix = s.api_key_prefix;
    agent_slug = s.agent_slug;
    sandbox_image = s.sandbox_image;
    window = window_of s.at;
    vcpu_seconds = O.zero_num;
    gpu_seconds = O.zero_num;
    bytes_in = 0;
    bytes_out = 0;
  }

  unfoldable pub added : Sample → Payload → Payload
  added s p = record p {
    vcpu_seconds = O.add p.vcpu_seconds s.vcpu_seconds;
    gpu_seconds = O.add p.gpu_seconds s.gpu_seconds;
    bytes_in = (p.bytes_in + s.bytes_in) % 2 ^ 64;
    bytes_out = (p.bytes_out + s.bytes_out) % 2 ^ 64;
  }

  unfoldable pub add_to : Sample → Option Payload → Payload
  unfolding added new_payload
  add_to s none = added s (new_payload s)
  add_to s (some p) = added s p

  -- `Tick`
  unfoldable pub tick : Sample → Live → Live
  unfolding add_to set_key lookup_key
  tick s live = set_key (sample_key s) (add_to s (lookup_key (sample_key s) live)) live

  -- The loop of `Flush` over the map: the rows that stay, and those that it takes out
  unfoldable pub kept : Bytes → Live → Live
  kept now [] = []
  kept now ((k, p) ∷ live) =
      let rest = kept now live in if bytes_lt p.window now then rest else (k, p) ∷ rest

  unfoldable pub closed : Bytes → Live → List Payload
  closed now [] = []
  closed now ((k, p) ∷ live) =
      let rest = closed now live in if bytes_lt p.window now then p ∷ rest else rest

  -- `matchesQuery`
  unfoldable pub since_matches : Option ℕ → Bytes → Bool
  since_matches none w = true
  since_matches (some t) w = not (bytes_lt w (window_of t))

  unfoldable pub until_matches : Option ℕ → Bytes → Bool
  until_matches none w = true
  until_matches (some t) w = bytes_lt w (window_of t)

  unfoldable pub matches_query : Payload → UsageQuery → Bool
  unfolding name_matches since_matches until_matches
  matches_query p q =
      name_matches q.api_key_prefix p.api_key_prefix
      && (name_matches q.agent_slug p.agent_slug
          && (name_matches q.sandbox_image p.sandbox_image
              && (since_matches q.since p.window && until_matches q.until p.window)))

  -- The order of `sort.Slice` in `Query`
  unfoldable pub row_lt : Payload → Payload → Bool
  row_lt p q =
      if not (bytes_eq p.window q.window)
      then bytes_lt p.window q.window
      else if not (bytes_eq p.api_key_prefix q.api_key_prefix)
      then bytes_lt p.api_key_prefix q.api_key_prefix
      else if not (bytes_eq p.agent_slug q.agent_slug)
      then bytes_lt p.agent_slug q.agent_slug
      else bytes_lt p.sandbox_image q.sandbox_image

  unfoldable pub insert_row : Payload → List Payload → List Payload
  unfolding row_lt
  insert_row p [] = p ∷ []
  insert_row p (q ∷ rows) = if row_lt q p then q ∷ insert_row p rows else p ∷ q ∷ rows

  unfoldable pub sort_rows : List Payload → List Payload
  unfolding insert_row
  sort_rows [] = []
  sort_rows (p ∷ rows) = insert_row p (sort_rows rows)

  unfoldable pub live_rows : UsageQuery → Live → List Payload
  unfolding matches_query
  live_rows q [] = []
  live_rows q ((k, p) ∷ live) =
      let rest = live_rows q live in if matches_query p q then p ∷ rest else rest

  unfoldable pub keep_row : UsageQuery → Option Payload → List Payload → List Payload
  unfolding matches_query
  keep_row q none rows = rows
  keep_row q (some p) rows = if matches_query p q then p ∷ rows else rows

  unfoldable pub stored_rows : UsageQuery → List (Bytes × Bytes) → List Payload
  unfolding keep_row
  stored_rows q [] = []
  stored_rows q ((k, v) ∷ pairs) = keep_row q (O.unmarshal v) (stored_rows q pairs)

  module _ (S : Store) where
    -- The map of live rows, and the store, if there is one
    abbrev pub Aggregator : Type 0
    Aggregator = Live × Option S.Db

    abbrev pub Wrote : Type 0
    Wrote = Result UsageError (Unit {0}) × S.Db

    abbrev pub put_answer : Result StoreError (Unit {0}) × S.Db → Wrote
    put_answer (ok _, d) = (ok tt, d)
    put_answer (err e, d) = (err (store_error e), d)

    -- One round of the second loop of `Flush`
    unfoldable pub put_row : Payload → S.Db → Option Bytes → Wrote
    put_row p d none = (err encode_error, d)
    put_row p d (some raw) = put_answer (S.put d namespace (payload_row_key p) raw)

    abbrev pub then_put : (S.Db → Wrote) → Wrote → Wrote
    then_put next (ok _, d) = next d
    then_put next (err e, d) = (err e, d)

    unfoldable pub put_rows : List Payload → S.Db → Wrote
    unfolding put_row
    put_rows [] d = (ok tt, d)
    put_rows (p ∷ rows) d = then_put (put_rows rows) (put_row p d (O.marshal p))

    abbrev pub with_live : Live → Wrote → Result UsageError (Unit {0}) × Aggregator
    with_live live (r, d) = (r, (live, some d))

    -- `Flush`
    unfoldable pub flush : ℕ → Aggregator → Result UsageError (Unit {0}) × Aggregator
    unfolding kept closed put_rows
    flush now (live, none) = (ok tt, (kept (window_of now) live, none))
    flush now (live, some d) =
        with_live (kept (window_of now) live) (put_rows (closed (window_of now) live) d)

    unfoldable pub queried :
        List Payload
        → UsageQuery
        → Result StoreError (List (Bytes × Bytes))
        → Result StoreError (List Payload)
    unfolding stored_rows sort_rows
    queried rows q (ok pairs) = ok (sort_rows (rows ++ stored_rows q pairs))
    queried rows q (err e) = err e

    -- `Query`
    unfoldable pub query : UsageQuery → Aggregator → Result StoreError (List Payload)
    unfolding queried live_rows sort_rows
    query q (live, none) = ok (sort_rows (live_rows q live))
    query q (live, some d) = queried (live_rows q live) q (S.list d namespace [])
