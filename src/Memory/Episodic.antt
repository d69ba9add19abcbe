-- ===== src/Memory/Episodic.antt =====
-- pkg/memory/episodic.go: `BoltEpisodic`, a log of events of each scope and owner in time order. `encoding/json` is the
-- parameter `EventCodec`. A time is what
-- `UnixNano` gives, the bit pattern of an int64, and `none` is the time that is not set.
pub mod Order
mod Tests
use soyaos.Prelude.{
  ℕ, zero, suc, ◌+◌, ◌-◌, ◌%◌, ◌^◌, ◌≡◌, Bool, true, false, List, [], ◌∷◌, ◌++◌, Option, none, some,
  Bytes, codes, Result, ok, err, is_ok, ltb, leb, ◌==◌, if◌then◌else◌, length, drop, take,
}
use soyaos.Prelude.BigEndian.{big_endian, read_big_endian}
use soyaos.Store.{Store, StoreError}
use soyaos.Memory.{MemoryError, bad_entry, store_failed}

abbrev pub namespace : Bytes
namespace = codes "memory.episodic"

pub record Event : Type 0 where
  pub timestamp : Option ℕ
  pub payload : Bytes

pub record EventCodec : Type 0 where
  pub marshal : Event → Option Bytes
  pub unmarshal : Bytes → Option Event

-- `episodicPrefix`
unfoldable pub episodic_prefix : Bytes → Bytes → Bytes
episodic_prefix s owner = s ++ (0 ∷ (owner ++ (0 ∷ [])))

-- `episodicKey`
unfoldable pub episodic_key : Bytes → Bytes → ℕ → Bytes
unfolding episodic_prefix big_endian
episodic_key s owner nano = episodic_prefix s owner ++ big_endian 8 nano

-- `decodeNano`. `strconv.ParseInt` gives 0 for a key that is too short, since a key under a prefix holds a NUL byte.
unfoldable pub decode_nano : Bytes → ℕ → ℕ
unfolding read_big_endian
decode_nano key n = if ltb (length key) (n + 8) then 0 else read_big_endian 0 (take 8 (drop n key))

-- `<` on the bit patterns of int64
abbrev pub int64_lt : ℕ → ℕ → Bool
int64_lt a b = ltb ((a + 2 ^ 63) % 2 ^ 64) ((b + 2 ^ 63) % 2 ^ 64)

-- The time that `Append` gives an event after the time of the last. The sum wraps.
unfoldable pub next_nano : ℕ → ℕ → ℕ
next_nano last nano = if int64_lt last nano then nano else (last + 1) % 2 ^ 64

abbrev or_now : ℕ → Option ℕ → ℕ
or_now now none = now
or_now now (some t) = t

abbrev pub stamp : ℕ → Event → ℕ
stamp now ev = or_now now ev.timestamp

-- The sort of `Recent`, and its tail and reverse
pub insert_pair : ℕ → Bytes × Bytes → List (Bytes × Bytes) → List (Bytes × Bytes)
unfolding decode_nano
insert_pair n p [] = p ∷ []
insert_pair n p (q ∷ qs) =
    let rest = insert_pair n p qs in
    if int64_lt (decode_nano q.0 n) (decode_nano p.0 n) then q ∷ rest else p ∷ (q ∷ qs)

pub sort_pairs : ℕ → List (Bytes × Bytes) → List (Bytes × Bytes)
unfolding insert_pair
sort_pairs n [] = []
sort_pairs n (p ∷ ps) = insert_pair n p (sort_pairs n ps)

pub last_pairs : ℕ → List (Bytes × Bytes) → List (Bytes × Bytes)
last_pairs n ps = if ltb n (length ps) then drop (length ps - n) ps else ps

module _ (S : Store) (J : EventCodec) where
  -- The time of the last event, and the store
  abbrev pub State : Type 0
  State = ℕ × S.Db

  pub stored : Result StoreError (Unit {0}) × S.Db → Result MemoryError (Unit {0}) × S.Db
  stored (ok _, d) = (ok tt, d)
  stored (err _, d) = (err store_failed, d)

  pub append_encoded :
      Bytes → Bytes → ℕ → Option Bytes → S.Db → Result MemoryError (Unit {0}) × S.Db
  unfolding stored
  append_encoded s owner nano none d = (err bad_entry, d)
  append_encoded s owner nano (some body) d =
      stored (S.put d namespace (episodic_key s owner nano) body)

  -- `BoltEpisodic.Append`
  pub append : ℕ → Bytes → Bytes → Event → State → Result MemoryError (Unit {0}) × State
  unfolding append_encoded
  append now s owner ev (last, d) =
      let nano = next_nano last (stamp now ev) in
      let (r, d') =
        append_encoded s owner nano (J.marshal (record ev { timestamp = some nano })) d in
      (r, (nano, d'))

  pub push_event : Option Event → List Event → List Event
  push_event none out = out
  push_event (some ev) out = ev ∷ out

  pub newest_first : List (Bytes × Bytes) → List Event → List Event
  unfolding push_event
  newest_first [] out = out
  newest_first ((k, v) ∷ ps) out = newest_first ps (push_event (J.unmarshal v) out)

  pub recent_of : ℕ → ℕ → Result StoreError (List (Bytes × Bytes)) → Result MemoryError (List Event)
  unfolding newest_first last_pairs sort_pairs
  recent_of n width (ok ps) = ok (newest_first (last_pairs n (sort_pairs width ps)) [])
  recent_of n width (err _) = err store_failed

  -- `BoltEpisodic.Recent`
  pub recent : ℕ → Bytes → Bytes → S.Db → Result MemoryError (List Event)
  unfolding recent_of
  recent zero s owner d = ok []
  recent (suc n) s owner d =
      recent_of (suc n) (length (episodic_prefix s owner))
        (S.list d namespace (episodic_prefix s owner))
