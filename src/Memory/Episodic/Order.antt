-- ===== src/Memory/Episodic/Order.antt =====
-- The order of the events in a log of pkg/memory/episodic.go, and what later appends leave of an event.
use soyaos.Prelude.{
  take, drop, if_no, ◌+◌, ◌++◌, ltb, ℕ, ◌-◌, ◌^◌, ◌≤◌, ◌<◌, ◌≡◌, refl, sym, ap, ◌∙◌, inl, inr, true,
  ◌%◌, ◌≢◌, ◌⊎◌, ltb→lt, lt→ltb, false, List, [], ◌∷◌, Option, none, some, Bytes, bytes_eq,
  bytes_eq_iff, bytes_eq_refl, Result, ok, err, is_ok, length, length-append, drop_append_length,
  arith, Bool-cases,
}
use soyaos.Prelude.BigEndian.{big_endian, read_big_endian, read-big_endian, length-big_endian}
use soyaos.Store.{Store, StoreError}
use soyaos.Memory.Episodic.{
  int64_lt, namespace, Event, EventCodec, episodic_prefix, episodic_key, decode_nano, next_nano,
  stamp, State, stored, append_encoded, append,
}

-- The time that a key ends with
abbrev nano_of : Bytes → ℕ
nano_of key = decode_nano key (length key - 8)

length-episodic_key :
    (s owner : Bytes) (nano : ℕ)
    → length (episodic_key s owner nano) - 8 ≡ length (episodic_prefix s owner)
unfolding episodic_key
length-episodic_key s owner nano =
    omega
      (arith, length-append (episodic_prefix s owner) (big_endian 8 nano), length-big_endian 8 nano)

take-big_endian : (nano : ℕ) → take 8 (big_endian 8 nano) ≡ big_endian 8 nano
unfolding big_endian
take-big_endian nano = refl

-- The time of a key is read back, if it is below 2^64.
pub decode_nano-episodic_key :
    (s owner : Bytes) (nano : ℕ)
    → nano < 2 ^ 64
    → decode_nano (episodic_key s owner nano) (length (episodic_prefix s owner)) ≡ nano
unfolding decode_nano episodic_key
decode_nano-episodic_key s owner nano h =
    let prefix = episodic_prefix s owner in
    let key = prefix ++ big_endian 8 nano in
    let long : length key ≡ length prefix + 8 =
      omega (arith, length-append prefix (big_endian 8 nano), length-big_endian 8 nano) in
    if_no (ltb (length key) (length prefix + 8)) 0
      (read_big_endian 0 (take 8 (drop (length prefix) key))) (ground (arith, long))
    ∙ (ap (λ r. read_big_endian 0 (take 8 r)) (drop_append_length prefix (big_endian 8 nano))
        ∙ (ap (read_big_endian 0) (take-big_endian nano) ∙ read-big_endian 8 nano (omega arith)))

nano_of-episodic_key :
    (s owner : Bytes) (nano : ℕ) → nano < 2 ^ 64 → nano_of (episodic_key s owner nano) ≡ nano
nano_of-episodic_key s owner nano h =
    rw (length-episodic_key s owner nano) (decode_nano-episodic_key s owner nano h)

-- Keys of different times are different, whatever bytes stand in the scopes and owners.
episodic_key_ne :
    (s owner : Bytes) (nano : ℕ) (s' owner' : Bytes) (nano' : ℕ)
    → int64_lt nano nano' ≡ true
    → nano < 2 ^ 64
    → nano' < 2 ^ 64
    → bytes_eq (episodic_key s' owner' nano') (episodic_key s owner nano) ≡ false
episodic_key_ne s owner nano s' owner' nano' apart fits fits' =
    elim (Bool-cases (bytes_eq (episodic_key s' owner' nano') (episodic_key s owner nano))) [
      | inl same ↦
          let keys =
            (bytes_eq_iff (episodic_key s' owner' nano') (episodic_key s owner nano)).0 same in
          let times : nano' ≡ nano =
            sym (nano_of-episodic_key s' owner' nano' fits')
            ∙ (ap nano_of keys ∙ nano_of-episodic_key s owner nano fits) in
          absurd (ground (arith, apart, times))
      | inr other ↦ other
    ]

-- The largest int64
abbrev pub max_nano : ℕ
max_nano = 2 ^ 63 - 1

abbrev signed : ℕ → ℕ
signed n = (n + 2 ^ 63) % 2 ^ 64

-- A time behind one that is not the largest
next_nano-later :
    (last nano : ℕ)
    → last < 2 ^ 64
    → nano < 2 ^ 64
    → last ≢ max_nano
    → (signed last < signed (next_nano last nano)) × (next_nano last nano < 2 ^ 64)
unfolding next_nano
next_nano-later last nano fits fits' ne = elim (Bool-cases (int64_lt last nano)) [
  | inl later ↦ rw later (ltb→lt (signed last) (signed nano) later, fits')
  | inr old ↦ rw old (bumped (omega (arith, ne)), omega arith)
]
  where
    bumped : (last < max_nano) ⊎ (max_nano < last) → signed last < signed ((last + 1) % 2 ^ 64)
    bumped (inl h) = omega arith
    bumped (inr h) = omega arith

module _ (S : Store) (J : EventCodec) where
  abbrev pub Call : Type 0
  Call = ℕ × Bytes × Bytes × Event

  -- Appends one after the other, as the mutex has it
  unfoldable pub run : List Call → State S J → State S J
  unfolding append
  run [] st = st
  run ((now, s, owner, ev) ∷ cs) st = run cs (append S J now s owner ev st).1

  stored_db : (r : Result StoreError (Unit {0}) × S.Db) → (stored S J r).1 ≡ r.1
  unfolding stored
  stored_db (ok _, d) = refl
  stored_db (err _, d) = refl

  stored_ok : (r : Result StoreError (Unit {0}) × S.Db) → is_ok (stored S J r).0 ≡ is_ok r.0
  unfolding stored
  stored_ok (ok _, d) = refl
  stored_ok (err _, d) = refl

  find-append_encoded :
      (s owner : Bytes) (nano : ℕ) (o : Option Bytes) (d : S.Db) (k : Bytes)
      → bytes_eq (episodic_key s owner nano) k ≡ false
      → S.find (append_encoded S J s owner nano o d).1 namespace k ≡ S.find d namespace k
  unfolding append_encoded
  find-append_encoded s owner nano none d k h = refl
  find-append_encoded s owner nano (some body) d k h =
      let r = S.put d namespace (episodic_key s owner nano) body in
      rw (stored_db r) (
        rw (S.find-put d namespace (episodic_key s owner nano) body namespace k)
          (ground (arith, h)))

  -- The times of the calls are int64, and none comes behind the largest.
  abbrev pub IsShort : ℕ → List Call → Type 0
  IsShort last [] = Unit {0}
  IsShort last ((now, s, owner, ev) ∷ cs) =
      (last ≢ max_nano) × (stamp now ev < 2 ^ 64) × IsShort (next_nano last (stamp now ev)) cs

  -- Appends leave every cell of an earlier time as it was.
  find-run :
      (cs : List Call) (last : ℕ) (d : S.Db) (s owner : Bytes) (nano : ℕ)
      → nano < 2 ^ 64
      → last < 2 ^ 64
      → signed nano ≤ signed last
      → IsShort last cs
      → S.find (run cs (last, d)).1 namespace (episodic_key s owner nano)
        ≡ S.find d namespace (episodic_key s owner nano)
  unfolding run append
  find-run [] last d s owner nano fits low h short = refl
  find-run ((now, s', owner', ev) ∷ cs) last d s owner nano fits low h (ne, fits', rest) =
      let nano' = next_nano last (stamp now ev) in
      let (grows, low') = next_nano-later last (stamp now ev) low fits' ne in
      let d' =
        (append_encoded S J s' owner' nano' (J.marshal (record ev { timestamp = some nano' }))
          d).1 in
      find-run cs nano' d' s owner nano fits low' (omega arith) rest
      ∙ find-append_encoded s' owner' nano' (J.marshal (record ev { timestamp = some nano' })) d
          (episodic_key s owner nano)
          (episodic_key_ne s owner nano s' owner' nano'
            (lt→ltb (signed nano) (signed nano') (omega arith)) fits low')

  append_encoded_finds :
      (s owner : Bytes) (nano : ℕ) (o : Option Bytes) (d : S.Db)
      → is_ok (append_encoded S J s owner nano o d).0 ≡ true
      → S.find (append_encoded S J s owner nano o d).1 namespace (episodic_key s owner nano) ≡ o
  unfolding append_encoded
  append_encoded_finds s owner nano none d h = cc
  append_encoded_finds s owner nano (some body) d h =
      let key = episodic_key s owner nano in
      let r = S.put d namespace key body in
      let done : is_ok r.0 ≡ true = sym (stored_ok r) ∙ h in
      rw (stored_db r) (
        rw (S.find-put d namespace key body namespace key)
          (ground (arith, done, bytes_eq_refl key)))

-- An event whose `Append` succeeded stays in the store as it was encoded, at its own time,
-- whatever is appended after it by the same log, of any scope and owner, where times are int64 and
-- none of these appends comes when the last time is the largest int64, from which the next wraps.
pub event_stays :
    (S : Store) (J : EventCodec) (now : ℕ) (s owner : Bytes) (ev : Event) (last : ℕ) (d : S.Db)
    (cs : List (ℕ × Bytes × Bytes × Event))
    → last < 2 ^ 64
    → IsShort S J last ((now, s, owner, ev) ∷ cs)
    → is_ok (append S J now s owner ev (last, d)).0 ≡ true
    → S.find
        (run S J cs (append S J now s owner ev (last, d)).1).1
        namespace
        (episodic_key s owner (next_nano last (stamp now ev)))
      ≡ J.marshal (record ev { timestamp = some (next_nano last (stamp now ev)) })
unfolding append
event_stays S J now s owner ev last d cs low (ne, fits, short) h =
    let nano = next_nano last (stamp now ev) in
    let r = append_encoded S J s owner nano (J.marshal (record ev { timestamp = some nano })) d in
    let low' : nano < 2 ^ 64 = (next_nano-later last (stamp now ev) low fits ne).1 in
    find-run S J cs nano r.1 s owner nano low' low' (omega arith) short
    ∙ append_encoded_finds S J s owner nano (J.marshal (record ev { timestamp = some nano })) d h
