-- ===== src/Relay/Token.antt =====
-- pkg/mesh/relay/token.go: the signed routing tokens. HMAC-SHA256 and the random session identifier are parameters. A
-- time is a count of nanoseconds since the Unix epoch.
mod Tests
use soyaos.Prelude.BigEndian.{big_endian, read_big_endian, read-big_endian, length-big_endian}
use soyaos.Prelude.{
  ℕ, zero, suc, min, ◌+◌, ◌-◌, ◌*◌, ◌/◌, ◌%◌, ◌^◌, ◌≤◌, ◌<◌, ◌≡◌, refl, sym, ap, ◌∙◌, Bool, true,
  false, not, ◌||◌, ◌&&◌, List, [], ◌∷◌, ◌++◌, Option, none, some, Bytes, bytes_eq, bytes_eq_refl,
  length, length-append, take, drop, ltb, leb, ◌==◌, if◌then◌else◌, arith, subst, Result, ok, err,
  take_append_length, drop_append_length,
}

abbrev pub session_id_size : ℕ
session_id_size = 16

abbrev pub second_ns : ℕ
second_ns = 1_000_000_000

pub data TokenError : Type 0 where
  secret_too_short bad_ttl no_randomness : TokenError

-- The first second that `time.Unix` does not hold: it adds the seconds from the year 1 to 1970, in an int64
abbrev pub unix_end : ℕ
unix_end = 2 ^ 63 - 62_135_596_800

-- `ExpiresAt`. The seconds are read as an int64, and the addition of `time.Unix` wraps to a time before the year 1. A time
-- before the epoch is as long past as the epoch.
unfoldable pub expires_at : Bytes → ℕ
unfolding read_big_endian
expires_at raw =
    let s = read_big_endian 0 (take 8 raw) in if ltb s unix_end then s * second_ns else 0

-- `sessionID`
unfoldable pub session_id : Bytes → Bytes
session_id raw = take session_id_size (drop 8 raw)

module _ (mac : Bytes → Bytes → Bytes) where
  -- `sign`, of the bytes before the signature
  unfoldable pub sign : Bytes → Bytes → Bytes
  sign secret message = message ++ mac secret message

  unfoldable pub with_session : Bytes → ℕ → Option Bytes → Result TokenError Bytes
  unfolding sign big_endian
  with_session secret seconds none = err no_randomness
  with_session secret seconds (some id) = ok (sign secret (big_endian 8 seconds ++ id))

  -- `IssueToken`
  unfoldable pub issue_token : Bytes → ℕ → ℕ → Option Bytes → Result TokenError Bytes
  unfolding with_session
  issue_token secret ttl now random =
      if ltb (length secret) 32
      then err secret_too_short
      else if ttl == 0
      then err bad_ttl
      else with_session secret ((now + ttl) / second_ns) random

  -- `Token.Valid`
  unfoldable pub valid : Bytes → Bytes → ℕ → Bool
  unfolding expires_at
  valid secret raw now =
      if ltb (length secret) 32 || not (ltb now (expires_at raw))
      then false
      else bytes_eq (drop (8 + session_id_size) raw) (mac secret (take (8 + session_id_size) raw))

take_at : (n : ℕ) (xs ys : Bytes) → length xs ≡ n → take n (xs ++ ys) ≡ xs
take_at n xs ys e = subst (λ k. take k (xs ++ ys) ≡ xs) e (take_append_length xs ys)

drop_at : (n : ℕ) (xs ys : Bytes) → length xs ≡ n → drop n (xs ++ ys) ≡ ys
drop_at n xs ys e = subst (λ k. drop k (xs ++ ys) ≡ ys) e (drop_append_length xs ys)

take_within : (n : ℕ) (xs ys : Bytes) → n ≤ length xs → take n (xs ++ ys) ≡ take n xs
take_within zero xs ys h = refl
take_within (suc n) [] ys h = absurd (omega arith)
take_within (suc n) (x ∷ xs) ys h = ap (λ r. x ∷ r) (take_within n xs ys (omega arith))

token_message : ℕ → Bytes → Bytes
token_message seconds id = big_endian 8 seconds ++ id

length-token_message :
    (seconds : ℕ) (id : Bytes)
    → length id ≡ session_id_size
    → length (token_message seconds id) ≡ 24
unfolding token_message
length-token_message seconds id sized =
    omega (arith, length-append (big_endian 8 seconds) id, length-big_endian 8 seconds)

expires-signed :
    (mac : Bytes → Bytes → Bytes) (secret id : Bytes) (seconds : ℕ)
    → length id ≡ session_id_size
    → seconds < unix_end
    → expires_at (sign mac secret (token_message seconds id)) ≡ seconds * second_ns
unfolding expires_at token_message sign
expires-signed mac secret id seconds sized fits = rw first_bytes (rw number (rw small refl))
  where
    sized8 : length (big_endian 8 seconds) ≡ 8
    sized8 = length-big_endian 8 seconds

    first_bytes :
        take 8 ((big_endian 8 seconds ++ id) ++ mac secret (big_endian 8 seconds ++ id))
        ≡ big_endian 8 seconds
    first_bytes =
        take_within 8 (big_endian 8 seconds ++ id) _
          (omega (arith, length-append (big_endian 8 seconds) id, sized8))
        ∙ take_at 8 (big_endian 8 seconds) id sized8

    number : read_big_endian 0 (big_endian 8 seconds) ≡ seconds
    number = read-big_endian 8 seconds (omega arith)

    small : ltb seconds unix_end ≡ true
    small = ground arith

valid-signed :
    (mac : Bytes → Bytes → Bytes) (secret id : Bytes) (seconds at : ℕ)
    → 32 ≤ length secret
    → length id ≡ session_id_size
    → seconds < unix_end
    → valid mac secret (sign mac secret (token_message seconds id)) at
      ≡ ltb at (seconds * second_ns)
unfolding valid sign
valid-signed mac secret id seconds at long sized fits =
    rw (expires-signed mac secret id seconds sized fits) (
      rw
        (
          drop_at 24 message (mac secret message) whole,
          take_at 24 message (mac secret message) whole,
          bytes_eq_refl (mac secret message),
        )
        (ground arith))
  where
    message : Bytes
    message = token_message seconds id

    whole : length (token_message seconds id) ≡ 24
    whole = length-token_message seconds id sized

issue_signs :
    (mac : Bytes → Bytes → Bytes) (secret id : Bytes) (ttl now : ℕ)
    → 32 ≤ length secret
    → 0 < ttl
    → issue_token mac secret ttl now (some id)
      ≡ ok (sign mac secret (token_message ((now + ttl) / second_ns) id))
unfolding issue_token with_session token_message
issue_signs mac secret id ttl now long positive =
    let enough : ltb (length secret) 32 ≡ false = ground arith in
    let set : (ttl == 0) ≡ false = ground arith in rw (enough, set) refl

-- A token that is issued for a positive lifetime, under a secret of 32 bytes or more, is valid
-- under it at a time exactly if the time is before the expiry, the second in which the time of
-- issue and the lifetime add up, while `time.Unix` holds that.
pub valid-issue_token :
    (mac : Bytes → Bytes → Bytes) (secret id : Bytes) (ttl now at : ℕ)
    → 32 ≤ length secret
    → 0 < ttl
    → length id ≡ session_id_size
    → (now + ttl) / second_ns < unix_end
    → (raw : Bytes) × (issue_token mac secret ttl now (some id) ≡ ok raw)
      × (valid mac secret raw at ≡ ltb at ((now + ttl) / second_ns * second_ns))
valid-issue_token mac secret id ttl now at long positive sized fits = (
  sign mac secret (token_message ((now + ttl) / second_ns) id),
  issue_signs mac secret id ttl now long positive,
  valid-signed mac secret id ((now + ttl) / second_ns) at long sized fits,
)
