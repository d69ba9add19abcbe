-- ===== src/Relay/Token/Tests.antt =====
-- A token that is issued at 1.5 seconds for 10 seconds, with a signature that depends on the secret only.
use soyaos.Prelude.{◌≡◌, ◌+◌, ◌*◌, ◌/◌, refl, arith, Bytes, some, ok, replicate, ltb}
use soyaos.Relay.Token.{second_ns, issue_token, valid, valid-issue_token}

abbrev mac : Bytes → Bytes → Bytes
mac secret message = secret

valid-issue_token_example :
    (raw : Bytes) × (issue_token mac
        (replicate 32 5)
        10_000_000_000
        1_500_000_000
        (some (replicate 16 3))
      ≡ ok raw)
    × (valid mac (replicate 32 5) raw 11_200_000_000
        ≡ ltb 11_200_000_000 ((1_500_000_000 + 10_000_000_000) / second_ns * second_ns))
valid-issue_token_example =
    valid-issue_token mac (replicate 32 5) (replicate 16 3) 10_000_000_000 1_500_000_000
      11_200_000_000 (omega arith) (omega arith) refl (omega arith)
