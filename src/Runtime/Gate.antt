-- ===== src/Runtime/Gate.antt =====
-- pkg/runtime/gate.go: the fail-closed capability gate. A denial carries the capability and the
-- resource. A port is a number: the wire knows no negative one. Host names and protocols are
-- ASCII, where `strings.EqualFold` compares without regard to case.
pub mod Decisions
pub mod Paths
pub mod Decimal
mod Tests
use soyaos.Prelude.{
  ℕ, zero, suc, ◌+◌, ◌-◌, ◌*◌, ◌/◌, ◌%◌, Bool, true, false, ◌&&◌, ◌||◌, List, [], ◌∷◌, ◌++◌, Bytes,
  bytes_eq, is_empty, has_prefix, codes, Result, ok, err, ◌>>◌, leb, ◌==◌, if◌then◌else◌, map,
}
use soyaos.Runtime.FilePath.{clean, base, is_abs, slash}

pub record NetRule : Type 0 where
  pub host : Bytes
  pub port : ℕ
  pub proto : Bytes

pub record EgressAccess : Type 0 where
  pub host : Bytes
  pub port : ℕ
  pub proto : Bytes

pub record Caps : Type 0 where
  pub network_out : List NetRule
  pub fs_read : List Bytes
  pub fs_write : List Bytes
  pub exec : List Bytes

pub record Access : Type 0 where
  pub network_out : List EgressAccess
  pub fs_read : List Bytes
  pub fs_write : List Bytes

pub data Reason : Type 0 where
  not_in_allowlist not_absolute : Reason

pub record DeniedError : Type 0 where
  pub capability : Bytes
  pub resource : Bytes
  pub reason : Reason

abbrev pub denied : Bytes → Bytes → Reason → Result DeniedError (Unit {0})
denied c r why = err (record { capability = c; resource = r; reason = why })

abbrev pub lower : ℕ → ℕ
lower c = if leb b'A' c && leb c b'Z' then c + 32 else c

-- `strings.EqualFold`
abbrev pub equal_fold : Bytes → Bytes → Bool
equal_fold a b = bytes_eq (map lower a) (map lower b)

-- `itoa`: the digits from the last one, into the front of what is written already. The buffer of
-- 20 bytes is the fuel.
unfoldable pub digits_into : ℕ → ℕ → Bytes → Bytes
digits_into zero n out = out
digits_into (suc fuel) n out =
    let rest = digits_into fuel (n / 10) ((b'0' + n % 10) ∷ out) in if n == 0 then out else rest

unfoldable pub itoa : ℕ → Bytes
itoa n = if n == 0 then b'0' ∷ [] else digits_into 20 n []

-- `hostMatches`
pub host_matches : Bytes → Bytes → Bool
host_matches rule host = bytes_eq rule (codes "*") || equal_fold rule host

-- The tests of one round of the loop of `CheckEgress`
pub rule_allows : Bytes → ℕ → Bytes → NetRule → Bool
unfolding host_matches
rule_allows host port proto r =
    host_matches r.host host && ((r.port == 0 || r.port == port) && equal_fold r.proto proto)

abbrev pub any {ℓ} : {A : Type ℓ} → (A → Bool) → List A → Bool
any p [] = false
any p (x ∷ xs) = p x || any p xs

abbrev pub egress_resource : Bytes → ℕ → Bytes → Bytes
egress_resource host port proto = host ++ b':' ∷ (itoa port ++ b'/' ∷ map lower proto)

-- `CheckEgress`
unfoldable pub check_egress : Caps → Bytes → ℕ → Bytes → Result DeniedError (Unit {0})
unfolding rule_allows
check_egress caps host port proto =
    if any (rule_allows host port proto) caps.network_out
    then ok tt
    else denied (codes "network_out") (egress_resource host port proto) not_in_allowlist

-- One round of the loop of `checkFS`: the root itself, or a path below it.
pub below_root : Bytes → Bytes → Bool
below_root path root = let r = clean root in bytes_eq path r || has_prefix path (r ++ slash ∷ [])

-- `checkFS`
unfoldable pub check_fs : Bytes → List Bytes → Bytes → Result DeniedError (Unit {0})
unfolding below_root
check_fs cap allowed path =
    if is_abs (clean path)
    then (if any (below_root (clean path)) allowed then ok tt else denied cap path not_in_allowlist)
    else denied cap path not_absolute

abbrev pub check_fs_read : Caps → Bytes → Result DeniedError (Unit {0})
check_fs_read caps path = check_fs (codes "fs_read") caps.fs_read path

abbrev pub check_fs_write : Caps → Bytes → Result DeniedError (Unit {0})
check_fs_write caps path = check_fs (codes "fs_write") caps.fs_write path

-- `CheckExec`
unfoldable pub check_exec : Caps → Bytes → Result DeniedError (Unit {0})
check_exec caps argv0 =
    if any (bytes_eq (base argv0)) caps.exec
    then ok tt
    else denied (codes "exec") argv0 not_in_allowlist

-- A loop that returns the first denial.
abbrev pub each {ℓ} :
    {A : Type ℓ} → (A → Result DeniedError (Unit {0})) → List A → Result DeniedError (Unit {0})
each check [] = ok tt
each check (x ∷ xs) = check x >> each check xs

abbrev pub check_target : Caps → EgressAccess → Result DeniedError (Unit {0})
check_target caps t = check_egress caps t.host t.port t.proto

-- `Authorize`
unfoldable pub authorize : Caps → Bytes → Access → Result DeniedError (Unit {0})
authorize caps argv0 access =
    check_exec caps argv0
    >> (each (check_target caps) access.network_out
        >> (each (check_fs_read caps) access.fs_read >> each (check_fs_write caps) access.fs_write))
