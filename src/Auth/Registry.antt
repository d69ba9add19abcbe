-- ===== src/Auth/Registry.antt =====
-- pkg/auth/auth.go: `MemoryStore`, the keys of a process. The map is an association list, whose order stands for the order
-- in which Go ranges over it.
use soyaos.Prelude.{
  ℕ, not, List, [], ◌∷◌, Option, none, some, Bytes, bytes_eq, has_prefix, Result, ok, err,
  if◌then◌else◌,
}
use soyaos.Auth.{
  Identity, AuthError, invalid_key, no_randomness, key_prefix, raw_key, identity, has_expired,
  dev_key, dev_identity,
}

abbrev pub Registry : Type 0
Registry = List (Bytes × Identity)

pub without : Bytes → Registry → Registry
without k [] = []
without k ((k', id) ∷ keys) =
    let rest = without k keys in if bytes_eq k' k then rest else (k', id) ∷ rest

-- `MemoryStore.SeedDevKey`
pub seed_dev_key : ℕ → Registry → Registry
unfolding without
seed_dev_key now keys = (dev_key, dev_identity now) ∷ without dev_key keys

-- `MemoryStore.Mint`
pub mint :
    Option Bytes
    → Bytes
    → List Bytes
    → ℕ
    → ℕ
    → Registry
    → Result AuthError (Bytes × Identity) × Registry
unfolding without
mint none subject scopes ttl now keys = (err no_randomness, keys)
mint (some raw) subject scopes ttl now keys =
    let id = identity raw subject scopes ttl now in
    (ok (raw_key raw, id), (raw_key raw, id) ∷ without (raw_key raw) keys)

pub look_up : ℕ → Bytes → Registry → Result AuthError Identity
look_up now key [] = err invalid_key
look_up now key ((k, id) ∷ keys) =
    let rest = look_up now key keys in
    if bytes_eq k key then (if has_expired now id then err invalid_key else ok id) else rest

-- `MemoryStore.Verify`
pub verify : ℕ → Bytes → Registry → Result AuthError Identity
unfolding look_up
verify now key keys =
    if not (has_prefix key key_prefix) then err invalid_key else look_up now key keys

-- `MemoryStore.Revoke`
pub revoke : Bytes → Registry → Result AuthError (Unit {0}) × Registry
revoke key_id [] = (err invalid_key, [])
revoke key_id ((k, id) ∷ keys) =
    let (r, rest) = revoke key_id keys in
    if bytes_eq id.key_id key_id then (ok tt, keys) else (r, (k, id) ∷ rest)
