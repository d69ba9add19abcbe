-- ===== src/Auth/Keys.antt =====
-- pkg/auth/store_backed.go: `StoreBacked`, the keys in a store of pkg/store. `encoding/json` is the parameter `Codec`.
pub mod Laws
mod Tests
use soyaos.Prelude.{
  ℕ, ◌≡◌, Bool, true, false, not, List, [], ◌∷◌, Option, none, some, Bytes, codes, bytes_eq,
  has_prefix, Result, ok, err, if◌then◌else◌,
}
use soyaos.Store.{Store, StoreError, not_found, backend}
use soyaos.Auth.{
  Identity, AuthError, invalid_key, no_randomness, encode_failed, store_failed, key_prefix, raw_key,
  identity, has_expired, dev_key, dev_identity,
}

abbrev pub namespace : Bytes
namespace = codes "auth.keys"

abbrev pub each_text : (Bytes → Bytes) → List Bytes → List Bytes
each_text text [] = []
each_text text (s ∷ ss) = text s ∷ each_text text ss

abbrev pub texts : (Bytes → Bytes) → Identity → Identity
texts text id = record id {
  key_id = text id.key_id;
  subject = text id.subject;
  scopes = each_text text id.scopes;
}

-- `json.Marshal` and `json.Unmarshal` at `Identity`. `text s` is what a string comes back as: bytes that are not UTF-8 are
-- replaced.
pub record Codec : Type 0 where
  pub marshal : Identity → Option Bytes
  pub unmarshal : Bytes → Option Identity
  pub text : Bytes → Bytes
  pub unmarshal-marshal :
      (id : Identity) (b : Bytes) → marshal id ≡ some b → unmarshal b ≡ some (texts text id)

module _ (S : Store) (J : Codec) where
  -- A failure to encode is ignored: the body is then empty.
  abbrev body_of : Option Bytes → Bytes
  body_of none = []
  body_of (some body) = body

  -- `StoreBacked.SeedDevKey`, which ignores every error
  pub seed_dev_key : ℕ → S.Db → S.Db
  seed_dev_key now d = (S.put d namespace dev_key (body_of (J.marshal (dev_identity now)))).1

  pub minted :
      Bytes
      → Identity
      → Result StoreError (Unit {0}) × S.Db
      → Result AuthError (Bytes × Identity) × S.Db
  minted key id (ok _, d) = (ok (key, id), d)
  minted key id (err _, d) = (err store_failed, d)

  pub put_identity :
      Bytes → Identity → Option Bytes → S.Db → Result AuthError (Bytes × Identity) × S.Db
  unfolding minted
  put_identity key id none d = (err encode_failed, d)
  put_identity key id (some body) d = minted key id (S.put d namespace key body)

  -- `StoreBacked.Mint`
  pub mint :
      Option Bytes → Bytes → List Bytes → ℕ → ℕ → S.Db → Result AuthError (Bytes × Identity) × S.Db
  unfolding put_identity
  mint none subject scopes ttl now d = (err no_randomness, d)
  mint (some raw) subject scopes ttl now d =
      let id = identity raw subject scopes ttl now in put_identity (raw_key raw) id (J.marshal id) d

  pub unless_expired : ℕ → Option Identity → Result AuthError Identity
  unless_expired now none = err invalid_key
  unless_expired now (some id) = if has_expired now id then err invalid_key else ok id

  pub resolved : ℕ → Result StoreError Bytes → Result AuthError Identity
  unfolding unless_expired
  resolved now (ok body) = unless_expired now (J.unmarshal body)
  resolved now (err not_found) = err invalid_key
  resolved now (err backend) = err store_failed

  -- `StoreBacked.Verify`
  pub verify : ℕ → Bytes → S.Db → Result AuthError Identity
  unfolding resolved
  verify now key d =
      if not (has_prefix key key_prefix)
      then err invalid_key
      else resolved now (S.get d namespace key)

  -- The key that the scan of `Revoke` finds
  pub has_id : Bytes → Option Identity → Bool
  has_id key_id none = false
  has_id key_id (some id) = bytes_eq id.key_id key_id

  pub key_with_id : Bytes → List (Bytes × Bytes) → Option Bytes
  unfolding has_id
  key_with_id key_id [] = none
  key_with_id key_id ((k, v) ∷ ps) =
      let rest = key_with_id key_id ps in if has_id key_id (J.unmarshal v) then some k else rest

  pub deleted : Result StoreError (Unit {0}) × S.Db → Result AuthError (Unit {0}) × S.Db
  deleted (ok _, d) = (ok tt, d)
  deleted (err _, d) = (err store_failed, d)

  pub delete_found : Option Bytes → S.Db → Result AuthError (Unit {0}) × S.Db
  unfolding deleted
  delete_found none d = (err invalid_key, d)
  delete_found (some key) d = deleted (S.delete d namespace key)

  pub revoke_from :
      Bytes → Result StoreError (List (Bytes × Bytes)) → S.Db → Result AuthError (Unit {0}) × S.Db
  unfolding key_with_id delete_found
  revoke_from key_id (ok ps) d = delete_found (key_with_id key_id ps) d
  revoke_from key_id (err _) d = (err store_failed, d)

  -- `StoreBacked.Revoke`
  pub revoke : Bytes → S.Db → Result AuthError (Unit {0}) × S.Db
  unfolding revoke_from
  revoke key_id d = revoke_from key_id (S.list d namespace []) d

  pub with_identity : Option Identity → List Identity → List Identity
  with_identity none out = out
  with_identity (some id) out = id ∷ out

  pub identities : List (Bytes × Bytes) → List Identity
  unfolding with_identity
  identities [] = []
  identities ((k, v) ∷ ps) = with_identity (J.unmarshal v) (identities ps)

  pub listed : Result StoreError (List (Bytes × Bytes)) → Result AuthError (List Identity)
  unfolding identities
  listed (ok ps) = ok (identities ps)
  listed (err _) = err store_failed

  -- `StoreBacked.List`
  pub list : S.Db → Result AuthError (List Identity)
  unfolding listed
  list d = listed (S.list d namespace [])
