-- ===== src/Auth/Keys/Tests.antt =====
-- The theorems about pkg/auth/store_backed.go on the store in memory, with a codec that keeps every string.
use mathlib.Core.Path.{subst}
use mathlib.Core.Option.{some-injective}
use soyaos.Prelude.{
  ℕ, ◌≡◌, refl, Option, none, some, List, [], ◌∷◌, ◌++◌, Bytes, codes, ok, err, if◌then◌else◌, take,
  drop, length, take_append_length, drop_append_length, replicate,
}
use soyaos.Store.Memory.{memory}
use soyaos.Auth.{Identity, invalid_key, raw_key, identity, has_expired, hex}
use soyaos.Auth.Keys.{
  Codec, each_text, mint, put_identity, minted, verify, revoke, revoke_from, key_with_id, has_id,
  delete_found, deleted,
}
use soyaos.Auth.Keys.Laws.{verify-mint, HasRevoked, revoke_one}

abbrev field_of : Bytes → Bytes
field_of s = length s ∷ s

abbrev rest_of : Bytes → Bytes
rest_of [] = []
rest_of (n ∷ s) = drop n s

abbrev head_of : Bytes → Bytes
head_of [] = []
head_of (n ∷ s) = take n s

abbrev made : Bytes → Bytes → ℕ → ℕ → List Bytes → Identity
made k s i e sc = record { key_id = k; subject = s; issued_at = i; expires_at = e; scopes = sc }

-- Identities without scopes alone are encoded.
abbrev encoded : Bytes → Bytes → ℕ → ℕ → List Bytes → Option Bytes
encoded k s i e [] = some (i ∷ (e ∷ (field_of k ++ s)))
encoded k s i e (x ∷ xs) = none

abbrev marshal : Identity → Option Bytes
marshal id = encoded id.key_id id.subject id.issued_at id.expires_at id.scopes

abbrev unmarshal : Bytes → Option Identity
unmarshal (i ∷ e ∷ s) = some (made (head_of s) (rest_of s) i e [])
unmarshal _ = none

abbrev same_list : List Bytes → List Bytes
same_list = each_text (λ s. s)

unmarshal-encoded :
    (k s : Bytes) (i e : ℕ) (sc : List Bytes) (b : Bytes)
    → encoded k s i e sc ≡ some b
    → unmarshal b ≡ some (made k s i e (same_list sc))
unmarshal-encoded k s i e [] b h =
    subst (λ c. unmarshal c ≡ some (made k s i e [])) (some-injective _ b h)
      (simp (take_append_length, drop_append_length))
unmarshal-encoded k s i e (x ∷ xs) b h = cc

abbrev plain_codec : Codec
plain_codec = record {
  marshal = marshal;
  unmarshal = unmarshal;
  text = λ s. s;
  unmarshal-marshal =
      λ id b h. unmarshal-encoded id.key_id id.subject id.issued_at id.expires_at id.scopes b h;
}

abbrev random : Bytes
random = replicate 16 171

abbrev ann : Identity
ann = identity random (codes "ann") [] 60 100

abbrev db : memory.Db
db = (mint memory plain_codec (some random) (codes "ann") [] 60 100 []).1

verify-mint_example :
    verify memory plain_codec 161 (raw_key random) db
    ≡ (if has_expired 161 ann then err invalid_key else ok ann)
unfolding mint put_identity minted
verify-mint_example =
    verify-mint memory plain_codec (some random) (codes "ann") [] 60 100 161 [] (raw_key random) ann
      tt refl refl

revoke_one_example :
    HasRevoked memory plain_codec
      (hex (take 8 random))
      db
      (revoke memory plain_codec (hex (take 8 random)) db).1
unfolding mint put_identity minted revoke revoke_from key_with_id has_id delete_found deleted
revoke_one_example = revoke_one memory plain_codec (hex (take 8 random)) db tt refl
