-- ===== src/Auth.antt =====
-- pkg/auth: API keys. Identities, the keys that carry them and the header of a request (auth.go, here), the registry of a
-- process (auth.go, Auth/Registry) and the one in a store (store_backed.go, Auth/Keys). Random bytes are an argument, and a
-- time is a count of nanoseconds, 0 where it is not set.
pub mod Registry
pub mod Keys
use soyaos.Prelude.{
  ℕ, ◌+◌, ◌/◌, ◌%◌, Bool, true, false, not, ◌&&◌, ◌||◌, List, [], ◌∷◌, ◌++◌, Bytes, codes, bytes_eq,
  ltb, leb, ◌==◌, if◌then◌else◌, length, take, drop,
}

pub record Identity : Type 0 where
  pub key_id : Bytes
  pub subject : Bytes
  pub issued_at : ℕ
  pub expires_at : ℕ
  pub scopes : List Bytes

pub data AuthError : Type 0 where
  invalid_key no_randomness encode_failed store_failed : AuthError

abbrev pub key_prefix : Bytes
key_prefix = codes "sk-soya-"

-- `Identity.HasScope`
pub has_scope : Bytes → List Bytes → Bool
has_scope s [] = false
has_scope s (x ∷ xs) = bytes_eq x s || has_scope s xs

-- `hex.EncodeToString`
abbrev hex_digit : ℕ → ℕ
hex_digit n = if ltb n 10 then 48 + n else 87 + n

abbrev pub hex : Bytes → Bytes
hex [] = []
hex (b ∷ bs) = hex_digit (b / 16) ∷ hex_digit (b % 16) ∷ hex bs

-- The key of `Mint`
abbrev pub raw_key : Bytes → Bytes
raw_key raw = key_prefix ++ hex raw

-- The identity of `Mint`
abbrev pub identity : Bytes → Bytes → List Bytes → ℕ → ℕ → Identity
identity raw subject scopes ttl now = record {
  key_id = hex (take 8 raw);
  subject = subject;
  issued_at = now;
  expires_at = if ltb 0 ttl then now + ttl else 0;
  scopes = scopes;
}

-- The test of expiry of both kinds of `Verify`
abbrev pub has_expired : ℕ → Identity → Bool
has_expired now id = not (id.expires_at == 0) && ltb id.expires_at now

abbrev pub dev_key : Bytes
dev_key = key_prefix ++ codes "dev-local"

abbrev pub dev_identity : ℕ → Identity
dev_identity now = record {
  key_id = codes "unsafe-dev-local";
  subject = codes "local";
  issued_at = now;
  expires_at = 0;
  scopes = codes "agents:invoke" ∷ codes "agents:list" ∷ [];
}

abbrev lower : ℕ → ℕ
lower c = if leb 65 c && leb c 90 then c + 32 else c

-- `strings.EqualFold`, of ASCII strings
abbrev equal_fold : Bytes → Bytes → Bool
equal_fold [] [] = true
equal_fold (c ∷ s) (d ∷ t) = lower c == lower d && equal_fold s t
equal_fold _ _ = false

abbrev bearer : Bytes
bearer = codes "Bearer "

-- `ExtractBearer`, over `strings.TrimSpace`
pub extract_bearer : (Bytes → Bytes) → Bytes → Bytes
extract_bearer trim_space header =
    if leb (length header) (length bearer)
    then []
    else if not (equal_fold (take (length bearer) header) bearer)
    then []
    else trim_space (drop (length bearer) header)
