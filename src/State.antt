-- ===== src/State.antt =====
-- pkg/state/state.go: the versioned entries of stateful agents. `BoltStore` over any store of
-- pkg/store; its mutex makes every operation one step, so interleaved callers are a sequence of
-- calls. `encoding/json` is the parameter `Codec`, and `time.Now()` an argument of each write.
pub mod Versions
pub mod Cells
pub mod Keeps
pub mod Isolation
pub mod Swaps
pub mod History
pub mod Stale
pub mod PlainCodec
mod Tests
use soyaos.Prelude.{
  ℕ, suc, ◌+◌, ◌%◌, ◌^◌, Bool, true, false, not, ◌&&◌, ◌||◌, ◌≡◌, Option, none, some, List, [], ◌∷◌,
  ◌++◌, Bytes, Result, ok, err, codes, bytes_eq, has_prefix, is_empty, is_ok, ◌==◌, if◌then◌else◌,
}
use soyaos.Store.{Store, StoreError, not_found, backend}
use soyaos.Store.Key.{composite_key}

-- An int64 is its bit pattern, and a time a count of nanoseconds.
pub record Entry : Type 0 where
  pub scope : Bytes
  pub owner_id : Bytes
  pub key : Bytes
  pub value : Bytes
  pub version : ℕ
  pub updated_at : ℕ

pub data StateError : Type 0 where
  conflict key_not_found invalid_scope decode_entry encode_entry store_failed : StateError

abbrev pub scope_agent : Bytes
scope_agent = codes "agent"

abbrev pub scope_user : Bytes
scope_user = codes "user"

abbrev pub scope_row : Bytes
scope_row = codes "row"

-- `Scope.Valid`
unfoldable pub valid : Bytes → Bool
valid s = bytes_eq s scope_agent || (bytes_eq s scope_user || bytes_eq s scope_row)

abbrev pub namespace : Bytes
namespace = codes "state.entries"

-- `json.Marshal` and `json.Unmarshal` at `Entry`. `text s` is what a string comes back as: bytes
-- that are not UTF-8 are replaced, and plain ASCII is kept.
pub record Codec : Type 0 where
  pub marshal : Entry → Option Bytes
  pub unmarshal : Bytes → Option Entry
  pub text : Bytes → Bytes
  pub unmarshal-marshal :
      (e : Entry) (b : Bytes)
      → marshal e ≡ some b
      → unmarshal b
        ≡ some (record e { scope = text e.scope; owner_id = text e.owner_id; key = text e.key })

abbrev pub bump : ℕ → ℕ
bump v = (v + 1) % 2 ^ 64

abbrev pub entry_key : Bytes → Bytes → Bytes → Bytes
entry_key scope owner key = composite_key (scope ∷ owner ∷ key ∷ [])

abbrev pub make_entry : Bytes → Bytes → Bytes → Bytes → ℕ → ℕ → Entry
make_entry sc owner k v n now = record {
  scope = sc;
  owner_id = owner;
  key = k;
  value = v;
  version = n;
  updated_at = now;
}

-- `hasPrefix`
pub has_key_prefix : Bytes → Bytes → Bool
has_key_prefix s prefix = has_prefix s prefix

module _ (S : Store) (J : Codec) where
  unfoldable pub decode : Bytes → Result StateError Entry
  decode body = elim (J.unmarshal body) [ none ↦ err decode_entry | some e ↦ ok e ]

  -- `BoltStore.Get`, past the test of the scope
  unfoldable pub read : S.Db → Bytes → Bytes → Bytes → Result StateError Entry
  unfolding decode
  read d scope owner key = elim (S.get d namespace (entry_key scope owner key)) [
    | ok body ↦ decode body
    | err not_found ↦ err key_not_found
    | err backend ↦ err store_failed
  ]

  unfoldable pub get : S.Db → Bytes → Bytes → Bytes → Result StateError Entry
  get d scope owner key = if valid scope then read d scope owner key else err invalid_scope

  unfoldable pub stored :
      Entry → Result StoreError (Unit {0}) × S.Db → Result StateError Entry × S.Db
  stored e (ok _, d) = (ok e, d)
  stored e (err _, d) = (err store_failed, d)

  -- The encoding of an entry and its write, with which every write ends.
  unfoldable pub put_encoded : S.Db → Entry → Option Bytes → Result StateError Entry × S.Db
  unfolding stored
  put_encoded d e none = (err encode_entry, d)
  put_encoded d e (some body) =
      stored e (S.put d namespace (entry_key e.scope e.owner_id e.key) body)

  unfoldable pub write : S.Db → Entry → Result StateError Entry × S.Db
  unfolding put_encoded
  write d e = put_encoded d e (J.marshal e)

  -- `BoltStore.Put`
  unfoldable pub put_over :
      S.Db
      → ℕ
      → Bytes
      → Bytes
      → Bytes
      → Bytes
      → Result StateError Entry
      → Result StateError Entry × S.Db
  put_over d now scope owner key value (ok existing) =
      write d (make_entry scope owner key value (bump existing.version) now)
  put_over d now scope owner key value (err key_not_found) =
      write d (make_entry scope owner key value 1 now)
  put_over d now scope owner key value (err e) = (err e, d)

  unfoldable pub put : S.Db → ℕ → Bytes → Bytes → Bytes → Bytes → Result StateError Entry × S.Db
  put d now scope owner key value =
      if valid scope
      then put_over d now scope owner key value (get d scope owner key)
      else (err invalid_scope, d)

  -- `BoltStore.CompareAndSwap`
  pub swap_over :
      S.Db
      → ℕ
      → Bytes
      → Bytes
      → Bytes
      → ℕ
      → Bytes
      → Result StateError Entry
      → Result StateError Entry × S.Db
  swap_over d now scope owner key base value (ok existing) =
      if existing.version == base
      then write d (make_entry scope owner key value (bump existing.version) now)
      else (err conflict, d)
  swap_over d now scope owner key base value (err key_not_found) =
      if base == 0 then write d (make_entry scope owner key value 1 now) else (err conflict, d)
  swap_over d now scope owner key base value (err e) = (err e, d)

  pub compare_and_swap :
      S.Db → ℕ → Bytes → Bytes → Bytes → ℕ → Bytes → Result StateError Entry × S.Db
  compare_and_swap d now scope owner key base value =
      if valid scope
      then swap_over d now scope owner key base value (get d scope owner key)
      else (err invalid_scope, d)

  pub deleted : Result StoreError (Unit {0}) × S.Db → Result StateError (Unit {0}) × S.Db
  deleted (ok _, d) = (ok tt, d)
  deleted (err _, d) = (err store_failed, d)

  -- `BoltStore.Delete`
  pub delete : S.Db → Bytes → Bytes → Bytes → Result StateError (Unit {0}) × S.Db
  unfolding deleted
  delete d scope owner key =
      if valid scope
      then deleted (S.delete d namespace (entry_key scope owner key))
      else (err invalid_scope, d)

  -- The tests of the loop of `BoltStore.List`
  wanted : Bytes → Bytes → Bytes → Entry → Bool
  wanted scope owner prefix e =
      (bytes_eq e.scope scope && bytes_eq e.owner_id owner)
      && (is_empty prefix || has_key_prefix e.key prefix)

  keep_entry : Bytes → Bytes → Bytes → Option Entry → List Entry → List Entry
  unfolding wanted has_key_prefix
  keep_entry scope owner prefix none out = out
  keep_entry scope owner prefix (some e) out = if wanted scope owner prefix e then e ∷ out else out

  collect : Bytes → Bytes → Bytes → List (Bytes × Bytes) → List Entry
  unfolding keep_entry
  collect scope owner prefix [] = []
  collect scope owner prefix ((k, v) ∷ ps) =
      keep_entry scope owner prefix (J.unmarshal v) (collect scope owner prefix ps)

  -- `BoltStore.List`
  list : S.Db → Bytes → Bytes → Bytes → Result StateError (List Entry)
  list d scope owner prefix =
      if valid scope
      then (elim (S.list d namespace []) [
        | ok pairs ↦ ok (collect scope owner prefix pairs)
        | err _ ↦ err store_failed
      ])
      else err invalid_scope

-- One call of a writing method, with its arguments.
pub data Call : Type 0 where
  put_call : (now : ℕ) (scope owner key value : Bytes) → Call
  swap_call : (now : ℕ) (scope owner key : Bytes) (base : ℕ) (value : Bytes) → Call
  delete_call : (scope owner key : Bytes) → Call

abbrev pub target : Call → Bytes × Bytes × Bytes
target (put_call now sc owner k value) = (sc, owner, k)
target (swap_call now sc owner k base value) = (sc, owner, k)
target (delete_call sc owner k) = (sc, owner, k)

-- Whether the call succeeded, and the store after it.
unfoldable pub perform : (S : Store) (J : Codec) → S.Db → Call → Bool × S.Db
unfolding put compare_and_swap delete
perform S J d (put_call now sc owner k value) =
    let (r, d') = put S J d now sc owner k value in (is_ok r, d')
perform S J d (swap_call now sc owner k base value) =
    let (r, d') = compare_and_swap S J d now sc owner k base value in (is_ok r, d')
perform S J d (delete_call sc owner k) = let (r, d') = delete S J d sc owner k in (is_ok r, d')
