-- ===== src/Memory/Backed.antt =====
-- pkg/memory/store_backed.go: `StoreBacked`, the memory in a store of pkg/store. `encoding/json` is the parameter
-- `Codec`.
pub mod Refines
use soyaos.Prelude.{
  ℕ, ◌≡◌, Bool, true, false, List, [], ◌∷◌, Option, none, some, Bytes, codes, Result, ok, err,
  is_ok, if◌then◌else◌,
}
use soyaos.Store.{Store, StoreError, not_found, backend}
use soyaos.Store.Key.{composite_key}
use soyaos.Memory.{
  Entry, MemoryError, bad_entry, store_failed, completed, unless_expired, is_listed,
}
use soyaos.Memory.Contract.{Write, put_at, delete_at}

abbrev pub namespace : Bytes
namespace = codes "memory.entries"

abbrev pub texts : (Bytes → Bytes) → Entry → Entry
texts text e = record e {
  key = text e.key;
  layer = text e.layer;
  scope = text e.scope;
  owner = text e.owner;
  sensitivity = text e.sensitivity;
}

-- `json.Marshal` and `json.Unmarshal` at `Entry`. `text s` is what a string comes back as: bytes that are not UTF-8 are
-- replaced. The value is a byte slice, which comes back as it was.
pub record Codec : Type 0 where
  pub marshal : Entry → Option Bytes
  pub unmarshal : Bytes → Option Entry
  pub text : Bytes → Bytes
  pub unmarshal-marshal :
      (e : Entry) (b : Bytes) → marshal e ≡ some b → unmarshal b ≡ some (texts text e)

abbrev pub entry_key : Bytes → Bytes → Bytes → Bytes
entry_key s owner k = composite_key (s ∷ owner ∷ k ∷ [])

module _ (S : Store) (J : Codec) where
  pub decoded : ℕ → Option Entry → Result MemoryError Entry
  decoded now none = err bad_entry
  decoded now (some e) = unless_expired now e

  pub fetched : ℕ → Result StoreError Bytes → Result MemoryError Entry
  unfolding decoded
  fetched now (ok body) = decoded now (J.unmarshal body)
  fetched now (err not_found) = err MemoryError.not_found
  fetched now (err backend) = err store_failed

  -- `StoreBacked.Get`
  pub get : ℕ → S.Db → Bytes → Bytes → Bytes → Result MemoryError Entry
  unfolding fetched
  get now d s owner k = fetched now (S.get d namespace (entry_key s owner k))

  pub finished : Result StoreError (Unit {0}) × S.Db → Result MemoryError (Unit {0}) × S.Db
  finished (ok _, d) = (ok tt, d)
  finished (err _, d) = (err store_failed, d)

  pub put_encoded : S.Db → Entry → Option Bytes → Result MemoryError (Unit {0}) × S.Db
  unfolding finished
  put_encoded d e none = (err bad_entry, d)
  put_encoded d e (some body) = finished (S.put d namespace (entry_key e.scope e.owner e.key) body)

  -- `StoreBacked.Put`
  pub put : ℕ → S.Db → Entry → Result MemoryError (Unit {0}) × S.Db
  unfolding put_encoded
  put now d e = let e' = completed now e in put_encoded d e' (J.marshal e')

  -- `StoreBacked.Delete`
  pub delete : S.Db → Bytes → Bytes → Bytes → Result MemoryError (Unit {0}) × S.Db
  unfolding finished
  delete d s owner k = finished (S.delete d namespace (entry_key s owner k))

  pub keep_listed : ℕ → Bytes → Bytes → Bytes → Option Entry → List Entry → List Entry
  keep_listed now s owner prefix none out = out
  keep_listed now s owner prefix (some e) out =
      if is_listed now s owner prefix e then e ∷ out else out

  pub collect : ℕ → Bytes → Bytes → Bytes → List (Bytes × Bytes) → List Entry
  unfolding keep_listed
  collect now s owner prefix [] = []
  collect now s owner prefix ((k, v) ∷ ps) =
      keep_listed now s owner prefix (J.unmarshal v) (collect now s owner prefix ps)

  pub collected :
      ℕ
      → Bytes
      → Bytes
      → Bytes
      → Result StoreError (List (Bytes × Bytes))
      → Result MemoryError (List Entry)
  unfolding collect
  collected now s owner prefix (ok ps) = ok (collect now s owner prefix ps)
  collected now s owner prefix (err _) = err store_failed

  -- `StoreBacked.List`
  pub list : ℕ → S.Db → Bytes → Bytes → Bytes → Result MemoryError (List Entry)
  unfolding collected
  list now d s owner prefix = collected now s owner prefix (S.list d namespace [])

  -- Whether a write succeeded, and the store after it
  abbrev pub perform : Write → S.Db → Bool × S.Db
  perform (put_at now e) d = let (r, d') = put now d e in (is_ok r, d')
  perform (delete_at (s, owner, k)) d = let (r, d') = delete d s owner k in (is_ok r, d')

  abbrev pub run : List Write → S.Db → S.Db
  run [] d = d
  run (w ∷ ws) d = run ws (perform w d).1

  abbrev pub successes : List Write → S.Db → List Bool
  successes [] d = []
  successes (w ∷ ws) d = (perform w d).0 ∷ successes ws (perform w d).1
