-- ===== src/Store.antt =====
-- pkg/store: the byte-in, byte-out persistence contract of store.go, as the operations and the
-- laws that the other packages rely on; the composite keys that keep the keyspaces of different
-- owners apart (Store/Key); and a store in memory, for the tests (Store/Memory).
pub mod Key
pub mod Memory
pub mod Bolt
mod Tests
use soyaos.Prelude.{
  Bool, true, false, ◌&&◌, ◌≡◌, Option, none, some, List, Bytes, Result, ok, err, bytes_eq,
  has_prefix, is_ok, In, if◌then◌else◌,
}

-- `ErrNotFound`, or any other failure of the backend.
pub data StoreError : Type 0 where
  not_found backend : StoreError

abbrev pub answer : Option Bytes → Result StoreError Bytes
answer none = err not_found
answer (some v) = ok v

abbrev pub same_cell : Bytes → Bytes → Bytes → Bytes → Bool
same_cell ns k ns' k' = bytes_eq ns ns' && bytes_eq k k'

-- The interface `Store`. `find` is what the namespaces hold. `Reads d` says that reads of `d` do
-- not fail, and `Accepts d ns k` that a write at that place does not. A write that fails changes
-- nothing: it is a transaction.
pub record Store : Type 1 where
  pub Db : Type 0
  pub find : Db → Bytes → Bytes → Option Bytes
  pub Reads : Db → Type 0
  pub Accepts : Db → Bytes → Bytes → Type 0
  pub get : Db → Bytes → Bytes → Result StoreError Bytes
  pub put : Db → Bytes → Bytes → Bytes → Result StoreError (Unit {0}) × Db
  pub delete : Db → Bytes → Bytes → Result StoreError (Unit {0}) × Db
  pub list : Db → Bytes → Bytes → Result StoreError (List (Bytes × Bytes))
  pub get_reads : (d : Db) (ns k : Bytes) → Reads d → get d ns k ≡ answer (find d ns k)
  pub get_ok : (d : Db) (ns k v : Bytes) → get d ns k ≡ ok v → find d ns k ≡ some v
  pub get_not_found : (d : Db) (ns k : Bytes) → get d ns k ≡ err not_found → find d ns k ≡ none
  pub put_accepts : (d : Db) (ns k v : Bytes) → Accepts d ns k → (put d ns k v).0 ≡ ok tt
  pub find-put :
      (d : Db) (ns k v ns' k' : Bytes)
      → find (put d ns k v).1 ns' k'
        ≡ (if is_ok (put d ns k v).0 && same_cell ns k ns' k' then some v else find d ns' k')
  pub find-delete :
      (d : Db) (ns k ns' k' : Bytes)
      → find (delete d ns k).1 ns' k'
        ≡ (if is_ok (delete d ns k).0 && same_cell ns k ns' k' then none else find d ns' k')
  pub reads_put : (d : Db) (ns k v : Bytes) → Reads d → Reads (put d ns k v).1
  pub reads_delete : (d : Db) (ns k : Bytes) → Reads d → Reads (delete d ns k).1
  pub accepts_put :
      (d : Db) (ns k v ns' k' : Bytes) → Accepts d ns' k' → Accepts (put d ns k v).1 ns' k'
  pub accepts_delete :
      (d : Db) (ns k ns' k' : Bytes) → Accepts d ns' k' → Accepts (delete d ns k).1 ns' k'
  pub list_reads :
      (d : Db) (ns p : Bytes) → Reads d → (ps : List (Bytes × Bytes)) × (list d ns p ≡ ok ps)
  pub list_sound :
      (d : Db) (ns p : Bytes) (ps : List (Bytes × Bytes)) (k v : Bytes)
      → list d ns p ≡ ok ps
      → In {A = Bytes × Bytes} (k, v) ps
      → (find d ns k ≡ some v) × (has_prefix k p ≡ true)
  pub list_complete :
      (d : Db) (ns p : Bytes) (ps : List (Bytes × Bytes)) (k v : Bytes)
      → list d ns p ≡ ok ps
      → find d ns k ≡ some v
      → has_prefix k p ≡ true
      → In {A = Bytes × Bytes} (k, v) ps
