-- ===== src/Store/Bolt.antt =====
-- pkg/store/bolt.go: the store in a bbolt file. The transactions of bbolt are the parameter `Bolt`, with what its
-- documentation says of them: a transaction takes effect as a whole or not at all, and a cursor goes through the keys of a
-- bucket in byte order.
pub mod Scan
pub mod Contract
pub mod Instance
mod Tests
use soyaos.Prelude.{
  ◌≡◌, Bool, true, false, ◌&&◌, ◌||◌, List, [], ◌∷◌, Option, none, some, Bytes, bytes_eq, bytes_lt,
  is_empty, has_prefix, Result, ok, err, All, ltb, ◌==◌, if◌then◌else◌,
}
use soyaos.Store.{StoreError, not_found, backend, answer, same_cell}

abbrev pub Pairs : Type 0
Pairs = List (Bytes × Bytes)

abbrev pub IsOrdered : Pairs → Type 0
IsOrdered [] = Unit
IsOrdered ((k, v) ∷ ps) = All (λ (q : Bytes × Bytes). bytes_lt k q.0 ≡ true) ps × IsOrdered ps

-- `Bucket.Get`
abbrev pub look_up : Bytes → Pairs → Option Bytes
look_up k [] = none
look_up k ((k', v) ∷ ps) = if bytes_eq k' k then some v else look_up k ps

abbrev pub cell_of : Bytes → Option Pairs → Option Bytes
cell_of k none = none
cell_of k (some ps) = look_up k ps

-- What the function of a transaction changes
pub data Change : Type 0 where
  nothing : Change
  set : (ns k v : Bytes) → Change
  unset : (ns k : Bytes) → Change

abbrev pub changed : Change → Bytes → Bytes → Option Bytes → Option Bytes
changed nothing ns' k' o = o
changed (set ns k v) ns' k' o = if same_cell ns k ns' k' then some v else o
changed (unset ns k) ns' k' o = if same_cell ns k ns' k' then none else o

-- `bucket` is what a cursor of the bucket goes through, `can_view` whether `View` begins, and `update` says whether the
-- transaction was committed. `Accepts` says that a `set` is committed, where bbolt takes the name and the key.
pub record Bolt : Type 1 where
  pub Disk : Type 0
  pub bucket : Disk → Bytes → Option Pairs
  pub can_view : Disk → Bool
  pub update : Disk → Change → Bool × Disk
  pub Accepts : Disk → Bytes → Bytes → Type 0
  pub ordered : (d : Disk) (ns : Bytes) (ps : Pairs) → bucket d ns ≡ some ps → IsOrdered ps
  pub cell-update :
      (d : Disk) (c : Change) (ns k : Bytes)
      → cell_of k (bucket (update d c).1 ns) ≡ (
          if (update d c).0
          then changed c ns k (cell_of k (bucket d ns))
          else cell_of k (bucket d ns))
  pub view-update : (d : Disk) (c : Change) → can_view d ≡ true → can_view (update d c).1 ≡ true
  pub accepts_set : (d : Disk) (ns k v : Bytes) → Accepts d ns k → (update d (set ns k v)).0 ≡ true
  pub accepts_update :
      (d : Disk) (c : Change) (ns k : Bytes) → Accepts d ns k → Accepts (update d c).1 ns k

module _ (B : Bolt) where
  -- `boltStore.Get`
  pub get : B.Disk → Bytes → Bytes → Result StoreError Bytes
  get d ns k = if B.can_view d then answer (cell_of k (B.bucket d ns)) else err backend

  abbrev pub committed : Bool × B.Disk → Result StoreError (Unit {0}) × B.Disk
  committed (true, d) = (ok tt, d)
  committed (false, d) = (err backend, d)

  -- `boltStore.Put`
  pub put : B.Disk → Bytes → Bytes → Bytes → Result StoreError (Unit {0}) × B.Disk
  put d ns k v =
      if is_empty ns
      then (err backend, d)
      else if is_empty k
      then (err backend, d)
      else committed (B.update d (set ns k v))

  -- `boltStore.Delete`
  abbrev pub removal : Option Pairs → Bytes → Bytes → Change
  removal none ns k = nothing
  removal (some ps) ns k = unset ns k

  pub delete : B.Disk → Bytes → Bytes → Result StoreError (Unit {0}) × B.Disk
  delete d ns k = committed (B.update d (removal (B.bucket d ns) ns k))

-- `Cursor.Seek`
abbrev pub seek : Bytes → Pairs → Pairs
seek p [] = []
seek p ((k, v) ∷ ps) = if bytes_lt k p then seek p ps else (k, v) ∷ ps

-- The second loop of `boltStore.List`
abbrev pub scan : Bytes → Pairs → Pairs
scan p [] = []
scan p ((k, v) ∷ ps) = let rest = scan p ps in if has_prefix k p then (k, v) ∷ rest else []

pub list_bucket : Bytes → Option Pairs → Pairs
list_bucket p none = []
list_bucket p (some ps) = if is_empty p then ps else scan p (seek p ps)

-- `boltStore.List`
pub list : (B : Bolt) → B.Disk → Bytes → Bytes → Result StoreError Pairs
unfolding list_bucket
list B d ns p = if B.can_view d then ok (list_bucket p (B.bucket d ns)) else err backend
