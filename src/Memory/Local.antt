-- ===== src/Memory/Local.antt =====
-- pkg/memory/memory.go: `InMemory`, the memory of a process. The map is an association list.
pub mod Refines
use soyaos.Prelude.{
  ℕ, Bool, true, false, List, [], ◌∷◌, ◌++◌, Option, none, some, Bytes, bytes_eq, Result, ok, err,
  if◌then◌else◌,
}
use soyaos.Memory.{Entry, MemoryError, not_found, completed, unless_expired, is_listed}
use soyaos.Memory.Contract.{Place, Write, put_at, delete_at}

abbrev pub Data : Type 0
Data = List (Bytes × Entry)

-- `compositeKey`
unfoldable pub composite_key : Bytes → Bytes → Bytes → Bytes
composite_key s owner k = s ++ (0 ∷ (owner ++ (0 ∷ k)))

pub find : Bytes → Data → Option Entry
find id [] = none
find id ((k, e) ∷ m) = if bytes_eq k id then some e else find id m

pub remove : Bytes → Data → Data
remove id [] = []
remove id ((k, e) ∷ m) = let rest = remove id m in if bytes_eq k id then rest else (k, e) ∷ rest

pub found : ℕ → Option Entry → Result MemoryError Entry
found now none = err not_found
found now (some e) = unless_expired now e

-- `InMemory.Get`
unfoldable pub get : ℕ → Bytes → Bytes → Bytes → Data → Result MemoryError Entry
unfolding found find
get now s owner k m = found now (find (composite_key s owner k) m)

-- `InMemory.Put`
unfoldable pub put : ℕ → Entry → Data → Data
unfolding remove
put now e m = let id = composite_key e.scope e.owner e.key in (id, completed now e) ∷ remove id m

-- `InMemory.Delete`
unfoldable pub delete : Bytes → Bytes → Bytes → Data → Data
unfolding remove
delete s owner k m = remove (composite_key s owner k) m

-- `InMemory.List`
unfoldable pub list : ℕ → Bytes → Bytes → Bytes → Data → List Entry
list now s owner prefix [] = []
list now s owner prefix ((k, e) ∷ m) =
    let rest = list now s owner prefix m in
    if is_listed now s owner prefix e then e ∷ rest else rest

abbrev pub perform : Write → Data → Data
perform (put_at now e) m = put now e m
perform (delete_at (s, owner, k)) m = delete s owner k m

abbrev pub run : List Write → Data → Data
run [] m = m
run (w ∷ ws) m = run ws (perform w m)
