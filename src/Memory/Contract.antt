-- ===== src/Memory/Contract.antt =====
-- The contract of a memory, `KV` of pkg/memory/memory.go: a function from places to entries, which each write changes at
-- one place. What a write changes depends on whether it succeeded.
use soyaos.Prelude.{
  ℕ, Bool, ◌&&◌, List, [], ◌∷◌, Option, none, some, Bytes, bytes_eq, Result, err, if◌then◌else◌,
}
use soyaos.Memory.{Entry, MemoryError, not_found, completed, unless_expired}

-- A scope, an owner and a key
abbrev pub Place : Type 0
Place = Bytes × Bytes × Bytes

abbrev pub place_of : Entry → Place
place_of e = (e.scope, e.owner, e.key)

abbrev pub same_place : Place → Place → Bool
same_place (s, o, k) (s', o', k') = bytes_eq s s' && (bytes_eq o o' && bytes_eq k k')

pub data Write : Type 0 where
  put_at : ℕ → Entry → Write
  delete_at : Place → Write

abbrev pub target : Write → Place
target (put_at now e) = place_of e
target (delete_at p) = p

abbrev pub written : Write → Option Entry
written (put_at now e) = some (completed now e)
written (delete_at p) = none

-- The function after writes, of which it is known which ones succeeded
abbrev pub changed : Write → Bool → (Place → Option Entry) → Place → Option Entry
changed w done f p = if done && same_place (target w) p then written w else f p

unfoldable pub replay : List Write → List Bool → (Place → Option Entry) → Place → Option Entry
replay [] oks f = f
replay (w ∷ ws) [] f = f
replay (w ∷ ws) (done ∷ oks) f = replay ws oks (changed w done f)

-- What a read at a time answers
abbrev pub answer : ℕ → Option Entry → Result MemoryError Entry
answer now none = err not_found
answer now (some e) = unless_expired now e
