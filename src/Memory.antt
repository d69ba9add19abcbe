-- ===== src/Memory.antt =====
-- pkg/memory: the entries of an agent's memory (memory.go, here), kept in a map of the process (memory.go,
-- Memory/Local) or in a store of pkg/store (store_backed.go, Memory/Backed), the contract that both meet
-- (Memory/Contract), and the log of events in time order (episodic.go, Memory/Episodic).
-- A time is a count of nanoseconds, 0 where it is not set; a TTL is not negative.
pub mod Contract
pub mod Local
pub mod Backed
pub mod Episodic
mod Tests
use soyaos.Prelude.{
  ℕ, ◌+◌, Bool, true, false, not, ◌&&◌, ◌||◌, List, [], ◌∷◌, ◌++◌, Option, none, some, Bytes, codes,
  bytes_eq, is_empty, has_prefix, Result, ok, err, ltb, ◌==◌, if◌then◌else◌,
}

pub record Entry : Type 0 where
  pub key : Bytes
  pub value : Bytes
  pub layer : Bytes
  pub scope : Bytes
  pub owner : Bytes
  pub updated_at : ℕ
  pub ttl : ℕ
  pub sensitivity : Bytes

pub data MemoryError : Type 0 where
  not_found bad_entry store_failed : MemoryError

abbrev pub low : Bytes
low = codes "low"

-- `ExpiresAt`: 0 for no expiry
pub expires_at : Entry → ℕ
expires_at e = if e.ttl == 0 then 0 else e.updated_at + e.ttl

-- `Expired`
unfoldable pub is_expired : ℕ → Entry → Bool
unfolding expires_at
is_expired now e = not (expires_at e == 0) && ltb (expires_at e) now

-- What both kinds of `Put` store for an entry
unfoldable pub completed : ℕ → Entry → Entry
completed now e = record e {
  updated_at = if e.updated_at == 0 then now else e.updated_at;
  sensitivity = if is_empty e.sensitivity then low else e.sensitivity;
}

-- What both kinds of `Get` return for an entry that they found
unfoldable pub unless_expired : ℕ → Entry → Result MemoryError Entry
unless_expired now e = if is_expired now e then err not_found else ok e

-- The tests of both kinds of `List`
unfoldable pub is_listed : ℕ → Bytes → Bytes → Bytes → Entry → Bool
is_listed now scope owner prefix e =
    (bytes_eq e.scope scope && bytes_eq e.owner owner)
    && ((is_empty prefix || has_prefix e.key prefix) && not (is_expired now e))
