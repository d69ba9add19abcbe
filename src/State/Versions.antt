-- ===== src/State/Versions.antt =====
-- What a write of pkg/state/state.go stores, and under which version.
use soyaos.Prelude.{
  ℕ, zero, suc, ◌≡◌, true, some, Bytes, Result, ok, err, arith, ◌==◌, if◌then◌else◌,
}
use soyaos.Store.{Store}
use soyaos.State.{
  Entry, Codec, StateError, conflict, key_not_found, valid, namespace, bump, entry_key, make_entry,
  get, stored, put_encoded, write, put, put_over, compare_and_swap, swap_over,
}

-- The version that a reader sees: an absent key counts as version 0.
abbrev pub current : Result StateError Entry → ℕ
current (ok e) = e.version
current (err _) = 0

-- The read found an entry or none, and no failure.
abbrev pub IsAnswer : Result StateError Entry → Type 0
IsAnswer (ok e) = Unit
IsAnswer (err key_not_found) = Unit
IsAnswer (err _) = ⊥

bump_zero : bump 0 ≡ 1
bump_zero = omega arith

module _ (S : Store) (J : Codec) where
  -- With a backend that accepts the write, an encoded entry is stored as it is.
  write_accepts :
      (d : S.Db) (e : Entry) (b : Bytes)
      → J.marshal e ≡ some b
      → S.Accepts d namespace (entry_key e.scope e.owner_id e.key)
      → (write S J d e).0 ≡ ok e
  unfolding write put_encoded stored
  write_accepts d e b m a =
      ground (arith, m, S.put_accepts d namespace (entry_key e.scope e.owner_id e.key) b a)

  put_over_version :
      (d : S.Db) (now : ℕ) (scope owner key value b : Bytes) (r : Result StateError Entry)
      → IsAnswer r
      → S.Accepts d namespace (entry_key scope owner key)
      → J.marshal (make_entry scope owner key value (bump (current r)) now) ≡ some b
      → (put_over S J d now scope owner key value r).0
        ≡ ok (make_entry scope owner key value (bump (current r)) now)
  unfolding put_over
  put_over_version d now scope owner key value b (ok e) r a m =
      write_accepts d (make_entry scope owner key value (bump e.version) now) b m a
  put_over_version d now scope owner key value b (err key_not_found) r a m =
      write_accepts d (make_entry scope owner key value 1 now) b m a
  put_over_version d now scope owner key value b (err _) r a m = elim r [ ]

  -- In a valid scope, where `Get` answers or finds no entry, a write at the key does not fail and
  -- the new entry can be encoded, `Put` succeeds, under the version after the one that a reader
  -- saw.
  pub put_version :
      (d : S.Db) (now : ℕ) (scope owner key value b : Bytes)
      → let e = make_entry scope owner key value (bump (current (get S J d scope owner key))) now in
        valid scope ≡ true
        → IsAnswer (get S J d scope owner key)
        → S.Accepts d namespace (entry_key scope owner key)
        → J.marshal e ≡ some b
        → (put S J d now scope owner key value).0 ≡ ok e
  unfolding put
  put_version d now scope owner key value b v r a m =
      rw v (put_over_version d now scope owner key value b (get S J d scope owner key) r a m)

  swap_over_exact :
      (d : S.Db) (now : ℕ) (scope owner key : Bytes) (base : ℕ) (value b : Bytes)
      (r : Result StateError Entry)
      → let e = make_entry scope owner key value (bump base) now in
        IsAnswer r
        → S.Accepts d namespace (entry_key scope owner key)
        → J.marshal e ≡ some b
        → (swap_over S J d now scope owner key base value r).0
          ≡ (if current r == base then ok e else err conflict)
  unfolding swap_over
  swap_over_exact d now scope owner key base value b (ok e) r a m =
      ground (arith, write_accepts d (make_entry scope owner key value (bump base) now) b m a)
  swap_over_exact d now scope owner key zero value b (err key_not_found) r a m =
      write_accepts d (make_entry scope owner key value 1 now) b m a
  swap_over_exact d now scope owner key (suc base) value b (err key_not_found) r a m = ground arith
  swap_over_exact d now scope owner key base value b (err _) r a m = elim r [ ]

  -- In a valid scope, where `Get` answers or finds no entry, a write at the key does not fail and
  -- the new entry can be encoded, `CompareAndSwap` succeeds exactly when its base is the version
  -- that a reader sees, an absent key counting as 0, and is a conflict otherwise.
  pub swap_exact :
      (d : S.Db) (now : ℕ) (scope owner key : Bytes) (base : ℕ) (value b : Bytes)
      → let e = make_entry scope owner key value (bump base) now in
        valid scope ≡ true
        → IsAnswer (get S J d scope owner key)
        → S.Accepts d namespace (entry_key scope owner key)
        → J.marshal e ≡ some b
        → (compare_and_swap S J d now scope owner key base value).0
          ≡ (if current (get S J d scope owner key) == base then ok e else err conflict)
  unfolding compare_and_swap
  swap_exact d now scope owner key base value b v r a m =
      rw v (swap_over_exact d now scope owner key base value b (get S J d scope owner key) r a m)
