-- ===== src/State/Keeps.antt =====
-- What the writes of a store keep, the calls of pkg/state/state.go keep.
use soyaos.Prelude.{ℕ, Option, none, some, Bytes, Result, ok, err, if_both, ◌==◌}
use soyaos.Store.{Store, StoreError}
use soyaos.State.{
  Entry, Codec, StateError, key_not_found, valid, namespace, entry_key, get, stored, put_encoded,
  write, put, put_over, compare_and_swap, swap_over, delete, deleted, Call, put_call, swap_call,
  delete_call, perform,
}

-- What the writes of the store keep, every call keeps.
module _ (S : Store) (J : Codec) (P : S.Db → Type 0)
    (put_keeps : (d : S.Db) (ns k v : Bytes) → P d → P (S.put d ns k v).1)
    (delete_keeps : (d : S.Db) (ns k : Bytes) → P d → P (S.delete d ns k).1) where
  stored_keeps :
      (e : Entry) (p : Result StoreError (Unit {0}) × S.Db) → P p.1 → P (stored S J e p).1
  unfolding stored
  stored_keeps e (ok _, d) h = h
  stored_keeps e (err _, d) h = h

  put_encoded_keeps : (d : S.Db) (e : Entry) (m : Option Bytes) → P d → P (put_encoded S J d e m).1
  unfolding put_encoded
  put_encoded_keeps d e none h = h
  put_encoded_keeps d e (some b) h =
      let k = entry_key e.scope e.owner_id e.key in
      stored_keeps e (S.put d namespace k b) (put_keeps d namespace k b h)

  write_keeps : (d : S.Db) (e : Entry) → P d → P (write S J d e).1
  unfolding write
  write_keeps d e h = put_encoded_keeps d e (J.marshal e) h

  put_over_keeps :
      (d : S.Db) (now : ℕ) (sc owner key value : Bytes) (r : Result StateError Entry)
      → P d
      → P (put_over S J d now sc owner key value r).1
  unfolding put_over
  put_over_keeps d now sc owner key value (ok e) h = write_keeps d _ h
  put_over_keeps d now sc owner key value (err key_not_found) h = write_keeps d _ h
  put_over_keeps d now sc owner key value (err _) h = h

  swap_over_keeps :
      (d : S.Db) (now : ℕ) (sc owner key : Bytes) (base : ℕ) (value : Bytes)
      (r : Result StateError Entry)
      → P d
      → P (swap_over S J d now sc owner key base value r).1
  unfolding swap_over
  swap_over_keeps d now sc owner key base value (ok e) h =
      if_both (λ (p : Result StateError Entry × S.Db). P p.1) (e.version == base)
        (write_keeps d _ h) h
  swap_over_keeps d now sc owner key base value (err key_not_found) h =
      if_both (λ (p : Result StateError Entry × S.Db). P p.1) (base == 0) (write_keeps d _ h) h
  swap_over_keeps d now sc owner key base value (err _) h = h

  deleted_keeps : (p : Result StoreError (Unit {0}) × S.Db) → P p.1 → P (deleted S J p).1
  unfolding deleted
  deleted_keeps (ok _, d) h = h
  deleted_keeps (err _, d) h = h

  perform_keeps : (d : S.Db) (c : Call) → P d → P (perform S J d c).1
  unfolding perform put compare_and_swap delete
  perform_keeps d (put_call now sc owner key value) h =
      if_both (λ (p : Result StateError Entry × S.Db). P p.1) (valid sc)
        (put_over_keeps d now sc owner key value (get S J d sc owner key) h) h
  perform_keeps d (swap_call now sc owner key base value) h =
      if_both (λ (p : Result StateError Entry × S.Db). P p.1) (valid sc)
        (swap_over_keeps d now sc owner key base value (get S J d sc owner key) h) h
  perform_keeps d (delete_call sc owner key) h =
      if_both (λ (p : Result StateError (Unit {0}) × S.Db). P p.1) (valid sc)
        (deleted_keeps (S.delete d namespace (entry_key sc owner key))
          (delete_keeps d namespace (entry_key sc owner key) h))
        h

module _ (S : Store) (J : Codec) where
  pub reads-write : (d : S.Db) (e : Entry) → S.Reads d → S.Reads (write S J d e).1
  reads-write = write_keeps S J S.Reads S.reads_put S.reads_delete

  pub reads-perform : (d : S.Db) (c : Call) → S.Reads d → S.Reads (perform S J d c).1
  reads-perform = perform_keeps S J S.Reads S.reads_put S.reads_delete

  pub accepts-perform :
      (d : S.Db) (c : Call) (ns k : Bytes) → S.Accepts d ns k → S.Accepts (perform S J d c).1 ns k
  accepts-perform d c ns k =
      perform_keeps S J (λ d. S.Accepts d ns k) (λ d n j v. S.accepts_put d n j v ns k)
        (λ d n j. S.accepts_delete d n j ns k) d c
