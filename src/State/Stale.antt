-- ===== src/State/Stale.antt =====
-- Versions across a `Delete` of pkg/state/state.go.
use soyaos.Prelude.{ℕ, ◌≡◌, ap, ◌∙◌, true, some, Bytes, ok, err, is_ok}
use soyaos.Store.{Store}
use soyaos.State.{
  Codec, key_not_found, valid, namespace, bump, entry_key, make_entry, get, put, compare_and_swap,
  delete, put_call, delete_call, perform,
}
use soyaos.State.Versions.{current, put_version, swap_exact}
use soyaos.State.Cells.{IsPlain}
use soyaos.State.Keeps.{reads-perform, accepts-perform}
use soyaos.State.Isolation.{get-delete}
use soyaos.State.Swaps.{get-put}

module _ (S : Store) (J : Codec) where
  -- After a `Delete` the versions begin again at 1: a caller that read version 1 before it swaps
  -- the entry written after it, and meets no conflict, in a valid scope, where the `Delete`
  -- succeeds, reads, and writes at the key, do not fail, both entries can be encoded and the JSON
  -- codec keeps the strings of the place.
  pub stale_swap :
      (d : S.Db) (scope owner key : Bytes) (now now' : ℕ) (value value' b b' : Bytes)
      → S.Reads d
      → S.Accepts d namespace (entry_key scope owner key)
      → IsPlain J scope owner key
      → valid scope ≡ true
      → is_ok (delete S J d scope owner key).0 ≡ true
      → J.marshal (make_entry scope owner key value 1 now) ≡ some b
      → J.marshal (make_entry scope owner key value' 2 now') ≡ some b'
      → let d' = (put S J (delete S J d scope owner key).1 now scope owner key value).1 in
        (compare_and_swap S J d' now' scope owner key 1 value').0
        ≡ ok (make_entry scope owner key value' 2 now')
  unfolding delete perform put
  stale_swap d scope owner key now now' value value' b b' h a plain v gone m m' =
      let d0 = (delete S J d scope owner key).1 in
      let e = make_entry scope owner key value 1 now in
      let k = entry_key scope owner key in
      let a0 : S.Accepts d0 namespace k =
        accepts-perform S J d (delete_call scope owner key) namespace k a in
      let absent : get S J d0 scope owner key ≡ err key_not_found =
        get-delete S J d scope owner key h v gone in
      let fresh : current (get S J d0 scope owner key) ≡ 0 = ap current absent in
      let m1 : J.marshal
            (make_entry scope owner key value (bump (current (get S J d0 scope owner key))) now)
          ≡ some b =
        rw fresh m in
      let wrote = put_version S J d0 now scope owner key value b v (rw absent tt) a0 m1 in
      let d' = (put S J d0 now scope owner key value).1 in
      let seen : get S J d' scope owner key ≡ ok e =
        get-put S J d0 now scope owner key value
          (reads-perform S J d (delete_call scope owner key) h) plain (rw wrote)
        ∙ rw fresh in
      swap_exact S J d' now' scope owner key 1 value' b' v (rw seen tt)
        (accepts-perform S J d0 (put_call now scope owner key value) namespace k a0) m'
      ∙ rw (ap current seen)
