-- ===== src/State/Isolation.antt =====
-- Calls of pkg/state/state.go on other places, and calls that fail.
use soyaos.Prelude.{◌∙◌, ◌≡◌, ◌≢◌, ap, true, false, none, Bytes, err, arith, bytes_eq_refl, is_ok}
use soyaos.Store.{Store}
use soyaos.State.{
  Codec, key_not_found, valid, namespace, entry_key, get, delete, deleted, Call, delete_call,
  target, perform,
}
use soyaos.State.Cells.{entry_key_ne, interpret, read-eq-interpret, find-perform}
use soyaos.State.Keeps.{reads-perform}

module _ (S : Store) (J : Codec) where
  get_of_find :
      (d d' : S.Db) (scope owner key : Bytes)
      → S.Reads d
      → S.Reads d'
      → S.find d' namespace (entry_key scope owner key)
        ≡ S.find d namespace (entry_key scope owner key)
      → get S J d' scope owner key ≡ get S J d scope owner key
  unfolding get
  get_of_find d d' scope owner key h h' e =
      cc (e, read-eq-interpret S J d scope owner key h, read-eq-interpret S J d' scope owner key h')

  -- A call leaves the entries of every other scope, owner or key as they were, whatever bytes
  -- these strings hold, where reads do not fail.
  pub get-perform_ne :
      (d : S.Db) (c : Call) (scope owner key : Bytes)
      → S.Reads d
      → target c ≢ (scope, owner, key)
      → get S J (perform S J d c).1 scope owner key ≡ get S J d scope owner key
  get-perform_ne d c scope owner key h ne =
      get_of_find d (perform S J d c).1 scope owner key h (reads-perform S J d c h) (
        find-perform S J d c namespace (entry_key scope owner key)
          (ground (arith, entry_key_ne (target c).0 (target c).1 (target c).2 scope owner key ne)))

  -- A call that fails, by a conflict or by any other error, leaves every entry as it was, where
  -- reads do not fail.
  pub get-perform_err :
      (d : S.Db) (c : Call) (scope owner key : Bytes)
      → S.Reads d
      → (perform S J d c).0 ≡ false
      → get S J (perform S J d c).1 scope owner key ≡ get S J d scope owner key
  get-perform_err d c scope owner key h failed =
      get_of_find d (perform S J d c).1 scope owner key h (reads-perform S J d c h)
        (find-perform S J d c namespace (entry_key scope owner key) (rw failed))

  get-eq-interpret :
      (d : S.Db) (scope owner key : Bytes)
      → S.Reads d
      → valid scope ≡ true
      → get S J d scope owner key ≡ interpret J (S.find d namespace (entry_key scope owner key))
  unfolding get
  get-eq-interpret d scope owner key h v = rw v (read-eq-interpret S J d scope owner key h)

  find-delete_self :
      (d : S.Db) (scope owner key : Bytes)
      → valid scope ≡ true
      → is_ok (delete S J d scope owner key).0 ≡ true
      → S.find (delete S J d scope owner key).1 namespace (entry_key scope owner key) ≡ none
  unfolding delete deleted
  find-delete_self d scope owner key v gone =
      let k = entry_key scope owner key in
      ground (arith, S.find-delete d namespace k namespace k, bytes_eq_refl k)

  -- After a `Delete` that succeeds the key is not found.
  pub get-delete :
      (d : S.Db) (scope owner key : Bytes)
      → S.Reads d
      → valid scope ≡ true
      → is_ok (delete S J d scope owner key).0 ≡ true
      → get S J (delete S J d scope owner key).1 scope owner key ≡ err key_not_found
  unfolding perform interpret
  get-delete d scope owner key h v gone =
      get-eq-interpret (delete S J d scope owner key).1 scope owner key
        (reads-perform S J d (delete_call scope owner key) h) v
      ∙ ap (interpret J) (find-delete_self d scope owner key v gone)
