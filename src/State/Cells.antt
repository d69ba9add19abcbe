-- ===== src/State/Cells.antt =====
-- What the writes of pkg/state/state.go do to the cells of the store below them.
use soyaos.Prelude.{
  ℕ, ◌≡◌, ◌≢◌, refl, inl, inr, true, false, Option, none, some, [], ◌∷◌, Bytes, Result, ok, err,
  arith, bytes_eq, bytes_eq_iff, Bool-cases, Option-cases, is_ok, ◌&&◌, if◌then◌else◌,
}
use soyaos.Store.{Store, same_cell}
use soyaos.Store.Key.{composite_key_injective}
use soyaos.State.{
  Entry, Codec, StateError, key_not_found, decode_entry, namespace, bump, entry_key, make_entry,
  get, read, decode, stored, put_encoded, write, put, put_over, compare_and_swap, swap_over, delete,
  deleted, Call, put_call, swap_call, delete_call, target, perform,
}

-- Different places have different keys, whatever bytes stand in the owner and in the key.
pub entry_key_ne :
    (scope owner key scope' owner' key' : Bytes)
    → ◌≢◌ {A = Bytes × Bytes × Bytes} (scope, owner, key) (scope', owner', key')
    → bytes_eq (entry_key scope owner key) (entry_key scope' owner' key') ≡ false
entry_key_ne scope owner key scope' owner' key' h =
    elim (Bool-cases (bytes_eq (entry_key scope owner key) (entry_key scope' owner' key'))) [
      | inl e ↦ absurd (
          h (
            cc (
              composite_key_injective (scope ∷ owner ∷ key ∷ []) (scope' ∷ owner' ∷ key' ∷ [])
                ((bytes_eq_iff _ _).0 e))))
      | inr e ↦ e
    ]

-- What a read makes of a cell.
unfoldable pub interpret : Codec → Option Bytes → Result StateError Entry
interpret J none = err key_not_found
interpret J (some b) = elim (J.unmarshal b) [ none ↦ err decode_entry | some e ↦ ok e ]

-- The three strings come back from JSON as they were.
abbrev pub IsPlain : Codec → Bytes → Bytes → Bytes → Type 0
IsPlain J scope owner key = (J.text scope ≡ scope) × (J.text owner ≡ owner) × (J.text key ≡ key)

pub interpret-marshal :
    (J : Codec) (e : Entry) (b : Bytes)
    → IsPlain J e.scope e.owner_id e.key
    → J.marshal e ≡ some b
    → interpret J (some b) ≡ ok e
unfolding interpret
interpret-marshal J e b plain m = ground (arith, J.unmarshal-marshal e b m)

module _ (S : Store) (J : Codec) where
  pub marshal_of_write :
      (d : S.Db) (e : Entry) → is_ok (write S J d e).0 ≡ true → (b : Bytes) × (J.marshal e ≡ some b)
  unfolding write put_encoded
  marshal_of_write d e h = ground arith

  pub find-write :
      (d : S.Db) (e : Entry) (ns k : Bytes)
      → S.find (write S J d e).1 ns k ≡ (
          if is_ok (write S J d e).0
            && same_cell namespace (entry_key e.scope e.owner_id e.key) ns k
          then J.marshal e
          else S.find d ns k)
  unfolding write put_encoded stored
  find-write d e ns k = elim (Option-cases (J.marshal e)) [
    | inl p ↦ ground (arith, p)
    | inr (b, p) ↦
        ground (arith, p, S.find-put d namespace (entry_key e.scope e.owner_id e.key) b ns k)
  ]

  pub read-eq-interpret :
      (d : S.Db) (scope owner key : Bytes)
      → S.Reads d
      → read S J d scope owner key ≡ interpret J (S.find d namespace (entry_key scope owner key))
  unfolding read interpret decode
  read-eq-interpret d scope owner key h =
      ground (arith, S.get_reads d namespace (entry_key scope owner key) h)

  find_put_over :
      (d : S.Db) (now : ℕ) (sc owner key value ns k : Bytes) (r : Result StateError Entry)
      → (is_ok (put_over S J d now sc owner key value r).0
          && same_cell namespace (entry_key sc owner key) ns k)
        ≡ false
      → S.find (put_over S J d now sc owner key value r).1 ns k ≡ S.find d ns k
  unfolding put_over
  find_put_over d now sc owner key value ns k (ok e) h =
      ground (arith, find-write d (make_entry sc owner key value (bump e.version) now) ns k)
  find_put_over d now sc owner key value ns k (err key_not_found) h =
      ground (arith, find-write d (make_entry sc owner key value 1 now) ns k)
  find_put_over d now sc owner key value ns k (err _) h = refl

  find_swap_over :
      (d : S.Db) (now : ℕ) (sc owner key : Bytes) (base : ℕ) (value ns k : Bytes)
      (r : Result StateError Entry)
      → (is_ok (swap_over S J d now sc owner key base value r).0
          && same_cell namespace (entry_key sc owner key) ns k)
        ≡ false
      → S.find (swap_over S J d now sc owner key base value r).1 ns k ≡ S.find d ns k
  unfolding swap_over
  find_swap_over d now sc owner key base value ns k (ok e) h =
      ground (arith, find-write d (make_entry sc owner key value (bump e.version) now) ns k)
  find_swap_over d now sc owner key base value ns k (err key_not_found) h =
      ground (arith, find-write d (make_entry sc owner key value 1 now) ns k)
  find_swap_over d now sc owner key base value ns k (err _) h = refl

  -- A call changes no cell but its own, and none if it fails.
  pub find-perform :
      (d : S.Db) (c : Call) (ns k : Bytes)
      → ((perform S J d c).0
          && same_cell namespace (entry_key (target c).0 (target c).1 (target c).2) ns k)
        ≡ false
      → S.find (perform S J d c).1 ns k ≡ S.find d ns k
  unfolding perform put compare_and_swap delete deleted
  find-perform d (put_call now sc owner key value) ns k h =
      ground (arith, find_put_over d now sc owner key value ns k (get S J d sc owner key))
  find-perform d (swap_call now sc owner key base value) ns k h =
      ground (arith, find_swap_over d now sc owner key base value ns k (get S J d sc owner key))
  find-perform d (delete_call sc owner key) ns k h =
      ground (arith, S.find-delete d namespace (entry_key sc owner key) ns k)
