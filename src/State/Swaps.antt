-- ===== src/State/Swaps.antt =====
-- What a `Get` returns after a `Put` or a `CompareAndSwap` of pkg/state/state.go.
use soyaos.Prelude.{
  ℕ, ◌≡◌, refl, ap, inl, inr, ◌∙◌, true, false, some, Bytes, Result, ok, err, arith, is_ok, ◌==◌,
  Bool-cases, bytes_eq_refl,
}
use soyaos.Store.{Store}
use soyaos.State.{
  Entry, Codec, StateError, conflict, key_not_found, valid, namespace, bump, entry_key, make_entry,
  get, write, put, put_over, compare_and_swap, swap_over,
}
use soyaos.State.Versions.{current}
use soyaos.State.Cells.{
  interpret, IsPlain, interpret-marshal, marshal_of_write, find-write, read-eq-interpret,
}
use soyaos.State.Keeps.{reads-write}

bump_ne : (n : ℕ) → (bump n == n) ≡ false
bump_ne n = ground arith

module _ (S : Store) (J : Codec) where
  get-write :
      (d : S.Db) (e : Entry)
      → S.Reads d
      → valid e.scope ≡ true
      → IsPlain J e.scope e.owner_id e.key
      → is_ok (write S J d e).0 ≡ true
      → get S J (write S J d e).1 e.scope e.owner_id e.key ≡ ok e
  unfolding get
  get-write d e h v plain w =
      let (b, m) = marshal_of_write S J d e w in
      let k = entry_key e.scope e.owner_id e.key in
      let cell : S.find (write S J d e).1 namespace k ≡ some b =
        ground (arith, find-write S J d e namespace k, bytes_eq_refl k) in
      rw v (
        read-eq-interpret S J (write S J d e).1 e.scope e.owner_id e.key (reads-write S J d e h)
        ∙ ap (interpret J) cell
        ∙ interpret-marshal J e b plain m)

  put_over_ok :
      (d : S.Db) (now : ℕ) (sc owner key value : Bytes) (r : Result StateError Entry)
      → is_ok (put_over S J d now sc owner key value r).0 ≡ true
      → put_over S J d now sc owner key value r
        ≡ write S J d (make_entry sc owner key value (bump (current r)) now)
  unfolding put_over
  put_over_ok d now sc owner key value (ok e) h = refl
  put_over_ok d now sc owner key value (err key_not_found) h = refl
  put_over_ok d now sc owner key value (err _) h = cc

  swap_over_ok :
      (d : S.Db) (now : ℕ) (sc owner key : Bytes) (base : ℕ) (value : Bytes)
      (r : Result StateError Entry)
      → is_ok (swap_over S J d now sc owner key base value r).0 ≡ true
      → (swap_over S J d now sc owner key base value r
          ≡ write S J d (make_entry sc owner key value (bump (current r)) now))
        × (current r ≡ base)
  unfolding swap_over
  swap_over_ok d now sc owner key base value (ok e) h = ground arith
  swap_over_ok d now sc owner key base value (err key_not_found) h = ground arith
  swap_over_ok d now sc owner key base value (err _) h = cc

  -- A `Put` that succeeds is what the next `Get` returns, with the version after the one before.
  pub get-put :
      (d : S.Db) (now : ℕ) (scope owner key value : Bytes)
      → S.Reads d
      → IsPlain J scope owner key
      → is_ok (put S J d now scope owner key value).0 ≡ true
      → get S J (put S J d now scope owner key value).1 scope owner key
        ≡ ok (make_entry scope owner key value (bump (current (get S J d scope owner key))) now)
  unfolding put
  get-put d now scope owner key value h plain w = elim (Bool-cases (valid scope)) [
    | inl v ↦
        let r = get S J d scope owner key in
        let e = make_entry scope owner key value (bump (current r)) now in
        let w' : is_ok (put_over S J d now scope owner key value r).0 ≡ true = ground arith in
        let q : put_over S J d now scope owner key value r ≡ write S J d e =
          put_over_ok d now scope owner key value r w' in
        let after : get S J (write S J d e).1 scope owner key ≡ ok e =
          get-write d e h v plain (rw (← q) w') in
        rw v (rw q after)
    | inr v ↦ ground arith
  ]

  -- A `CompareAndSwap` that succeeds is what the next `Get` returns, and the version before was
  -- its base, where reads do not fail and the JSON codec keeps the strings of the place.
  pub get-swap :
      (d : S.Db) (now : ℕ) (scope owner key : Bytes) (base : ℕ) (value : Bytes)
      → S.Reads d
      → IsPlain J scope owner key
      → is_ok (compare_and_swap S J d now scope owner key base value).0 ≡ true
      → (get S J (compare_and_swap S J d now scope owner key base value).1 scope owner key
          ≡ ok (make_entry scope owner key value (bump base) now))
        × (current (get S J d scope owner key) ≡ base)
  unfolding compare_and_swap
  get-swap d now scope owner key base value h plain w = elim (Bool-cases (valid scope)) [
    | inl v ↦
        let r = get S J d scope owner key in
        let e = make_entry scope owner key value (bump (current r)) now in
        let w' : is_ok (swap_over S J d now scope owner key base value r).0 ≡ true = ground arith in
        let (q, b) = swap_over_ok d now scope owner key base value r w' in
        let after : get S J (write S J d e).1 scope owner key ≡ ok e =
          get-write d e h v plain (rw (← q) w') in
        (rw v (cc (q, after, b)), b)
    | inr v ↦ ground arith
  ]

  swap_over_stale :
      (d : S.Db) (now : ℕ) (sc owner key : Bytes) (base : ℕ) (value : Bytes) (e : Entry)
      → (e.version == base) ≡ false
      → swap_over S J d now sc owner key base value (ok e) ≡ (err conflict, d)
  unfolding swap_over
  swap_over_stale d now sc owner key base value e h = rw h

  swap_stale :
      (d : S.Db) (now : ℕ) (sc owner key : Bytes) (base : ℕ) (value : Bytes) (e : Entry)
      → valid sc ≡ true
      → get S J d sc owner key ≡ ok e
      → (e.version == base) ≡ false
      → compare_and_swap S J d now sc owner key base value ≡ (err conflict, d)
  unfolding compare_and_swap
  swap_stale d now sc owner key base value e v g h =
      rw v (rw g (swap_over_stale d now sc owner key base value e h))

  valid_of_swap :
      (d : S.Db) (now : ℕ) (sc owner key : Bytes) (base : ℕ) (value : Bytes)
      → is_ok (compare_and_swap S J d now sc owner key base value).0 ≡ true
      → valid sc ≡ true
  unfolding compare_and_swap
  valid_of_swap d now sc owner key base value w = ground arith

  -- Of two callers that swap from the same version one after the other, the second meets a
  -- conflict and changes nothing, where reads do not fail and the JSON codec keeps the strings of
  -- the place.
  pub lost_update :
      (d : S.Db) (scope owner key : Bytes) (base now now' : ℕ) (value value' : Bytes)
      → S.Reads d
      → IsPlain J scope owner key
      → is_ok (compare_and_swap S J d now scope owner key base value).0 ≡ true
      → let d' = (compare_and_swap S J d now scope owner key base value).1 in
        compare_and_swap S J d' now' scope owner key base value' ≡ (err conflict, d')
  lost_update d scope owner key base now now' value value' h plain w =
      let d' = (compare_and_swap S J d now scope owner key base value).1 in
      let e = make_entry scope owner key value (bump base) now in
      let after : get S J d' scope owner key ≡ ok e =
        (get-swap d now scope owner key base value h plain w).0 in
      swap_stale d' now' scope owner key base value' e
        (valid_of_swap d now scope owner key base value w) after (bump_ne base)
