-- ===== src/Scope/Usage/Written.antt =====
-- The second loop of `Flush` of pkg/scope/usage_aggregator.go: what the store holds after the rows are written.
use soyaos.Prelude.{
  ◌≡◌, refl, sym, ◌∙◌, ap, subst, ◌⊎◌, inl, inr, true, false, List, [], ◌∷◌, Option, none, some,
  Bytes, bytes_eq, bytes_eq_iff, Result, ok, err, In, arith, Bool-cases, Option-cases, is_ok,
  if◌then◌else◌,
}
use soyaos.Store.{Store, StoreError}
use soyaos.Scope.Usage.{
  Outside, Payload, namespace, payload_row_key, Wrote, put_answer, put_row, then_put, put_rows,
}

module _ (O : Outside) (S : Store) where
  -- What a cell holds once the rows are written over it
  unfoldable pub written : List (Payload O) → Bytes → Option Bytes → Option Bytes
  written [] k o = o
  written (p ∷ rows) k o =
      written rows k (if bytes_eq (payload_row_key O p) k then O.marshal p else o)

  put_answer_ok :
      (r : Result StoreError (Unit {0}) × S.Db)
      → (is_ok (put_answer O S r).0 ≡ is_ok r.0) × ((put_answer O S r).1 ≡ r.1)
  put_answer_ok (ok _, d) = (refl, refl)
  put_answer_ok (err _, d) = (refl, refl)

  find-put_row :
      (p : Payload O) (d : S.Db) (k : Bytes)
      → is_ok (put_row O S p d (O.marshal p)).0 ≡ true
      → S.find (put_row O S p d (O.marshal p)).1 namespace k
        ≡ (if bytes_eq (payload_row_key O p) k then O.marshal p else S.find d namespace k)
  unfolding put_row
  find-put_row p d k h = elim (Option-cases (O.marshal p)) [
    | inl e ↦ ground (arith, e)
    | inr (raw, e) ↦ ground (
      arith,
      e,
      (put_answer_ok (S.put d namespace (payload_row_key O p) raw)).0,
      (put_answer_ok (S.put d namespace (payload_row_key O p) raw)).1,
      S.find-put d namespace (payload_row_key O p) raw namespace k,
    )
  ]

  pub find-put_rows :
      (rows : List (Payload O)) (d : S.Db) (k : Bytes)
      → is_ok (put_rows O S rows d).0 ≡ true
      → S.find (put_rows O S rows d).1 namespace k ≡ written rows k (S.find d namespace k)
  unfolding put_rows written
  find-put_rows [] d k h = refl
  find-put_rows (p ∷ rows) d k h =
      go (λ d' h'. find-put_rows rows d' k h') (put_row O S p d (O.marshal p)) refl h
    where
      go :
          ((d' : S.Db)
            → is_ok (put_rows O S rows d').0 ≡ true
            → S.find (put_rows O S rows d').1 namespace k ≡ written rows k (S.find d' namespace k))
          → (w : Wrote O S) → put_row O S p d (O.marshal p) ≡ w
          → is_ok (then_put O S (put_rows O S rows) w).0 ≡ true
          → S.find (then_put O S (put_rows O S rows) w).1 namespace k
            ≡ written rows k
                (if bytes_eq (payload_row_key O p) k then O.marshal p else S.find d namespace k)
      go ih (ok u, d') e h' =
          ih d' h'
          ∙ ap (written rows k) (
              ap (λ (w : Wrote O S). S.find w.1 namespace k) (sym e)
              ∙ find-put_row p d k (ap (λ (w : Wrote O S). is_ok w.0) e))
      go ih (err x, d') e h' = cc

  -- A cell whose key is that of none of the rows
  pub written_other :
      (rows : List (Payload O)) (k : Bytes) (o : Option Bytes)
      → ((p : Payload O) → In p rows → bytes_eq (payload_row_key O p) k ≡ false)
      → written rows k o ≡ o
  unfolding written
  written_other [] k o h = refl
  written_other (p ∷ rows) k o h = rw (h p (inl refl)) (written_other rows k o (λ q m. h q (inr m)))

  -- A cell whose key is that of one row alone
  pub written_row :
      (rows : List (Payload O)) (p : Payload O) (o : Option Bytes)
      → ((q : Payload O) → In q rows → payload_row_key O q ≡ payload_row_key O p → q ≡ p)
      → (o ≡ O.marshal p) ⊎ In p rows
      → written rows (payload_row_key O p) o ≡ O.marshal p
  unfolding written
  written_row [] p o only (inl e) = e
  written_row [] p o only (inr m) = absurd m
  written_row (q ∷ rows) p o only h =
      elim (Bool-cases (bytes_eq (payload_row_key O q) (payload_row_key O p))) [
        | inl e ↦ rw e (
            written_row rows p (O.marshal q) (λ r m. only r (inr m))
              (inl (ap O.marshal (only q (inl refl) ((bytes_eq_iff _ _).0 e)))))
        | inr e ↦ rw e (written_row rows p o (λ r m. only r (inr m)) (still e h))
      ]
    where
      still :
          bytes_eq (payload_row_key O q) (payload_row_key O p) ≡ false
          → (o ≡ O.marshal p) ⊎ ((p ≡ q) ⊎ In p rows)
          → (o ≡ O.marshal p) ⊎ In p rows
      still e (inl c) = inl c
      still e (inr (inl c)) = absurd (
          cc (
            (bytes_eq_iff (payload_row_key O q) (payload_row_key O p)).1
              (ap (payload_row_key O) (sym c))))
      still e (inr (inr m)) = inr m

  -- What stands in a cell stood there before, or is the text of one of the rows.
  pub written_cases :
      (rows : List (Payload O)) (k : Bytes) (o : Option Bytes)
      → (written rows k o ≡ o)
        ⊎ ((p : Payload O) × In p rows
            × (payload_row_key O p ≡ k)
            × (written rows k o ≡ O.marshal p))
  unfolding written
  written_cases [] k o = inl refl
  written_cases (p ∷ rows) k o = elim (Bool-cases (bytes_eq (payload_row_key O p) k)) [
    | inl e ↦ elim (written_cases rows k (O.marshal p)) [
      | inl c ↦ inr (p, inl refl, (bytes_eq_iff _ _).0 e, rw e c)
      | inr (q, m, c, c') ↦ inr (q, inr m, c, rw e c')
    ]
    | inr e ↦ elim (written_cases rows k o) [
      | inl c ↦ inl (rw e c)
      | inr (q, m, c, c') ↦ inr (q, inr m, c, rw e c')
    ]
  ]

  -- Every row that is written could be encoded.
  pub put_rows-marshal :
      (rows : List (Payload O)) (d : S.Db) (p : Payload O)
      → is_ok (put_rows O S rows d).0 ≡ true
      → In p rows
      → (raw : Bytes) × (O.marshal p ≡ some raw)
  unfolding put_rows put_row
  put_rows-marshal [] d p h m = absurd m
  put_rows-marshal (q ∷ rows) d p h m =
      go (λ d' h' m'. put_rows-marshal rows d' p h' m') (O.marshal q) refl
        (put_row O S q d (O.marshal q)) refl h m
    where
      go :
          ((d' : S.Db)
            → is_ok (put_rows O S rows d').0 ≡ true
            → In p rows
            → (raw : Bytes) × (O.marshal p ≡ some raw))
          → (o : Option Bytes) → O.marshal q ≡ o
          → (w : Wrote O S) → put_row O S q d o ≡ w
          → is_ok (then_put O S (put_rows O S rows) w).0 ≡ true
          → (p ≡ q) ⊎ In p rows
          → (raw : Bytes) × (O.marshal p ≡ some raw)
      go ih none e w f h' m' =
          let bad : false ≡ true =
            subst (λ (x : Wrote O S). is_ok (then_put O S (put_rows O S rows) x).0 ≡ true) (sym f)
              h' in
          cc
      go ih (some raw) e w f h' (inl same) = (raw, ap O.marshal same ∙ e)
      go ih (some raw) e (ok u, d') f h' (inr m') = ih d' h' m'
      go ih (some raw) e (err x, d') f h' (inr m') = cc
