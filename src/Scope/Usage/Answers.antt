-- ===== src/Scope/Usage/Answers.antt =====
-- The rows that `Query` of pkg/scope/usage_aggregator.go answers, and those that the aggregator has.
use mathlib.Core.Option.{some-injective}
use soyaos.Prelude.{
  ℕ, ◌≡◌, refl, sym, ◌∙◌, ap, subst, inl, inr, true, List, [], ◌++◌, none, some, Bytes, Result, ok,
  err, In, Option-cases, ok-injective,
}
use soyaos.Store.{Store, StoreError}
use soyaos.Prelude.Dict.{In-lookup_key, lookup_key, lookup_key-In}
use soyaos.Scope.Usage.{
  Outside, Payload, Live, UsageQuery, namespace, payload_key, payload_row_key, matches_query,
  live_rows, stored_rows, sort_rows, queried, query,
}
use soyaos.Scope.Usage.Keys.{RowId, IsNamed, bucket_key_injective}
use soyaos.Scope.Usage.Sums.{id_of, IsSound, bind_option, row_at, not_stored, IsOpen-In}
use soyaos.Scope.Usage.Rows.{
  In-append, In-sort_rows, live_rows_sound, live_rows_complete, stored_rows_sound,
  stored_rows_complete,
}

module _ (O : Outside) (S : Store) where
  queried_of :
      (d : S.Db) (q : UsageQuery) (some_rows rows : List (Payload O))
      (r : Result StoreError (List (Bytes × Bytes)))
      → S.list d namespace [] ≡ r
      → queried O S some_rows q r ≡ ok rows
      → (pairs : List (Bytes × Bytes)) × (S.list d namespace [] ≡ ok pairs)
        × (rows ≡ sort_rows O (some_rows ++ stored_rows O q pairs))
  unfolding queried
  queried_of d q some_rows rows (ok pairs) e h = (pairs, e, sym (ok-injective h))
  queried_of d q some_rows rows (err x) e h = cc

  -- A row of the store is not in memory too.
  not_open :
      (last : ℕ) (live : Live O) (d : S.Db) (p : Payload O) (raw : Bytes)
      → IsSound O S last live d
      → IsNamed (id_of O p)
      → S.find d namespace (payload_row_key O p) ≡ some raw
      → lookup_key (payload_key O p) live ≡ none
  not_open last live d p raw v named e = elim (Option-cases (lookup_key (payload_key O p) live)) [
    | inl c ↦ c
    | inr (r, c) ↦
        let (t, row, le, own) =
          IsOpen-In O S last (payload_key O p) r live v.open_rows
            (In-lookup_key (payload_key O p) r live c) in
        let same : id_of O p ≡ id_of O r =
          bucket_key_injective (id_of O p) (id_of O r) named row.named own in
        let nothing : S.find d namespace (payload_row_key O p) ≡ none =
          not_stored O S last t d (id_of O p) v.last_in_time row.in_time le
            (ap (λ (j : RowId). j.3) same ∙ row.minute_of) v.closed_rows in
        cc
  ]

  -- What a sound aggregator has of a row is what a query finds of it.
  pub row_of_query :
      (last : ℕ) (live : Live O) (d : S.Db) (q : UsageQuery) (rows : List (Payload O))
      (p : Payload O)
      → IsSound O S last live d
      → query O S q (live, some d) ≡ ok rows
      → In p rows
      → IsNamed (id_of O p)
        × (row_at O S (id_of O p) live d ≡ some p)
        × (matches_query O p q ≡ true)
  unfolding query row_at
  row_of_query last live d q rows p v h m =
      let (pairs, e, same) =
        queried_of d q (live_rows O q live) rows (S.list d namespace []) refl h in
      let m' : In p (live_rows O q live ++ stored_rows O q pairs) =
        (In-sort_rows O p _).0 (subst (In p) same m) in
      elim ((In-append p (live_rows O q live) (stored_rows O q pairs)).0 m') [
        | inl n ↦
            let (k, n', c) = live_rows_sound O q p live n in
            let (t, row, le, own) = IsOpen-In O S last k p live v.open_rows n' in
            let at : lookup_key (payload_key O p) live ≡ some p =
              ap (λ j. lookup_key j live) (sym own) ∙ lookup_key-In k p live v.distinct n' in
            (row.named, rw at refl, c)
        | inr n ↦
            let (k, raw, n', text, c) = stored_rows_sound O q p pairs n in
            let found = (S.list_sound d namespace [] pairs k raw e n').0 in
            let (r, t, row, lt, own, text') = v.closed_rows k raw found in
            let it : r ≡ p = some-injective r p (sym text' ∙ text) in
            let named : IsNamed (id_of O p) = subst (λ x. IsNamed (id_of O x)) it row.named in
            let found' : S.find d namespace (payload_row_key O p) ≡ some raw =
              ap (S.find d namespace) (ap (payload_row_key O) (sym it) ∙ sym own) ∙ found in
            (named, rw (not_open last live d p raw v named found') (rw found' text), c)
      ]

  pub query_of_row :
      (last : ℕ) (live : Live O) (d : S.Db) (q : UsageQuery) (rows : List (Payload O))
      (p : Payload O)
      → IsSound O S last live d
      → query O S q (live, some d) ≡ ok rows
      → row_at O S (id_of O p) live d ≡ some p
      → matches_query O p q ≡ true
      → In p rows
  unfolding query row_at
  query_of_row last live d q rows p v h at c =
      let (pairs, e, same) =
        queried_of d q (live_rows O q live) rows (S.list d namespace []) refl h in
      subst (In p) (sym same) (
        (In-sort_rows O p _).1 (
          (In-append p (live_rows O q live) (stored_rows O q pairs)).1
            (elim (Option-cases (lookup_key (payload_key O p) live)) [
              | inr (r, f) ↦
                  let it : r ≡ p = some-injective r p (rw f at at) in
                  inl (
                    live_rows_complete O q p (payload_key O p) live
                      (In-lookup_key (payload_key O p) p live (f ∙ ap some it)) c)
              | inl f ↦ inr (in_store (rw f at at) pairs e)
            ])))
    where
      in_store :
          bind_option O (S.find d namespace (payload_row_key O p)) O.unmarshal ≡ some p
          → (pairs : List (Bytes × Bytes)) → S.list d namespace [] ≡ ok pairs
          → In p (stored_rows O q pairs)
      in_store at' pairs e = elim (Option-cases (S.find d namespace (payload_row_key O p))) [
        | inl g ↦ cc
        | inr (raw, g) ↦
            stored_rows_complete O q p (payload_row_key O p) raw pairs
              (S.list_complete d namespace [] pairs (payload_row_key O p) raw e g refl)
              (rw g at at') c
      ]
