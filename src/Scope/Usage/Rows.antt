-- ===== src/Scope/Usage/Rows.antt =====
-- `Query` of pkg/scope/usage_aggregator.go: the rows that it returns are those of the map and of the store that match.
use soyaos.Prelude.{
  ◌≡◌, refl, sym, ◌∙◌, ap, ◌⊎◌, ◌↔◌, inl, inr, true, List, [], ◌∷◌, ◌++◌, Option, none, some, Bytes,
  In, Bool-cases,
}
use soyaos.Scope.Usage.{
  Outside, Payload, Live, UsageQuery, row_lt, insert_row, sort_rows, matches_query, live_rows,
  keep_row, stored_rows,
}

module _ {A : Type 0} where
  pub In-append : (p : A) (xs ys : List A) → In p (xs ++ ys) ↔ (In p xs ⊎ In p ys)
  In-append p [] ys = (inr, λ h. elim h [ inl m ↦ absurd m | inr m ↦ m ])
  In-append p (x ∷ xs) ys = (
    λ h. elim h [
      | inl e ↦ inl (inl e)
      | inr m ↦ elim ((In-append p xs ys).0 m) [ inl m' ↦ inl (inr m') | inr m' ↦ inr m' ]
    ],
    λ h. elim h [
      | inl m ↦ elim m [ inl e ↦ inl e | inr m' ↦ inr ((In-append p xs ys).1 (inl m')) ]
      | inr m ↦ inr ((In-append p xs ys).1 (inr m))
    ],
  )

module _ (O : Outside) where
  In-insert_row :
      (p q : Payload O) (rows : List (Payload O)) → In p (insert_row O q rows) ↔ In p (q ∷ rows)
  unfolding insert_row
  In-insert_row p q [] = (λ h. h, λ h. h)
  In-insert_row p q (r ∷ rows) = elim (Bool-cases (row_lt O r q)) [
    | inl e ↦ rw e (
      λ h. elim h [
        | inl c ↦ inr (inl c)
        | inr m ↦ elim ((In-insert_row p q rows).0 m) [ inl c ↦ inl c | inr m' ↦ inr (inr m') ]
      ],
      λ h. elim h [
        | inl c ↦ inr ((In-insert_row p q rows).1 (inl c))
        | inr m ↦ elim m [ inl c ↦ inl c | inr m' ↦ inr ((In-insert_row p q rows).1 (inr m')) ]
      ],
    )
    | inr e ↦ rw e (λ h. h, λ h. h)
  ]

  -- Sorting keeps the rows.
  pub In-sort_rows : (p : Payload O) (rows : List (Payload O)) → In p (sort_rows O rows) ↔ In p rows
  unfolding sort_rows
  In-sort_rows p [] = (λ h. h, λ h. h)
  In-sort_rows p (q ∷ rows) = (
    λ h. elim ((In-insert_row p q (sort_rows O rows)).0 h) [
      | inl c ↦ inl c
      | inr m ↦ inr ((In-sort_rows p rows).0 m)
    ],
    λ h.
        (In-insert_row p q (sort_rows O rows)).1
          (elim h [ inl c ↦ inl c | inr m ↦ inr ((In-sort_rows p rows).1 m) ]),
  )

  pub live_rows_sound :
      (q : UsageQuery) (p : Payload O) (live : Live O)
      → In p (live_rows O q live)
      → (k : Bytes) × In {A = Bytes × Payload O} (k, p) live × (matches_query O p q ≡ true)
  unfolding live_rows
  live_rows_sound q p [] h = absurd h
  live_rows_sound q p ((k, r) ∷ live) h = elim (Bool-cases (matches_query O r q)) [
    | inl e ↦ at_head e (λ m. live_rows_sound q p live m) (rw e at h)
    | inr e ↦ beyond (live_rows_sound q p live (rw e at h))
  ]
    where
      beyond :
          (k' : Bytes) × In {A = Bytes × Payload O} (k', p) live × (matches_query O p q ≡ true)
          → (k' : Bytes) × In {A = Bytes × Payload O} (k', p) ((k, r) ∷ live)
            × (matches_query O p q ≡ true)
      beyond (k', m, c) = (k', inr m, c)

      at_head :
          matches_query O r q ≡ true
          → (In p (live_rows O q live)
              → (k' : Bytes) × In {A = Bytes × Payload O} (k', p) live
                × (matches_query O p q ≡ true))
          → In p (r ∷ live_rows O q live)
          → (k' : Bytes) × In {A = Bytes × Payload O} (k', p) ((k, r) ∷ live)
            × (matches_query O p q ≡ true)
      at_head e ih (inl c) = (k, inl (ap (λ x. (k, x)) c), rw c e)
      at_head e ih (inr m) = beyond (ih m)

  pub live_rows_complete :
      (q : UsageQuery) (p : Payload O) (k : Bytes) (live : Live O)
      → In {A = Bytes × Payload O} (k, p) live
      → matches_query O p q ≡ true
      → In p (live_rows O q live)
  unfolding live_rows
  live_rows_complete q p k [] m c = absurd m
  live_rows_complete q p k ((j, r) ∷ live) (inl e) c =
      let same : p ≡ r = ap (λ (x : Bytes × Payload O). x.1) e in
      let here : matches_query O r q ≡ true = rw (← same) c in rw here (inl same)
  live_rows_complete q p k ((j, r) ∷ live) (inr m) c = elim (Bool-cases (matches_query O r q)) [
    | inl e ↦ rw e (inr (live_rows_complete q p k live m c))
    | inr e ↦ rw e (live_rows_complete q p k live m c)
  ]

  -- A pair of the store of which `Query` makes the row
  abbrev pub IsFrom : UsageQuery → Payload O → List (Bytes × Bytes) → Type 0
  IsFrom q p pairs =
      (k : Bytes) × (raw : Bytes) × In {A = Bytes × Bytes} (k, raw) pairs
      × (O.unmarshal raw ≡ some p)
      × (matches_query O p q ≡ true)

  IsFrom-later :
      (q : UsageQuery) (p : Payload O) (kv : Bytes × Bytes) (pairs : List (Bytes × Bytes))
      → IsFrom q p pairs
      → IsFrom q p (kv ∷ pairs)
  IsFrom-later q p kv pairs (k, raw, m, e, c) = (k, raw, inr m, e, c)

  kept_sound :
      (q : UsageQuery) (p : Payload O) (k v : Bytes) (pairs : List (Bytes × Bytes))
      (o : Option (Payload O)) (rest : List (Payload O))
      → O.unmarshal v ≡ o
      → (In p rest → IsFrom q p pairs)
      → In p (keep_row O q o rest)
      → IsFrom q p ((k, v) ∷ pairs)
  unfolding keep_row
  kept_sound q p k v pairs none rest e ih h = IsFrom-later q p (k, v) pairs (ih h)
  kept_sound q p k v pairs (some r) rest e ih h = elim (Bool-cases (matches_query O r q)) [
    | inl c ↦ at_head c (rw c at h)
    | inr c ↦ IsFrom-later q p (k, v) pairs (ih (rw c at h))
  ]
    where
      at_head : matches_query O r q ≡ true → In p (r ∷ rest) → IsFrom q p ((k, v) ∷ pairs)
      at_head c (inl same) = (k, v, inl refl, e ∙ ap some (sym same), rw same c)
      at_head c (inr m) = IsFrom-later q p (k, v) pairs (ih m)

  pub stored_rows_sound :
      (q : UsageQuery) (p : Payload O) (pairs : List (Bytes × Bytes))
      → In p (stored_rows O q pairs)
      → IsFrom q p pairs
  unfolding stored_rows
  stored_rows_sound q p [] h = absurd h
  stored_rows_sound q p ((k, v) ∷ pairs) h =
      kept_sound q p k v pairs (O.unmarshal v) (stored_rows O q pairs) refl
        (λ m. stored_rows_sound q p pairs m) h

  kept_more :
      (q : UsageQuery) (p : Payload O) (o : Option (Payload O)) (rest : List (Payload O))
      → In p rest
      → In p (keep_row O q o rest)
  unfolding keep_row
  kept_more q p none rest m = m
  kept_more q p (some r) rest m = elim (Bool-cases (matches_query O r q)) [
    | inl c ↦ rw c (inr m)
    | inr c ↦ rw c m
  ]

  kept_here :
      (q : UsageQuery) (p : Payload O) (rest : List (Payload O))
      → matches_query O p q ≡ true
      → In p (keep_row O q (some p) rest)
  unfolding keep_row
  kept_here q p rest c = rw c (inl refl)

  pub stored_rows_complete :
      (q : UsageQuery) (p : Payload O) (k raw : Bytes) (pairs : List (Bytes × Bytes))
      → In {A = Bytes × Bytes} (k, raw) pairs
      → O.unmarshal raw ≡ some p
      → matches_query O p q ≡ true
      → In p (stored_rows O q pairs)
  unfolding stored_rows
  stored_rows_complete q p k raw [] m e c = absurd m
  stored_rows_complete q p k raw ((j, v) ∷ pairs) (inl same) e c =
      let text : O.unmarshal v ≡ some p =
        ap (λ (x : Bytes × Bytes). O.unmarshal x.1) (sym same) ∙ e in
      rw text (kept_here q p (stored_rows O q pairs) c)
  stored_rows_complete q p k raw ((j, v) ∷ pairs) (inr m) e c =
      kept_more q p (O.unmarshal v) (stored_rows O q pairs)
        (stored_rows_complete q p k raw pairs m e c)
