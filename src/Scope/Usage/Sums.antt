-- ===== src/Scope/Usage/Sums.antt =====
-- What a run of `Tick` and `Flush` of pkg/scope/usage_aggregator.go leaves in the map and in the store: of each row, the
-- samples of its API key, agent, image and minute, added up in order.
use soyaos.Prelude.{
  ℕ, ◌-◌, ◌%◌, ◌≤◌, ◌<◌, ◌≡◌, refl, sym, ◌∙◌, ap, subst, ◌↔◌, inl, inr, true, false, [], ◌∷◌,
  Option, none, some, Bytes, bytes_eq, bytes_eq_iff, bytes_lt, ltb, All, In, arith, Bool-cases,
  Option-cases, if◌then◌else◌,
}
use soyaos.Store.{Store}
use soyaos.Prelude.Dict.{
  All-set_key, HasDistinctKeys, In-lookup_key, lookup_key, lookup_key-set_key,
  set_key-HasDistinctKeys,
}
use soyaos.Scope.Usage.{
  Outside, Payload, Sample, Live, HasNoBar, texts, time_end, minute, namespace, payload_key,
  payload_row_key, sample_key, window_of, new_payload, added, add_to, tick,
}
use soyaos.Scope.Usage.Keys.{
  RowId, IsNamed, id_key, id_row_key, bucket_key_injective, row_key_injective, same_id,
}

-- The minute of a time
abbrev pub floor : ℕ → ℕ
floor t = t - t % minute

module _ (O : Outside) where
  abbrev pub id_of : Payload O → RowId
  id_of p = (p.api_key_prefix, p.agent_slug, p.sandbox_image, p.window)

  abbrev pub sample_id : Sample O → RowId
  sample_id s = (s.api_key_prefix, s.agent_slug, s.sandbox_image, window_of O s.at)

  -- A sample of a time before the year 10000, whose API key and agent hold no bar, and whose names come back from JSON
  abbrev pub IsPlain : Sample O → Type 0
  IsPlain s =
      (s.at < time_end)
      × HasNoBar s.api_key_prefix
      × HasNoBar s.agent_slug
      × (O.text s.api_key_prefix ≡ s.api_key_prefix)
      × (O.text s.agent_slug ≡ s.agent_slug)
      × (O.text s.sandbox_image ≡ s.sandbox_image)
      × (O.text (window_of O s.at) ≡ window_of O s.at)

  window_no_bar : (t : ℕ) → t < time_end → HasNoBar (window_of O t)
  unfolding window_of
  window_no_bar t h = O.format_bar (floor t) (omega arith) (omega arith)

  pub window_order :
      (t u : ℕ)
      → t < time_end
      → u < time_end
      → bytes_lt (window_of O t) (window_of O u) ≡ ltb (floor t) (floor u)
  unfolding window_of
  window_order t u h k =
      O.format_order (floor t) (floor u) (omega arith) (omega arith) (omega arith) (omega arith)

  -- The names come back from JSON as they were.
  abbrev pub IsText : RowId → Type 0
  IsText (api, agent, image, w) =
      (O.text api ≡ api) × (O.text agent ≡ agent) × (O.text image ≡ image) × (O.text w ≡ w)

  -- What is known of every row: its names, and its minute
  pub record IsRow (i : RowId) (t : ℕ) : Type 0 where
    pub named : IsNamed i
    pub as_text : IsText i
    pub in_time : t < time_end
    pub minute_of : i.3 ≡ window_of O t

  pub texts_kept : (p : Payload O) → IsText (id_of p) → texts O.text p ≡ p
  texts_kept p h = λ j. record p {
    api_key_prefix = h.0 j;
    agent_slug = h.1 j;
    sandbox_image = h.2 j;
    window = h.3 j;
  }

  pub sample-IsRow : (s : Sample O) → IsPlain s → IsRow (sample_id s) s.at
  sample-IsRow s (early, api, agent, e1, e2, e3, e4) = record {
    named = (api, agent, window_no_bar s.at early);
    as_text = (e1, e2, e3, e4);
    in_time = early;
    minute_of = refl;
  }

  -- A row in memory is not of a minute before the last flush, and has its own key.
  abbrev pub IsOpen : ℕ → Bytes × Payload O → Type 0
  IsOpen last (k, p) = (t : ℕ) × IsRow (id_of p) t × (floor last ≤ t) × (k ≡ payload_key O p)

  abbrev pub bind_option : {A B : Type 0} → Option A → (A → Option B) → Option B
  bind_option none f = none
  bind_option (some a) f = f a

  abbrev pub first_of : Option (Payload O) → Option (Payload O) → Option (Payload O)
  first_of (some p) o = some p
  first_of none o = o

  -- The row of a sample has its names and its minute.
  add_to-id : (s : Sample O) (p : Payload O) → id_of (add_to O s (some p)) ≡ id_of p
  unfolding add_to added
  add_to-id s p = refl

  new-id : (s : Sample O) → id_of (add_to O s none) ≡ sample_id s
  unfolding add_to added new_payload
  new-id s = refl

  pub same_id_iff : (i j : RowId) → (same_id i j ≡ true) ↔ (i ≡ j)
  same_id_iff (a, b, c, w) (a', b', c', w') = (
    λ h. ground (arith, bytes_eq_iff a a', bytes_eq_iff b b', bytes_eq_iff c c', bytes_eq_iff w w'),
    λ e. ground (
      arith,
      ap (λ (i : RowId). i.0) e,
      ap (λ (i : RowId). i.1) e,
      ap (λ (i : RowId). i.2) e,
      ap (λ (i : RowId). i.3) e,
      bytes_eq_iff a a',
      bytes_eq_iff b b',
      bytes_eq_iff c c',
      bytes_eq_iff w w',
    ),
  )

  key_eq-same_id :
      (i j : RowId) → IsNamed i → IsNamed j → bytes_eq (id_key i) (id_key j) ≡ same_id i j
  key_eq-same_id i j h k = elim (Bool-cases (same_id i j)) [
    | inl e ↦ rw e ((bytes_eq_iff _ _).1 (ap id_key ((same_id_iff i j).0 e)))
    | inr e ↦ elim (Bool-cases (bytes_eq (id_key i) (id_key j))) [
      | inl c ↦
          absurd
            (cc ((same_id_iff i j).1 (bucket_key_injective i j h k ((bytes_eq_iff _ _).0 c)), e))
      | inr c ↦ c ∙ sym e
    ]
  ]

  module _ (S : Store) where
    -- A row in the store is of a minute before the last flush, and has its own key.
    abbrev pub IsClosed : ℕ → S.Db → Type 0
    IsClosed last d =
        (k raw : Bytes)
        → S.find d namespace k ≡ some raw
        → (p : Payload O) × (t : ℕ) × IsRow (id_of p) t
          × (t < floor last)
          × (k ≡ payload_row_key O p)
          × (O.unmarshal raw ≡ some p)

    pub record IsSound (last : ℕ) (live : Live O) (d : S.Db) : Type 0 where
      pub last_in_time : last < time_end
      pub open_rows : All (IsOpen last) live
      pub distinct : HasDistinctKeys live
      pub closed_rows : IsClosed last d

    -- The row that the aggregator has, in memory or in the store
    unfoldable pub row_at : RowId → Live O → S.Db → Option (Payload O)
    row_at i live d =
        first_of (lookup_key (id_key i) live)
          (bind_option (S.find d namespace (id_row_key i)) O.unmarshal)

    clash :
        (last u : ℕ) (i : RowId) {raw : Bytes}
        → last < time_end
        → u < time_end
        → floor last ≤ u
        → i.3 ≡ window_of O u
        → (p : Payload O) × (t : ℕ) × IsRow (id_of p) t
          × (t < floor last)
          × (id_row_key i ≡ payload_row_key O p)
          × (O.unmarshal raw ≡ some p)
        → ⊥
    clash last u i h k le e (p, t, row, lt, same, _) =
        let there : id_of p ≡ i = sym (row_key_injective i (id_of p) same) in
        let w : window_of O t ≡ window_of O u =
          sym row.minute_of ∙ ap (λ (j : RowId). j.3) there ∙ e in
        let before : ltb (floor t) (floor u) ≡ false =
          sym (window_order t u row.in_time k)
          ∙ (ap (λ x. bytes_lt x (window_of O u)) w ∙ (window_order u u k k ∙ (ground (arith)))) in
        ground (arith)

    first_of-none : (o : Option (Payload O)) → first_of o none ≡ o
    first_of-none none = refl
    first_of-none (some p) = refl

    -- A row of a minute after the last flush is not in the store.
    pub not_stored :
        (last u : ℕ) (d : S.Db) (i : RowId)
        → last < time_end
        → u < time_end
        → floor last ≤ u
        → i.3 ≡ window_of O u
        → IsClosed last d
        → S.find d namespace (id_row_key i) ≡ none
    not_stored last u d i h k le e stored =
        elim (Option-cases (S.find d namespace (id_row_key i))) [
          | inl c ↦ c
          | inr (raw, c) ↦ absurd (clash last u i h k le e (stored (id_row_key i) raw c))
        ]

    pub tick_row :
        (s : Sample O) (last : ℕ) (live : Live O) (d : S.Db) (i : RowId)
        → IsPlain s
        → IsSound last live d
        → floor last ≤ s.at
        → IsNamed i
        → row_at i (tick O s live) d ≡ (
            if same_id (sample_id s) i
            then some (add_to O s (row_at i live d))
            else row_at i live d)
    unfolding row_at tick
    tick_row s last live d i plain v le named =
        rw
          (lookup_key-set_key (id_key i) (sample_key O s)
            (add_to O s (lookup_key (sample_key O s) live)) live)
          (rw (key_eq-same_id (sample_id s) i (sample-IsRow s plain).named named)
            (elim (Bool-cases (same_id (sample_id s) i)) [
              | inl e ↦
                  let at : sample_id s ≡ i = (same_id_iff _ _).0 e in
                  let nothing : S.find d namespace (id_row_key i) ≡ none =
                    not_stored last s.at d i v.last_in_time plain.0 le
                      (sym (ap (λ (j : RowId). j.3) at)) v.closed_rows in
                  rw e (
                    rw nothing (
                      ap (λ o. some (add_to O s o))
                        (ap (λ (j : RowId). lookup_key (id_key j) live) at
                          ∙ sym (first_of-none _))))
              | inr e ↦ rw e refl
            ]))

    pub IsOpen-In :
        (last : ℕ) (k : Bytes) (p : Payload O) (live : Live O)
        → All (IsOpen last) live
        → In {A = Bytes × Payload O} (k, p) live
        → IsOpen last (k, p)
    IsOpen-In last k p [] h m = absurd m
    IsOpen-In last k p (q ∷ live) h (inl e) = subst (IsOpen last) (sym e) h.0
    IsOpen-In last k p (q ∷ live) h (inr m) = IsOpen-In last k p live h.1 m

    added-IsOpen :
        (s : Sample O) (last : ℕ) (live : Live O) (o : Option (Payload O))
        → IsPlain s
        → All (IsOpen last) live
        → floor last ≤ s.at
        → lookup_key (sample_key O s) live ≡ o
        → IsOpen last (sample_key O s, add_to O s o)
    unfolding add_to added new_payload
    added-IsOpen s last live none plain rows le e = (s.at, sample-IsRow s plain, le, refl)
    added-IsOpen s last live (some p) plain rows le e =
        IsOpen-In last (sample_key O s) p live rows (In-lookup_key (sample_key O s) p live e)

    pub tick-IsSound :
        (s : Sample O) (last : ℕ) (live : Live O) (d : S.Db)
        → IsPlain s
        → IsSound last live d
        → floor last ≤ s.at
        → IsSound last (tick O s live) d
    unfolding tick
    tick-IsSound s last live d plain v le =
        let k = sample_key O s in
        let p = add_to O s (lookup_key k live) in
        record {
          last_in_time = v.last_in_time;
          open_rows =
              All-set_key (IsOpen last) k p live
                (added-IsOpen s last live (lookup_key k live) plain v.open_rows le refl)
                v.open_rows;
          distinct = set_key-HasDistinctKeys k p live v.distinct;
          closed_rows = v.closed_rows;
        }
