-- ===== src/Scope/Usage/Live.antt =====
-- The map of live rows of pkg/scope/usage_aggregator.go: what it holds at a key after `Tick` and after `Flush`.
use soyaos.Prelude.{
  ◌≡◌, refl, ◌∙◌, ap, ◌⊎◌, inl, inr, true, false, [], ◌∷◌, Option, none, some, Bytes, bytes_eq,
  bytes_eq_iff, bytes_lt, All, In, Bool-cases, if◌then◌else◌,
}
use soyaos.Prelude.Dict.{HasDistinctKeys, lookup_key, lookup_key-fresh}
use soyaos.Scope.Usage.{Outside, Payload, Live, lookup_key, kept, closed}

module _ (O : Outside) where
  -- What a closed minute leaves of a row
  abbrev pub open_row : Bytes → Option (Payload O) → Option (Payload O)
  open_row w none = none
  open_row w (some p) = if bytes_lt p.window w then none else some p

  pub All-kept {ℓ κ} :
      (P : Bytes × Payload O → Type ℓ) (Q : Bytes × Payload O → Type κ) (w : Bytes) (live : Live O)
      → ((k : Bytes) (p : Payload O) → bytes_lt p.window w ≡ false → P (k, p) → Q (k, p))
      → All P live
      → All Q (kept O w live)
  unfolding kept
  All-kept P Q w [] f h = tt
  All-kept P Q w ((k, p) ∷ live) f h = elim (Bool-cases (bytes_lt p.window w)) [
    | inl e ↦ rw e (All-kept P Q w live f h.1)
    | inr e ↦ rw e (f k p e h.0, All-kept P Q w live f h.1)
  ]

  pub kept-HasDistinctKeys :
      (w : Bytes) (live : Live O) → HasDistinctKeys live → HasDistinctKeys (kept O w live)
  unfolding kept
  kept-HasDistinctKeys w [] h = tt
  kept-HasDistinctKeys w ((k, p) ∷ live) h = elim (Bool-cases (bytes_lt p.window w)) [
    | inl e ↦ rw e (kept-HasDistinctKeys w live h.1)
    | inr e ↦ rw e (
      All-kept (λ r. bytes_eq r.0 k ≡ false) (λ r. bytes_eq r.0 k ≡ false) w live (λ k' p' _ h'. h')
          h.0,
      kept-HasDistinctKeys w live h.1,
    )
  ]

  pub find-kept :
      (k w : Bytes) (live : Live O)
      → HasDistinctKeys live
      → lookup_key k (kept O w live) ≡ open_row w (lookup_key k live)
  unfolding lookup_key kept
  find-kept k w [] h = refl
  find-kept k w ((j, p) ∷ live) h = elim (Bool-cases (bytes_eq j k)) [
    | inl e ↦
        let same : j ≡ k = (bytes_eq_iff j k).0 e in
        let gone : lookup_key k live ≡ none = lookup_key-fresh k live (rw (← same) h.0) in
        elim (Bool-cases (bytes_lt p.window w)) [
          | inl c ↦ rw c (rw e (rw c (find-kept k w live h.1 ∙ ap (open_row w) gone)))
          | inr c ↦ rw c (rw e (rw c refl))
        ]
    | inr e ↦ elim (Bool-cases (bytes_lt p.window w)) [
      | inl c ↦ rw c (rw e (find-kept k w live h.1))
      | inr c ↦ rw c (rw e (find-kept k w live h.1))
    ]
  ]

  -- A row that is taken out was in the map, and its minute is closed.
  pub In-closed :
      (w : Bytes) (p : Payload O) (live : Live O)
      → In p (closed O w live)
      → (k : Bytes) × In {A = Bytes × Payload O} (k, p) live × (bytes_lt p.window w ≡ true)
  unfolding closed
  In-closed w p [] h = absurd h
  In-closed w p ((j, q) ∷ live) h = elim (Bool-cases (bytes_lt q.window w)) [
    | inl c ↦ elim (taken (rw c at h)) [
      | inl e ↦ (j, inl (cc), rw e c)
      | inr m ↦ later (In-closed w p live m)
    ]
    | inr c ↦ later (In-closed w p live (rw c at h))
  ]
    where
      taken : (p ≡ q) ⊎ In p (closed O w live) → (p ≡ q) ⊎ In p (closed O w live)
      taken x = x

      later :
          (k : Bytes) × In {A = Bytes × Payload O} (k, p) live × (bytes_lt p.window w ≡ true)
          → (k : Bytes) × In {A = Bytes × Payload O} (k, p) ((j, q) ∷ live)
            × (bytes_lt p.window w ≡ true)
      later (k, m, c) = (k, inr m, c)

  pub closed_of_In :
      (w k : Bytes) (p : Payload O) (live : Live O)
      → In {A = Bytes × Payload O} (k, p) live
      → bytes_lt p.window w ≡ true
      → In p (closed O w live)
  unfolding closed
  closed_of_In w k p [] m c = absurd m
  closed_of_In w k p ((j, q) ∷ live) (inl e) c =
      let same : p ≡ q = cc in
      let now : bytes_lt q.window w ≡ true = rw (← same) c in rw now (inl same)
  closed_of_In w k p ((j, q) ∷ live) (inr m) c = elim (Bool-cases (bytes_lt q.window w)) [
    | inl c' ↦ rw c' (inr (closed_of_In w k p live m c))
    | inr c' ↦ rw c' (closed_of_In w k p live m c)
  ]
