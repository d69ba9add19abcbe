-- ===== src/Prelude/Dict.antt =====
-- Go maps with strings for keys, as association lists.
use mathlib.Core.Path.{◌≡◌, refl}
use mathlib.Core.Logic.{inl, inr}
use mathlib.Core.Bool.{false}
use mathlib.Core.Option.{Option, none, some}
use mathlib.Core.List.{List, [], ◌∷◌}
use native.Mathlib.Omega.{arith}
use soyaos.Prelude.Tests.{if◌then◌else◌, Bool-cases}
use soyaos.Prelude.Strings.{Bytes, bytes_eq, bytes_eq_iff}
use soyaos.Prelude.Lists.{All, In}

module _ {A : Type 0} where
  unfoldable pub lookup_key : Bytes → List (Bytes × A) → Option A
  lookup_key k [] = none
  lookup_key k ((j, p) ∷ live) = if bytes_eq j k then some p else lookup_key k live

  unfoldable pub set_key : Bytes → A → List (Bytes × A) → List (Bytes × A)
  set_key k p [] = (k, p) ∷ []
  set_key k p ((j, q) ∷ live) = if bytes_eq j k then (k, p) ∷ live else (j, q) ∷ set_key k p live

  -- No other entry has the key.
  abbrev pub IsFresh : Bytes → List (Bytes × A) → Type 0
  IsFresh k = All (λ q. bytes_eq q.0 k ≡ false)

  abbrev pub HasDistinctKeys : List (Bytes × A) → Type 0
  HasDistinctKeys [] = Unit
  HasDistinctKeys ((k, p) ∷ live) = IsFresh k live × HasDistinctKeys live

  pub lookup_key-set_key :
      (j k : Bytes) (p : A) (live : List (Bytes × A))
      → lookup_key j (set_key k p live) ≡ (if bytes_eq k j then some p else lookup_key j live)
  unfolding lookup_key set_key
  lookup_key-set_key j k p [] = refl
  lookup_key-set_key j k p ((i, q) ∷ live) =
      ground
        (arith, bytes_eq_iff i k, bytes_eq_iff i j, bytes_eq_iff k j, lookup_key-set_key j k p live)

  pub lookup_key-fresh :
      (k : Bytes) (live : List (Bytes × A)) → IsFresh k live → lookup_key k live ≡ none
  unfolding lookup_key
  lookup_key-fresh k [] h = refl
  lookup_key-fresh k ((j, p) ∷ live) h = ground (arith, lookup_key-fresh k live h.1)

  pub In-lookup_key :
      (k : Bytes) (p : A) (live : List (Bytes × A))
      → lookup_key k live ≡ some p
      → In {A = Bytes × A} (k, p) live
  unfolding lookup_key
  In-lookup_key k p [] h = cc
  In-lookup_key k p ((j, q) ∷ live) h = elim (Bool-cases (bytes_eq j k)) [
    | inl e ↦
        let same : j ≡ k = (bytes_eq_iff j k).0 e in
        let at : some q ≡ some p = rw e at h in inl (cc)
    | inr e ↦ inr (In-lookup_key k p live (rw e at h))
  ]

  fresh_of_In :
      (k j : Bytes) (p : A) (live : List (Bytes × A))
      → IsFresh k live
      → In {A = Bytes × A} (j, p) live
      → bytes_eq k j ≡ false
  fresh_of_In k j p [] h m = absurd m
  fresh_of_In k j p ((i, q) ∷ live) h (inl e) =
      let same : j ≡ i = cc in ground (arith, bytes_eq_iff i k, bytes_eq_iff k j)
  fresh_of_In k j p ((i, q) ∷ live) h (inr m) = fresh_of_In k j p live h.1 m

  pub lookup_key-In :
      (k : Bytes) (p : A) (live : List (Bytes × A))
      → HasDistinctKeys live
      → In {A = Bytes × A} (k, p) live
      → lookup_key k live ≡ some p
  unfolding lookup_key
  lookup_key-In k p [] h m = absurd m
  lookup_key-In k p ((j, q) ∷ live) h (inl e) =
      let same : k ≡ j = cc in let value : p ≡ q = cc in ground (arith, bytes_eq_iff j k)
  lookup_key-In k p ((j, q) ∷ live) h (inr m) =
      ground (arith, fresh_of_In j k p live h.0 m, lookup_key-In k p live h.1 m)

  pub All-set_key {ℓ} :
      (P : Bytes × A → Type ℓ) (k : Bytes) (p : A) (live : List (Bytes × A))
      → P (k, p)
      → All P live
      → All P (set_key k p live)
  unfolding set_key
  All-set_key P k p [] h hs = (h, tt)
  All-set_key P k p ((j, q) ∷ live) h hs = elim (Bool-cases (bytes_eq j k)) [
    | inl e ↦ rw e (h, hs.1)
    | inr e ↦ rw e (hs.0, All-set_key P k p live h hs.1)
  ]

  pub set_key-HasDistinctKeys :
      (k : Bytes) (p : A) (live : List (Bytes × A))
      → HasDistinctKeys live
      → HasDistinctKeys (set_key k p live)
  unfolding set_key
  set_key-HasDistinctKeys k p [] h = (tt, tt)
  set_key-HasDistinctKeys k p ((j, q) ∷ live) h = elim (Bool-cases (bytes_eq j k)) [
    | inl e ↦ let same : j ≡ k = (bytes_eq_iff j k).0 e in rw e (rw (← same) h.0, h.1)
    | inr e ↦ rw e (
      All-set_key (λ r. bytes_eq r.0 j ≡ false) k p live
          (ground (arith, bytes_eq_iff j k, bytes_eq_iff k j)) h.0,
      set_key-HasDistinctKeys k p live h.1,
    )
  ]
