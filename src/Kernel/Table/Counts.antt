-- ===== src/Kernel/Table/Counts.antt =====
-- What `interleaveIndexedPartitions` of pkg/kernel/indexed_table.go keeps: each row as often as it was there.
use soyaos.Prelude.{
  ℕ, zero, suc, ◌+◌, ◌≤◌, ◌≡◌, refl, sym, ap, ◌∙◌, inl, inr, Bool, true, false, not, ◌&&◌, List, [],
  ◌∷◌, ◌++◌, Option, none, some, Bytes, bytes_eq, bytes_eq_iff, bytes_eq_refl, Result, ok, err,
  bind-ok, ok-injective, if_yes, if_no, if◌then◌else◌, length, get_elem?, drop, All, arith,
  Bool-cases,
}
use soyaos.Soyapack.{Unicode, is_member}
use soyaos.Soyapack.IndexedTable.{Table, has_none, texts_valid}
use soyaos.Kernel.Table.{
  Row, TableError, cell, with_tag, tagged, bucket, others, buckets, push_row, round, next_round,
  rounds, interleaved, interleave_indexed_partitions,
}

abbrev pub one : Bool → ℕ
one true = 1
one false = 0

-- How many rows pass a test
abbrev pub count : (Row → Bool) → List Row → ℕ
count p [] = 0
count p (row ∷ rows) = one (p row) + count p rows

pub count-append :
    (p : Row → Bool) (xs ys : List Row) → count p (xs ++ ys) ≡ count p xs + count p ys
count-append p [] ys = omega arith
count-append p (x ∷ xs) ys = omega (arith, count-append p xs ys)

-- No text twice
abbrev pub distinct : List Bytes → Bool
distinct [] = true
distinct (v ∷ vs) = not (is_member v vs) && distinct vs

pub is_member_eq : (s t : Bytes) (vs : List Bytes) → s ≡ t → is_member s vs ≡ is_member t vs
is_member_eq s t vs e = ap (λ x. is_member x vs) e

texts_valid_unseen :
    (U : Unicode) (seen ts : List Bytes) (t : Bytes)
    → texts_valid U seen ts ≡ true
    → is_member t seen ≡ true
    → is_member t ts ≡ false
unfolding texts_valid
texts_valid_unseen U seen [] t h m = refl
texts_valid_unseen U seen (u ∷ us) t h m = elim (Bool-cases (bytes_eq u t)) [
  | inl same ↦
      let e : is_member u seen ≡ true = is_member_eq u t seen ((bytes_eq_iff u t).0 same) ∙ m in
      ground (arith, e)
  | inr apart ↦
      let rest : texts_valid U (u ∷ seen) us ≡ true = ground arith in
      ground (arith, texts_valid_unseen U (u ∷ seen) us t rest (ground arith))
]

pub texts_valid-distinct :
    (U : Unicode) (seen ts : List Bytes) → texts_valid U seen ts ≡ true → distinct ts ≡ true
unfolding texts_valid
texts_valid-distinct U seen [] h = refl
texts_valid-distinct U seen (u ∷ us) h =
    let rest : texts_valid U (u ∷ seen) us ≡ true = ground arith in
    ground (
      arith,
      texts_valid-distinct U (u ∷ seen) us rest,
      texts_valid_unseen U (u ∷ seen) us u rest (ground (arith, bytes_eq_refl u)),
    )

abbrev untag : List (Bytes × Row) → List Row
untag [] = []
untag ((v, row) ∷ rows) = row ∷ untag rows

pub with_tag-ok :
    (v : Result TableError Bytes) (row : Row) (rest : Result TableError (List (Bytes × Row)))
    (tags : List (Bytes × Row))
    → with_tag v row rest ≡ ok tags
    → (x : Bytes) × (r : List (Bytes × Row)) × (v ≡ ok x) × (rest ≡ ok r) × (tags ≡ (x, row) ∷ r)
with_tag-ok (ok v) row (ok rest) tags h = (v, rest, refl, refl, sym (ok-injective h))
with_tag-ok (ok v) row (err e) tags h = cc
with_tag-ok (err e) row rest tags h = cc

pub untag-tagged :
    (column : ℕ) (rows : List Row) (tags : List (Bytes × Row))
    → tagged column rows ≡ ok tags
    → untag tags ≡ rows
untag-tagged column [] tags h = ap untag (sym (ok-injective h))
untag-tagged column (row ∷ rows) tags h =
    let (x, r, _, e, k) = with_tag-ok (cell row column) row (tagged column rows) tags h in
    ap untag k ∙ ap (λ t. row ∷ t) (untag-tagged column rows r e)

module _ (p : Row → Bool) where
  -- The rows of all lists from an offset on
  abbrev total : ℕ → List (List Row) → ℕ
  total offset [] = 0
  total offset (b ∷ bs) = count p (drop offset b) + total offset bs

  drop_step :
      (b : List Row) (offset : ℕ)
      → count p (drop offset b)
        ≡ count p (push_row (get_elem? b offset) []) + count p (drop (suc offset) b)
  drop_step [] zero = refl
  drop_step [] (suc n) = refl
  drop_step (row ∷ b) zero = omega arith
  drop_step (row ∷ b) (suc n) = drop_step b n

  count-push_row :
      (o : Option Row) (rows : List Row)
      → count p (push_row o rows) ≡ count p (push_row o []) + count p rows
  count-push_row none rows = omega arith
  count-push_row (some row) rows = omega arith

  round_step :
      (offset : ℕ) (bs : List (List Row))
      → total offset bs ≡ count p (round offset bs) + total (suc offset) bs
  round_step offset [] = refl
  round_step offset (b ∷ bs) = omega (
    arith,
    drop_step b offset,
    round_step offset bs,
    count-push_row (get_elem? b offset) (round offset bs),
  )

  drop_end : (b : List Row) (offset : ℕ) → get_elem? b offset ≡ none → count p (drop offset b) ≡ 0
  drop_end [] zero h = refl
  drop_end [] (suc n) h = refl
  drop_end (row ∷ b) zero h = cc
  drop_end (row ∷ b) (suc n) h = drop_end b n h

  push_row_nil :
      (o : Option Row) (rows : List Row) → push_row o rows ≡ [] → (o ≡ none) × (rows ≡ [])
  push_row_nil none rows h = (refl, h)
  push_row_nil (some row) rows h = cc

  round_end : (offset : ℕ) (bs : List (List Row)) → round offset bs ≡ [] → total offset bs ≡ 0
  round_end offset [] h = refl
  round_end offset (b ∷ bs) h =
      let both = push_row_nil (get_elem? b offset) (round offset bs) h in
      omega (arith, drop_end b offset both.0, round_end offset bs both.1)

  drop_past : (b : List Row) (offset : ℕ) → length b ≤ offset → count p (drop offset b) ≡ 0
  drop_past [] zero h = refl
  drop_past [] (suc n) h = refl
  drop_past (row ∷ b) zero h = absurd (omega arith)
  drop_past (row ∷ b) (suc n) h = drop_past b n (omega arith)

  -- All lists end before a position.
  abbrev Fit : ℕ → List (List Row) → Type 0
  Fit n bs = All (λ (b : List Row). length b ≤ n) bs

  total_past : (offset : ℕ) (bs : List (List Row)) → Fit offset bs → total offset bs ≡ 0
  total_past offset [] h = refl
  total_past offset (b ∷ bs) (h, hs) = omega (arith, drop_past b offset h, total_past offset bs hs)

  Fit-le : (n m : ℕ) (bs : List (List Row)) → n ≤ m → Fit n bs → Fit m bs
  Fit-le n m [] h k = tt
  Fit-le n m (b ∷ bs) h (k, ks) = (omega arith, Fit-le n m bs h ks)

  -- The rounds go through every row, if they are not fewer than the rows of a list.
  count-rounds :
      (fuel offset : ℕ) (bs : List (List Row))
      → Fit (offset + fuel) bs
      → count p (rounds fuel offset bs) ≡ total offset bs
  count-rounds zero offset bs h =
      sym (total_past offset bs (Fit-le (offset + 0) offset bs (omega arith) h))
  count-rounds (suc fuel) offset bs h =
      let fits = Fit-le (offset + suc fuel) (suc offset + fuel) bs (omega arith) h in
      next_total (round offset bs) refl (count-rounds fuel (suc offset) bs fits)
    where
      next_total :
          (r : List Row)
          → round offset bs ≡ r
          → count p (rounds fuel (suc offset) bs) ≡ total (suc offset) bs
          → count p (next_round r (rounds fuel (suc offset) bs)) ≡ total offset bs
      next_total [] e ih = sym (round_end offset bs e)
      next_total (row ∷ rs) e ih = omega (
        arith,
        count-append p (row ∷ rs) (rounds fuel (suc offset) bs),
        round_step offset bs,
        ap (count p) e,
      )

  length-bucket_le : (v : Bytes) (rows : List (Bytes × Row)) → length (bucket v rows) ≤ length rows
  length-bucket_le v [] = omega arith
  length-bucket_le v ((u, row) ∷ rows) = ground (arith, length-bucket_le v rows)

  buckets-Fit :
      (vs : List Bytes) (rows : List (Bytes × Row)) → Fit (0 + suc (length rows)) (buckets vs rows)
  buckets-Fit [] rows = tt
  buckets-Fit (v ∷ vs) rows = (omega (arith, length-bucket_le v rows), buckets-Fit vs rows)

  -- A row adds to the bucket of its partition alone.
  total_row :
      (vs : List Bytes) (v : Bytes) (row : Row) (rows : List (Bytes × Row))
      → distinct vs ≡ true
      → total 0 (buckets vs ((v, row) ∷ rows))
        ≡ (if is_member v vs then one (p row) else 0) + total 0 (buckets vs rows)
  total_row [] v row rows h = omega arith
  total_row (u ∷ us) v row rows h = ground (
    arith,
    total_row us v row rows (ground arith),
    bytes_eq_iff v u,
    bytes_eq_iff u v,
    is_member_eq u v us,
  )

  total_nil : (vs : List Bytes) → total 0 (buckets vs []) ≡ 0
  total_nil [] = refl
  total_nil (v ∷ vs) = omega (arith, total_nil vs)

  count-partition :
      (vs : List Bytes) (rows : List (Bytes × Row))
      → distinct vs ≡ true
      → total 0 (buckets vs rows) + count p (others vs rows) ≡ count p (untag rows)
  count-partition vs [] h = omega (arith, total_nil vs)
  count-partition vs ((v, row) ∷ rows) h =
      ground (arith, total_row vs v row rows h, count-partition vs rows h)

  count-interleaved :
      (vs : List Bytes) (rows : List (Bytes × Row))
      → distinct vs ≡ true
      → count p (interleaved vs rows) ≡ count p (untag rows)
  count-interleaved vs rows h = omega (
    arith,
    count-append p (rounds (suc (length rows)) 0 (buckets vs rows)) (others vs rows),
    count-rounds (suc (length rows)) 0 (buckets vs rows) (buckets-Fit vs rows),
    count-partition vs rows h,
  )

-- Where the configuration names no partition twice, the rows come out as often as they went in.
pub count-interleave :
    (p : Row → Bool) (rows out : List Row) (c : Table)
    → distinct c.batch_values ≡ true
    → interleave_indexed_partitions rows c ≡ ok out
    → count p out ≡ count p rows
unfolding interleave_indexed_partitions
count-interleave p rows out c h e = elim (Bool-cases (has_none c.batch_values)) [
  | inl empty ↦
      let same : ◌≡◌ {A = Result TableError (List Row)} (ok rows) (ok out) =
        sym (if_yes _ _ _ empty) ∙ e in
      ap (count p) (sym (ok-injective same))
  | inr full ↦
      let (tags, t, k) =
        bind-ok (tagged c.batch_column rows) (λ tags. ok (interleaved c.batch_values tags)) out
          (sym (if_no _ _ _ full) ∙ e) in
      ap (count p) (sym (ok-injective k))
      ∙ (count-interleaved p c.batch_values tags h
          ∙ ap (count p) (untag-tagged c.batch_column rows tags t))
]
