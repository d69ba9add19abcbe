-- ===== src/Store/Bolt/Scan.antt =====
-- The loop of `boltStore.List` of pkg/store/bolt.go, from the first key that is not before the prefix to the first without
-- it, goes through the pairs of the bucket with the prefix.
use soyaos.Prelude.{
  bytes_lt, ◌≡◌, refl, sym, ap, ◌∙◌, inl, inr, true, false, [], ◌∷◌, Bytes, bytes_eq, has_prefix,
  All, if◌then◌else◌, if_yes, if_no, arith, Bool-cases,
}
use soyaos.Store.Bolt.{Pairs, IsOrdered, seek, scan}

-- The pairs with a prefix
abbrev pub with_prefix : Bytes → Pairs → Pairs
with_prefix p [] = []
with_prefix p ((k, v) ∷ ps) =
    let rest = with_prefix p ps in if has_prefix k p then (k, v) ∷ rest else rest

-- A key before the prefix is without it.
prefix_before : (k p : Bytes) → bytes_lt k p ≡ true → has_prefix k p ≡ false
prefix_before [] [] h = cc
prefix_before [] (y ∷ ys) h = refl
prefix_before (x ∷ xs) [] h = cc
prefix_before (x ∷ xs) (y ∷ ys) h = ground (arith, h, prefix_before xs ys)

-- Behind a key past the prefix, all are without it.
prefix_past :
    (k k' p : Bytes)
    → bytes_lt k p ≡ false
    → has_prefix k p ≡ false
    → bytes_lt k k' ≡ true
    → has_prefix k' p ≡ false
prefix_past k k' [] h n l = cc
prefix_past [] k' (y ∷ ys) h n l = cc
prefix_past (x ∷ xs) [] (y ∷ ys) h n l = refl
prefix_past (x ∷ xs) (z ∷ zs) (y ∷ ys) h n l = ground (arith, h, n, l, prefix_past xs zs ys)

bytes_lt_trans : (a b c : Bytes) → bytes_lt a b ≡ true → bytes_lt b c ≡ true → bytes_lt a c ≡ true
bytes_lt_trans [] [] c h k = cc
bytes_lt_trans [] (y ∷ ys) [] h k = cc
bytes_lt_trans [] (y ∷ ys) (z ∷ zs) h k = refl
bytes_lt_trans (x ∷ xs) [] c h k = cc
bytes_lt_trans (x ∷ xs) (y ∷ ys) [] h k = cc
bytes_lt_trans (x ∷ xs) (y ∷ ys) (z ∷ zs) h k = ground (arith, h, k, bytes_lt_trans xs ys zs)

pub bytes_lt_ne : (a b : Bytes) → bytes_lt a b ≡ true → bytes_eq a b ≡ false
bytes_lt_ne [] [] h = cc
bytes_lt_ne [] (y ∷ ys) h = refl
bytes_lt_ne (x ∷ xs) [] h = refl
bytes_lt_ne (x ∷ xs) (y ∷ ys) h = ground (arith, h, bytes_lt_ne xs ys)

abbrev After : Bytes → Pairs → Type 0
After k ps = All (λ (q : Bytes × Bytes). bytes_lt k q.0 ≡ true) ps

none_past :
    (k p : Bytes) (ps : Pairs)
    → bytes_lt k p ≡ false
    → has_prefix k p ≡ false
    → After k ps
    → with_prefix p ps ≡ []
none_past k p [] h n l = refl
none_past k p ((k', v) ∷ ps) h n (l, ls) =
    if_no _ _ _ (prefix_past k k' p h n l) ∙ none_past k p ps h n ls

-- Once no key is before the prefix, the loop stops where no more keys have it.
abbrev Past : Bytes → Pairs → Type 0
Past p ps = All (λ (q : Bytes × Bytes). bytes_lt q.0 p ≡ false) ps

scan-Past : (p : Bytes) (ps : Pairs) → IsOrdered ps → Past p ps → scan p ps ≡ with_prefix p ps
scan-Past p [] o past = refl
scan-Past p ((k, v) ∷ ps) (after, o) (here, past) = elim (Bool-cases (has_prefix k p)) [
  | inl with_it ↦
      if_yes _ _ _ with_it
      ∙ (ap (λ (r : Pairs). (k, v) ∷ r) (scan-Past p ps o past) ∙ sym (if_yes _ _ _ with_it))
  | inr without ↦
      if_no _ _ _ without ∙ (sym (none_past k p ps here without after) ∙ sym (if_no _ _ _ without))
]

not_before : (k k' p : Bytes) → bytes_lt k p ≡ false → bytes_lt k k' ≡ true → bytes_lt k' p ≡ false
not_before k k' p h l = elim (Bool-cases (bytes_lt k' p)) [
  | inl before ↦ cc (bytes_lt_trans k k' p l before, h)
  | inr past ↦ past
]

After-Past : (k p : Bytes) (ps : Pairs) → bytes_lt k p ≡ false → After k ps → Past p ps
After-Past k p [] h l = tt
After-Past k p ((k', v) ∷ ps) h (l, ls) = (not_before k k' p h l, After-Past k p ps h ls)

-- In byte order, the loop from the place that the cursor seeks goes through the pairs with the prefix, each of them and no
-- other.
pub scan-seek : (p : Bytes) (ps : Pairs) → IsOrdered ps → scan p (seek p ps) ≡ with_prefix p ps
scan-seek p [] o = refl
scan-seek p ((k, v) ∷ ps) (after, o) = elim (Bool-cases (bytes_lt k p)) [
  | inl before ↦
      ap (scan p) (if_yes _ _ _ before)
      ∙ (scan-seek p ps o ∙ sym (if_no _ _ _ (prefix_before k p before)))
  | inr past ↦
      ap (scan p) (if_no _ _ _ past)
      ∙ scan-Past p ((k, v) ∷ ps) (after, o) (past, After-Past k p ps past after)
]
