-- ===== src/Kernel/Table/Picks.antt =====
-- What `selectIndexedRows` of pkg/kernel/indexed_table.go returns: rows at different positions, as many as were asked for.
use soyaos.Prelude.{
  ℕ, zero, suc, ◌+◌, ◌≤◌, ◌<◌, ◌≡◌, refl, sym, ap, ◌∙◌, inl, inr, Bool, true, false, not, ◌||◌, leb,
  List, [], ◌∷◌, Option, none, some, Bytes, Result, ok, err, bind-ok, ok-injective, if_yes, if_no,
  if◌then◌else◌, ◌==◌, ==_iff, length, get_elem?, arith, Bool-cases,
}
use soyaos.Kernel.Table.{
  Row, TableError, bad_selection, strict_table_json, ℤ, pos, negsuc, seen_index, with_row, read_row,
  pick_row, pick_rows, select_indexed_rows,
}
use soyaos.Kernel.Table.Counts.{one, count}

seen_index_eq : (i j : ℕ) (seen : List ℕ) → i ≡ j → seen_index i seen ≡ seen_index j seen
seen_index_eq i j seen e = ap (λ k. seen_index k seen) e

module _ (p : Row → Bool) where
  -- The rows that pass the test, from a position on, at positions not seen
  abbrev remaining : List Row → List ℕ → ℕ → ℕ
  remaining [] seen k = 0
  remaining (row ∷ rows) seen k =
      (if seen_index k seen then 0 else one (p row)) + remaining rows seen (suc k)

  remaining_all : (rows : List Row) (k : ℕ) → remaining rows [] k ≡ count p rows
  remaining_all [] k = refl
  remaining_all (row ∷ rows) k = omega (arith, remaining_all rows (suc k))

  remaining_past :
      (rows : List Row) (seen : List ℕ) (i k : ℕ)
      → i < k
      → remaining rows (i ∷ seen) k ≡ remaining rows seen k
  remaining_past [] seen i k h = refl
  remaining_past (row ∷ rows) seen i k h =
      ground (arith, remaining_past rows seen i (suc k) (omega arith))

  remaining_pick :
      (rows : List Row) (seen : List ℕ) (i j k : ℕ) (row : Row)
      → i ≡ k + j
      → get_elem? rows j ≡ some row
      → seen_index i seen ≡ false
      → remaining rows seen k ≡ one (p row) + remaining rows (i ∷ seen) k
  remaining_pick [] seen i j k row e h u = cc
  remaining_pick (r ∷ rows) seen i zero k row e h u =
      let here : i ≡ k = omega arith in
      let same : r ≡ row = cc in
      ground (
        arith,
        remaining_past rows seen i (suc k) (omega arith),
        seen_index_eq i k seen here,
        ap p same,
        u,
      )
  remaining_pick (r ∷ rows) seen i (suc j) k row e h u =
      ground (arith, remaining_pick rows seen i j (suc k) row (omega arith) h u)

with_row-ok :
    (row : Row) (rest : Result TableError (List Row)) (out : List Row)
    → with_row row rest ≡ ok out
    → (r : List Row) × (rest ≡ ok r) × (row ∷ r ≡ out)
with_row-ok row (ok r) out h = (r, refl, ok-injective h)
with_row-ok row (err e) out h = cc

read_row-ok :
    (o : Option Row) (rest : Result TableError (List Row)) (out : List Row)
    → read_row o rest ≡ ok out
    → (row : Row) × (o ≡ some row) × (with_row row rest ≡ ok out)
read_row-ok none rest out h = cc
read_row-ok (some row) rest out h = (row, refl, h)

pick_row-ok :
    (rows : List Row) (seen : List ℕ) (i : ℕ) (rest : Result TableError (List Row)) (out : List Row)
    → pick_row rows seen i rest ≡ ok out
    → (row : Row) × (r : List Row) × (get_elem? rows i ≡ some row)
      × (seen_index i seen ≡ false)
      × (rest ≡ ok r)
      × (row ∷ r ≡ out)
pick_row-ok rows seen i rest out h = elim (Bool-cases (leb (length rows) i || seen_index i seen)) [
  | inl bad ↦ cc (
    h,
    if_yes (leb (length rows) i || seen_index i seen) (err bad_selection)
        (read_row (get_elem? rows i) rest) bad,
  )
  | inr good ↦
      let (row, at, k) = read_row-ok (get_elem? rows i) rest out (sym (if_no _ _ _ good) ∙ h) in
      let (r, e, l) = with_row-ok row rest out k in (row, r, at, ground (arith, good), e, l)
]

pick_rows-count :
    (p : Row → Bool) (rows : List Row) (seen : List ℕ) (is : List ℤ) (out : List Row)
    → pick_rows rows seen is ≡ ok out
    → (count p out ≤ remaining p rows seen 0) × (length out ≡ length is)
unfolding pick_rows
pick_rows-count p rows seen [] out h =
    let e : [] ≡ out = ok-injective h in
    (omega (arith, ap (count p) e), omega (arith, ap (λ x. length x) e))
pick_rows-count p rows seen (pos zero ∷ is) out h = cc
pick_rows-count p rows seen (pos (suc i) ∷ is) out h =
    let (row, r, e, new, k, l) = pick_row-ok rows seen i (pick_rows rows (i ∷ seen) is) out h in
    let (fewer, long) = pick_rows-count p rows (i ∷ seen) is r k in
    (
      omega (arith, remaining_pick p rows seen i i 0 row (omega arith) e new, ap (count p) l),
      omega (arith, ap (λ x. length x) l),
    )
pick_rows-count p rows seen (negsuc n ∷ is) out h = cc

-- A selection has as many rows as it must, each no more often than it was there.
pub select_indexed_rows-count :
    (decode : Bytes → Option (List ℤ × Bytes)) (is_end : Bytes → Bool) (content : Bytes)
    (rows : List Row) (target : ℕ) (out : List Row)
    → select_indexed_rows decode is_end content rows target ≡ ok out
    → ((p : Row → Bool) → count p out ≤ count p rows) × (length out ≡ target)
unfolding select_indexed_rows
select_indexed_rows-count decode is_end content rows target out h =
    let (is, j, k) =
      bind-ok (strict_table_json decode is_end content)
        (λ is. if not (length is == target) then err bad_selection else pick_rows rows [] is) out
        h in
    elim (Bool-cases (length is == target)) [
      | inl same ↦
          let picked : pick_rows rows [] is ≡ ok out = sym (if_no _ _ _ (ap not same)) ∙ k in
          (
            (λ p.
                omega (arith, (pick_rows-count p rows [] is out picked).0, remaining_all p rows 0)),
            omega (
              arith,
              (pick_rows-count (λ _. true) rows [] is out picked).1,
              (==_iff (length is) target).0 same,
            ),
          )
      | inr other ↦ cc (
        k,
        if_yes (not (length is == target)) (err bad_selection) (pick_rows rows [] is)
            (ap not other),
      )
    ]
