-- ===== src/Kernel/Rows/Cells.antt =====
-- The rows of a sheet by their numbers, and the owners that pkg/kernel/state.go gives them.
use soyaos.Prelude.{
  ℕ, suc, ◌+◌, ◌-◌, ◌^◌, ◌<◌, ◌≡◌, ◌≢◌, refl, sym, ◌∙◌, ap, inl, inr, true, false, List, [], ◌∷◌,
  ◌++◌, Option, none, some, Bytes, codes, ltb, ◌==◌, get_elem?, arith, Bool-cases, if◌then◌else◌,
}
use soyaos.Runtime.Gate.{itoa}
use soyaos.Runtime.Gate.Decimal.{itoa_value, value_from}
use soyaos.Kernel.Agents.{Agent}
use soyaos.Kernel.Rows.{Value, Identity, completion_state_owner, row_state_owner, row_name}

cancel_front : (a x y : Bytes) → a ++ x ≡ a ++ y → x ≡ y
cancel_front [] x y h = h
cancel_front (c ∷ a) x y h = cancel_front a x y (cc)

itoa_injective : (n m : ℕ) → n < 2 ^ 63 → m < 2 ^ 63 → itoa n ≡ itoa m → n ≡ m
itoa_injective n m h k e = sym (itoa_value n h).0 ∙ (ap (value_from 0) e ∙ (itoa_value m k).0)

-- Rows are numbered from 1 by numbers that an int64 holds.
abbrev pub row_limit : ℕ
row_limit = 2 ^ 63 - 1

-- The row of one sheet, the first of whose rows has the number `start`
abbrev pub cell_from : ℕ → List (List Value) → ℕ → Option (List Value)
cell_from start rows n = if ltb n start then none else get_elem? rows (n - start)

pub cell_from_step :
    (start : ℕ) (row : List Value) (rows : List (List Value)) (n : ℕ)
    → cell_from start (row ∷ rows) n
      ≡ (if start == n then some row else cell_from (suc start) rows n)
cell_from_step start row rows n = elim (Bool-cases (start == n)) [
  | inl e ↦
      let same : start ≡ n = ground arith in
      let here : n - start ≡ 0 = omega arith in
      let later : ltb n start ≡ false = ground arith in rw (e, later, here) refl
  | inr e ↦ elim (Bool-cases (ltb n start)) [
    | inl c ↦ let c' : ltb n (suc start) ≡ true = ground arith in rw (e, c, c') refl
    | inr c ↦
        let c' : ltb n (suc start) ≡ false = ground arith in
        let next : n - start ≡ suc (n - suc start) = ground arith in rw (e, c, c', next) refl
  ]
]

pub cell_from_zero : (rows : List (List Value)) (n : ℕ) → cell_from 0 rows n ≡ get_elem? rows n
cell_from_zero rows n =
    let c : ltb n 0 ≡ false = ground arith in let e : n - 0 ≡ n = omega arith in rw (c, e) refl

module _ {H : Type 0} (agent : Agent H) (id : Identity) where
  pub owner_ne :
      (n m : ℕ)
      → n < row_limit
      → m < row_limit
      → n ≢ m
      → row_state_owner agent id (row_name n) ≢ row_state_owner agent id (row_name m)
  unfolding row_state_owner
  owner_ne n m h k ne e =
      let o = (completion_state_owner agent id).1 in
      let names = cancel_front o (codes "/" ++ row_name n) (codes "/" ++ row_name m) e in
      let digits = cancel_front (codes "/row-") (itoa (n + 1)) (itoa (m + 1)) names in
      ne (omega (arith, itoa_injective (n + 1) (m + 1) (omega arith) (omega arith) digits))
