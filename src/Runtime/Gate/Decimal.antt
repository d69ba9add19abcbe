-- ===== src/Runtime/Gate/Decimal.antt =====
-- The decimal numerals of `itoa` in pkg/runtime/gate.go.
use native.Mathlib.Nat.{pow-succ'}
use soyaos.Prelude.{
  ℕ, zero, suc, ◌+◌, ◌-◌, ◌*◌, ◌/◌, ◌%◌, ◌^◌, ◌<◌, ◌≤◌, ◌≡◌, Bytes, [], ◌∷◌, ◌==◌, arith,
  Bool-cases, inl, inr, ap, ◌∙◌, All,
}
use soyaos.Runtime.Gate.{digits_into, itoa}

-- The number that a numeral stands for, behind one that is read already.
abbrev pub value_from : ℕ → Bytes → ℕ
value_from n [] = n
value_from n (d ∷ ds) = value_from (n * 10 + (d - b'0')) ds

last_digit : (n : ℕ) → n / 10 * 10 + (b'0' + n % 10 - b'0') ≡ n
last_digit n = omega arith

tenth : (fuel n : ℕ) → n < 10 ^ suc fuel → n / 10 < 10 ^ fuel
tenth fuel n h = omega (arith, pow-succ' 10 fuel)

digits_into_value :
    (fuel n : ℕ) (out : Bytes)
    → n < 10 ^ fuel
    → value_from 0 (digits_into fuel n out) ≡ value_from n out
unfolding digits_into
digits_into_value zero n out h = let z : n ≡ 0 = omega arith in rw z
digits_into_value (suc fuel) n out h = elim (Bool-cases (n == 0)) [
  | inl z ↦ let e : n ≡ 0 = ground arith in rw e
  | inr nz ↦ rw nz (
      digits_into_value fuel (n / 10) ((b'0' + n % 10) ∷ out) (tenth fuel n h)
      ∙ ap (λ m. value_from m out) (last_digit n))
]

abbrev pub IsDigit : ℕ → Type 0
IsDigit d = (b'0' ≤ d) × (d ≤ b'9')

digits_into-IsDigit :
    (fuel n : ℕ) (out : Bytes) → All IsDigit out → All IsDigit (digits_into fuel n out)
unfolding digits_into
digits_into-IsDigit zero n out h = h
digits_into-IsDigit (suc fuel) n out h = elim (Bool-cases (n == 0)) [
  | inl z ↦ rw z h
  | inr nz ↦ rw nz (digits_into-IsDigit fuel (n / 10) ((b'0' + n % 10) ∷ out) (omega arith, h))
]

-- The numeral of a non-negative int64 consists of digits and reads back as the number.
pub itoa_value : (n : ℕ) → n < 2 ^ 63 → (value_from 0 (itoa n) ≡ n) × All IsDigit (itoa n)
unfolding itoa
itoa_value n h = elim (Bool-cases (n == 0)) [
  | inl z ↦ let e : n ≡ 0 = ground arith in (rw (z, e), rw z (omega arith))
  | inr nz ↦
      (rw nz (digits_into_value 20 n [] (omega arith)), rw nz (digits_into-IsDigit 20 n [] tt))
]
