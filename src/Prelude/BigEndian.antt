-- ===== src/Prelude/BigEndian.antt =====
-- `encoding/binary.BigEndian` of Go's library, written out: a number as its lowest bytes, the highest first, and back.
use native.Mathlib.Nat.{pow-succ'}
use soyaos.Prelude.{
  ℕ, zero, suc, ◌+◌, ◌*◌, ◌/◌, ◌%◌, ◌^◌, ◌<◌, ◌≡◌, refl, ◌∙◌, [], ◌∷◌, ◌++◌, Bytes, length,
  length-append, arith,
}

unfoldable pub big_endian : ℕ → ℕ → Bytes
big_endian zero n = []
big_endian (suc k) n = big_endian k (n / 256) ++ (n % 256 ∷ [])

unfoldable pub read_big_endian : ℕ → Bytes → ℕ
read_big_endian acc [] = acc
read_big_endian acc (b ∷ bs) = read_big_endian (acc * 256 + b) bs

read_append :
    (acc : ℕ) (xs ys : Bytes)
    → read_big_endian acc (xs ++ ys) ≡ read_big_endian (read_big_endian acc xs) ys
unfolding read_big_endian
read_append acc [] ys = refl
read_append acc (x ∷ xs) ys = read_append (acc * 256 + x) xs ys

pub read-big_endian : (k n : ℕ) → n < 256 ^ k → read_big_endian 0 (big_endian k n) ≡ n
unfolding read_big_endian big_endian
read-big_endian zero n h = omega arith
read-big_endian (suc k) n h =
    read_append 0 (big_endian k (n / 256)) (n % 256 ∷ [])
    ∙ omega (arith, read-big_endian k (n / 256) (smaller k n h))
  where
    smaller : (k n : ℕ) → n < 256 ^ suc k → n / 256 < 256 ^ k
    smaller k n h = omega (arith, pow-succ' 256 k)

pub length-big_endian : (k n : ℕ) → length (big_endian k n) ≡ k
unfolding big_endian
length-big_endian zero n = refl
length-big_endian (suc k) n =
    omega
      (arith, length-append (big_endian k (n / 256)) (n % 256 ∷ []), length-big_endian k (n / 256))
