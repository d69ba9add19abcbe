-- ===== src/Kernel/Review/Checks.antt =====
-- The checks of `reviewActionText` of pkg/kernel/action_review.go, one for each dimension.
use soyaos.Prelude.{
  suc, ◌≡◌, refl, sym, ◌∙◌, ap, inl, inr, Bool, true, false, not, ◌&&◌, List, [], ◌∷◌, Option, some,
  Bytes, bytes_eq, bytes_eq_iff, ok, bind-ok, length, All, In, arith, Bool-cases, Option-cases,
}
use soyaos.Soyapack.{Unicode, is_blank, is_member}
use soyaos.Kernel.Review.{Check, without, check_one, check_all}

abbrev HasDistinct : List Bytes → Type 0
HasDistinct [] = Unit
HasDistinct (s ∷ ts) = (is_member s ts ≡ false) × HasDistinct ts

without_absent : (s : Bytes) (ts : List Bytes) → is_member s ts ≡ false → without s ts ≡ ts
unfolding without
without_absent s [] h = refl
without_absent s (t ∷ ts) h = ground (arith, without_absent s ts)

member_without :
    (d s : Bytes) (ts : List Bytes)
    → is_member d (without s ts) ≡ (not (bytes_eq d s) && is_member d ts)
unfolding without
member_without d s [] = ground arith
member_without d s (t ∷ ts) =
    ground (arith, member_without d s ts, bytes_eq_iff t s, bytes_eq_iff t d, bytes_eq_iff d s)

length-without :
    (s : Bytes) (ts : List Bytes)
    → HasDistinct ts
    → is_member s ts ≡ true
    → suc (length (without s ts)) ≡ length ts
unfolding without
length-without s [] h m = cc
length-without s (t ∷ ts) h m = elim (Bool-cases (bytes_eq t s)) [
  | inl e ↦
      let same : t ≡ s = (bytes_eq_iff t s).0 e in
      rw e (ap (λ l. suc (length l)) (without_absent s ts (rw (← same) h.0)))
  | inr e ↦ rw e (ap suc (length-without s ts h.1 (rw e at m)))
]

without-HasDistinct : (s : Bytes) (ts : List Bytes) → HasDistinct ts → HasDistinct (without s ts)
unfolding without
without-HasDistinct s [] h = tt
without-HasDistinct s (t ∷ ts) h = elim (Bool-cases (bytes_eq t s)) [
  | inl e ↦ rw e (without-HasDistinct s ts h.1)
  | inr e ↦ rw e (ground (arith, member_without t s ts, h.0), without-HasDistinct s ts h.1)
]

-- The conjunction over the checks
abbrev pub HasResult : Bool → List Check → Type 0
HasResult true cs = All (λ c. c.passed ≡ some true) cs
HasResult false cs = (c : Check) × In c cs × (c.passed ≡ some false)

abbrev ResultFrom : Bool → Bool → List Check → Type 0
ResultFrom true b cs = HasResult b cs
ResultFrom false b cs = b ≡ false

result_step :
    (acc x b : Bool) (c : Check) (cs : List Check)
    → c.passed ≡ some x
    → ResultFrom (acc && x) b cs
    → ResultFrom acc b (c ∷ cs)
result_step true true true c cs p h = (p, h)
result_step true true false c cs p (c', m, q) = (c', inr m, q)
result_step true false true c cs p h = cc
result_step true false false c cs p h = (c, inl refl, p)
result_step false x b c cs p h = h

module _ (U : Unicode) where
  -- A check of the dimension, with a reason
  abbrev pub IsAssessed : List Check → Option Bool → Bytes → Type 0
  IsAssessed cs result d =
      (c : Check) × In c cs × (c.id ≡ d) × (c.passed ≡ result) × (is_blank U c.reason ≡ false)

  check_one_ok :
      (required : List Bytes) (c : Check) (b : Bool)
      → check_one U required c ≡ ok b
      → (is_member c.id required ≡ true) × (c.passed ≡ some b) × (is_blank U c.reason ≡ false)
  unfolding check_one
  check_one_ok required c b h = elim (Bool-cases (is_member c.id required)) [
    | inl e ↦ elim (Option-cases c.passed) [
      | inl p ↦ ground (arith, e, p)
      | inr (x, p) ↦ (e, ground (arith, e, p), ground (arith, e, p))
    ]
    | inr e ↦ ground (arith, e)
  ]

  more_checks :
      (c : Check) (cs : List Check) (d : Bytes)
      → (b : Bool) × IsAssessed cs (some b) d
      → (b : Bool) × IsAssessed (c ∷ cs) (some b) d
  more_checks c cs d (b, (c', m, at, p, r)) = (b, (c', inr m, at, p, r))

  -- As many checks as dimensions that are asked for assess each of these.
  pub check_all-covers :
      (required : List Bytes) (acc b : Bool) (cs : List Check) (d : Bytes)
      → HasDistinct required
      → length cs ≡ length required
      → check_all U required acc cs ≡ ok b
      → is_member d required ≡ true
      → (x : Bool) × IsAssessed cs (some x) d
  unfolding check_all
  check_all-covers [] acc b cs d distinct n h m = cc
  check_all-covers (r ∷ rs) acc b [] d distinct n h m = absurd (omega (arith, n))
  check_all-covers (r ∷ rs) acc b (c ∷ cs) d distinct n h m =
      let required = r ∷ rs in
      let (x, first, rest) =
        bind-ok (check_one U required c) (λ x. check_all U (without c.id required) (acc && x) cs) b
          h in
      let (member, passed, reason) = check_one_ok required c x first in
      elim (Bool-cases (bytes_eq d c.id)) [
        | inl e ↦ (x, (c, inl refl, sym ((bytes_eq_iff d c.id).0 e), passed, reason))
        | inr e ↦ more_checks c cs d (
            check_all-covers (without c.id required) (acc && x) b cs d
              (without-HasDistinct c.id required distinct)
              (omega (arith, n, length-without c.id required distinct member)) rest
              (member_without d c.id required ∙ ground (arith, e, m)))
      ]

  pub check_all-result :
      (required : List Bytes) (acc b : Bool) (cs : List Check)
      → check_all U required acc cs ≡ ok b
      → ResultFrom acc b cs
  unfolding check_all
  check_all-result required true true [] h = tt
  check_all-result required true false [] h = cc
  check_all-result required false b [] h = cc
  check_all-result required acc b (c ∷ cs) h =
      let (x, first, rest) =
        bind-ok (check_one U required c) (λ x. check_all U (without c.id required) (acc && x) cs) b
          h in
      result_step acc x b c cs (check_one_ok required c x first).1
        (check_all-result (without c.id required) (acc && x) b cs rest)
