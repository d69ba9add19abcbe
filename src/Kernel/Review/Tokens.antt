-- ===== src/Kernel/Review/Tokens.antt =====
-- `rejectDuplicateReviewKeys` of pkg/kernel/action_review.go against a reference on the value that the tokens are of.
use soyaos.Prelude.{
  ◌↔◌, ℕ, zero, suc, ◌*◌, ◌≤◌, ◌<◌, ◌≡◌, refl, ◌∙◌, inl, inr, Bool, true, false, not, ◌&&◌, List,
  [], ◌∷◌, ◌++◌, Bytes, ok, err, ◌>>=◌, length, length-append, arith, Bool-cases, if◌then◌else◌,
}
use mathlib.Core.List.{append_assoc}
use soyaos.Soyapack.{is_member}
use soyaos.Kernel.Review.{
  invalid_response, Token, open_object, close_object, open_array, close_array, scalar, string, more,
  Read, closing, field_name, field_of, value, fields, elements, at_end,
  reject_duplicate_review_keys,
}

-- A JSON value, as far as the code looks at it
mutual
  pub data Json : Type 0 where
    text : Bytes → Json
    other : Json
    array : Items → Json
    object : Fields → Json

  pub data Items : Type 0 where
    nil : Items
    item : Json → Items → Items

  pub data Fields : Type 0 where
    end : Fields
    field : Bytes → Json → Fields → Fields

-- The tokens of a value
unfoldable mutual
  pub tokens_of : Json → List Token
  tokens_of (text s) = string s ∷ []
  tokens_of other = scalar ∷ []
  tokens_of (array xs) = open_array ∷ tokens_of_items xs
  tokens_of (object fs) = open_object ∷ tokens_of_fields fs

  pub tokens_of_items : Items → List Token
  tokens_of_items nil = close_array ∷ []
  tokens_of_items (item x xs) = tokens_of x ++ tokens_of_items xs

  pub tokens_of_fields : Fields → List Token
  tokens_of_fields end = close_object ∷ []
  tokens_of_fields (field s x fs) = string s ∷ (tokens_of x ++ tokens_of_fields fs)

-- The reference: in no object, at any depth, do two fields have one name, but for case.
unfoldable mutual
  pub is_unique : (Bytes → Bytes) → Json → Bool
  is_unique lower (text s) = true
  is_unique lower other = true
  is_unique lower (array xs) = are_unique lower xs
  is_unique lower (object fs) = names_unique lower [] fs

  pub are_unique : (Bytes → Bytes) → Items → Bool
  are_unique lower nil = true
  are_unique lower (item x xs) = is_unique lower x && are_unique lower xs

  pub names_unique : (Bytes → Bytes) → List Bytes → Fields → Bool
  names_unique lower seen end = true
  names_unique lower seen (field s x fs) =
      not (is_member (lower s) seen)
      && (is_unique lower x && names_unique lower (lower s ∷ seen) fs)

abbrev pub verdict : Bool → List Token → Read
verdict b rest = if b then ok rest else err invalid_response

more-tokens_of : (j : Json) (rest : List Token) → more (tokens_of j ++ rest) ≡ true
unfolding more tokens_of
more-tokens_of (text s) rest = refl
more-tokens_of other rest = refl
more-tokens_of (array xs) rest = refl
more-tokens_of (object fs) rest = refl

then_verdict :
    (b c : Bool) (m : Read) (rest rest' : List Token) (next : List Token → Read)
    → m ≡ verdict b rest'
    → next rest' ≡ verdict c rest
    → (m >>= next) ≡ verdict (b && c) rest
then_verdict true c m rest rest' next e h = rw e h
then_verdict false c m rest rest' next e h = rw e refl

field_verdict :
    (lower : Bytes → Bytes) (seen : List Bytes) (s : Bytes) (c : Bool) (rest : List Token)
    (next : Bytes → Read)
    → next (lower s) ≡ verdict c rest
    → field_of (field_name lower seen (string s)) next
      ≡ verdict (not (is_member (lower s) seen) && c) rest
unfolding field_name
field_verdict lower seen s c rest next h = elim (Bool-cases (is_member (lower s) seen)) [
  | inl e ↦ rw e refl
  | inr e ↦ rw e h
]

some_token : (j : Json) → 0 < length (tokens_of j)
unfolding tokens_of
some_token (text s) = omega arith
some_token other = omega arith
some_token (array xs) = omega arith
some_token (object fs) = omega arith

some_item : (xs : Items) → 0 < length (tokens_of_items xs)
unfolding tokens_of
some_item nil = omega arith
some_item (item x xs) =
    omega (arith, some_token x, length-append (tokens_of x) (tokens_of_items xs))

some_field : (fs : Fields) → 0 < length (tokens_of_fields fs)
unfolding tokens_of
some_field end = omega arith
some_field (field s x fs) = omega arith

value_text :
    (lower : Bytes → Bytes) (fuel : ℕ) (s : Bytes) (rest : List Token)
    → value lower (suc fuel) (string s ∷ rest) ≡ ok rest
unfolding value
value_text lower fuel s rest = refl

value_scalar :
    (lower : Bytes → Bytes) (fuel : ℕ) (rest : List Token)
    → value lower (suc fuel) (scalar ∷ rest) ≡ ok rest
unfolding value
value_scalar lower fuel rest = refl

value_array :
    (lower : Bytes → Bytes) (fuel : ℕ) (ts : List Token)
    → value lower (suc fuel) (open_array ∷ ts) ≡ elements lower fuel ts
unfolding value
value_array lower fuel ts = refl

value_object :
    (lower : Bytes → Bytes) (fuel : ℕ) (ts : List Token)
    → value lower (suc fuel) (open_object ∷ ts) ≡ fields lower fuel [] ts
unfolding value
value_object lower fuel ts = refl

elements_end :
    (lower : Bytes → Bytes) (fuel : ℕ) (rest : List Token)
    → elements lower (suc fuel) (close_array ∷ rest) ≡ ok rest
unfolding value more closing
elements_end lower fuel rest = refl

fields_end :
    (lower : Bytes → Bytes) (fuel : ℕ) (seen : List Bytes) (rest : List Token)
    → fields lower (suc fuel) seen (close_object ∷ rest) ≡ ok rest
unfolding value more closing
fields_end lower fuel seen rest = refl

-- An element, and those behind it
element_step :
    (lower : Bytes → Bytes) (fuel : ℕ) (j : Json) (b c : Bool) (ts rest : List Token)
    → value lower fuel (tokens_of j ++ ts) ≡ verdict b ts
    → elements lower fuel ts ≡ verdict c rest
    → elements lower (suc fuel) (tokens_of j ++ ts) ≡ verdict (b && c) rest
unfolding value
element_step lower fuel j b c ts rest e h = rw (more-tokens_of j ts) (
    then_verdict b c (value lower fuel (tokens_of j ++ ts)) rest ts (λ ts'. elements lower fuel ts')
      e h)

-- A field, and those behind it
field_step :
    (lower : Bytes → Bytes) (fuel : ℕ) (seen : List Bytes) (s : Bytes) (j : Json) (b c : Bool)
    (ts rest : List Token)
    → value lower fuel (tokens_of j ++ ts) ≡ verdict b ts
    → fields lower fuel (lower s ∷ seen) ts ≡ verdict c rest
    → fields lower (suc fuel) seen (string s ∷ (tokens_of j ++ ts))
      ≡ verdict (not (is_member (lower s) seen) && (b && c)) rest
unfolding value more
field_step lower fuel seen s j b c ts rest e h =
    field_verdict lower seen s (b && c) rest
      (λ name. value lower fuel (tokens_of j ++ ts) >>= λ ts'. fields lower fuel (name ∷ seen) ts')
      (then_verdict b c (value lower fuel (tokens_of j ++ ts)) rest ts
        (λ ts'. fields lower fuel (lower s ∷ seen) ts') e h)

mutual
  unfolding tokens_of is_unique

  value-tokens_of :
      (j : Json) (lower : Bytes → Bytes) (fuel : ℕ) (rest : List Token)
      → 2 * length (tokens_of j) ≤ suc fuel
      → value lower fuel (tokens_of j ++ rest) ≡ verdict (is_unique lower j) rest
  value-tokens_of j lower zero rest h = absurd (omega (arith, some_token j))
  value-tokens_of (text s) lower (suc fuel) rest h = value_text lower fuel s rest
  value-tokens_of other lower (suc fuel) rest h = value_scalar lower fuel rest
  value-tokens_of (array xs) lower (suc fuel) rest h =
      value_array lower fuel (tokens_of_items xs ++ rest)
      ∙ elements-tokens xs lower fuel rest (omega arith)
  value-tokens_of (object fs) lower (suc fuel) rest h =
      value_object lower fuel (tokens_of_fields fs ++ rest)
      ∙ fields-tokens fs lower fuel [] rest (omega arith)

  elements-tokens :
      (xs : Items) (lower : Bytes → Bytes) (fuel : ℕ) (rest : List Token)
      → 2 * length (tokens_of_items xs) ≤ suc fuel
      → elements lower fuel (tokens_of_items xs ++ rest) ≡ verdict (are_unique lower xs) rest
  elements-tokens xs lower zero rest h = absurd (omega (arith, some_item xs))
  elements-tokens nil lower (suc fuel) rest h = elements_end lower fuel rest
  elements-tokens (item x xs) lower (suc fuel) rest h =
      let size = length-append (tokens_of x) (tokens_of_items xs) in
      rw (append_assoc (tokens_of x) (tokens_of_items xs) rest) (
        element_step lower fuel x (is_unique lower x) (are_unique lower xs)
          (tokens_of_items xs ++ rest) rest
          (value-tokens_of x lower fuel (tokens_of_items xs ++ rest)
            (omega (arith, size, some_item xs)))
          (elements-tokens xs lower fuel rest (omega (arith, size, some_token x))))

  fields-tokens :
      (fs : Fields) (lower : Bytes → Bytes) (fuel : ℕ) (seen : List Bytes) (rest : List Token)
      → 2 * length (tokens_of_fields fs) ≤ suc fuel
      → fields lower fuel seen (tokens_of_fields fs ++ rest)
        ≡ verdict (names_unique lower seen fs) rest
  fields-tokens fs lower zero seen rest h = absurd (omega (arith, some_field fs))
  fields-tokens end lower (suc fuel) seen rest h = fields_end lower fuel seen rest
  fields-tokens (field s x fs) lower (suc fuel) seen rest h =
      let size = length-append (tokens_of x) (tokens_of_fields fs) in
      rw (append_assoc (tokens_of x) (tokens_of_fields fs) rest) (
        field_step lower fuel seen s x (is_unique lower x) (names_unique lower (lower s ∷ seen) fs)
          (tokens_of_fields fs ++ rest) rest
          (value-tokens_of x lower fuel (tokens_of_fields fs ++ rest)
            (omega (arith, size, some_field fs)))
          (fields-tokens fs lower fuel (lower s ∷ seen) rest (omega (arith, size, some_token x))))

-- `rejectDuplicateReviewKeys` accepts the tokens of a JSON value exactly if in no object in it, at
-- any depth, two fields have one name, but for case, and nothing follows the value.
pub unique_iff :
    (lower : Bytes → Bytes) (j : Json) (rest : List Token)
    → (reject_duplicate_review_keys lower (tokens_of j ++ rest) ≡ ok tt)
      ↔ ((is_unique lower j ≡ true) × (rest ≡ []))
unfolding reject_duplicate_review_keys
unique_iff lower j rest =
    let size = length-append (tokens_of j) rest in
    let read =
      value-tokens_of j lower (suc (2 * length (tokens_of j ++ rest))) rest (omega (arith, size)) in
    rw read (elim (Bool-cases (is_unique lower j)) [
      | inl e ↦ rw e (ends rest)
      | inr e ↦ rw e (λ h. cc, λ h. cc)
    ])
  where
    ends : (r : List Token) → (at_end r ≡ ok tt) ↔ (◌≡◌ {A = Bool} true true × (r ≡ []))
    ends [] = (λ h. (refl, refl), λ h. refl)
    ends (t ∷ ts) = (λ h. cc, λ h. cc)
