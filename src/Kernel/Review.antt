-- ===== src/Kernel/Review.antt =====
-- pkg/kernel/action_review.go: a second model reviews the text that a first one wrote. The model, the tokens and the
-- values that `encoding/json` reads, and the Unicode tables are parameters; the text of the prompts is left out.
pub mod Tokens
pub mod Checks
pub mod Sound
mod Tests
use soyaos.Prelude.{
  ℕ, zero, suc, ◌+◌, ◌*◌, Bool, true, false, not, ◌&&◌, ◌||◌, List, [], ◌∷◌, ◌++◌, Option, none,
  some, Bytes, bytes_eq, codes, is_empty, Result, ok, err, ◌>>=◌, ◌>>◌, guard, length, ◌==◌,
  if◌then◌else◌,
}
use soyaos.Soyapack.{Unicode, is_blank, is_member, contains}

pub data ReviewError : Type 0 where
  empty_draft unavailable invalid_response incomplete five_checks invalid_check contradiction
        no_excerpt :
      ReviewError

-- A token of `Decoder.Token`. The list ends where the input does, or where `bad` input begins.
pub data Token : Type 0 where
  open_object close_object open_array close_array scalar bad : Token
  string : Bytes → Token

-- `Decoder.More`
unfoldable pub more : List Token → Bool
more [] = false
more (close_object ∷ ts) = false
more (close_array ∷ ts) = false
more (_ ∷ ts) = true

abbrev pub Read : Type 0
Read = Result ReviewError (List Token)

-- The last call of `Decoder.Token` in `value`, which finds the closing delimiter
unfoldable pub closing : List Token → Read
closing (close_object ∷ ts) = ok ts
closing (close_array ∷ ts) = ok ts
closing _ = err invalid_response

-- The name of a field, which no field before it may have
unfoldable pub field_name : (Bytes → Bytes) → List Bytes → Token → Result ReviewError Bytes
field_name lower seen (string s) =
    if is_member (lower s) seen then err invalid_response else ok (lower s)
field_name lower seen _ = err invalid_response

-- What the rest of an object is read by, once its next name was
abbrev pub field_of : Result ReviewError Bytes → (Bytes → Read) → Read
field_of (ok name) next = next name
field_of (err e) next = err e

-- `value` of `rejectDuplicateReviewKeys` and its two loops, on fuel. The result is what is left of the tokens.
unfoldable mutual
  pub value : (Bytes → Bytes) → ℕ → List Token → Read
  value lower zero ts = err invalid_response
  value lower (suc fuel) [] = err invalid_response
  value lower (suc fuel) (string s ∷ ts) = ok ts
  value lower (suc fuel) (scalar ∷ ts) = ok ts
  value lower (suc fuel) (open_object ∷ ts) = fields lower fuel [] ts
  value lower (suc fuel) (open_array ∷ ts) = elements lower fuel ts
  value lower (suc fuel) (_ ∷ ts) = err invalid_response

  pub fields : (Bytes → Bytes) → ℕ → List Bytes → List Token → Read
  fields lower zero seen ts = err invalid_response
  fields lower (suc fuel) seen [] = err invalid_response
  fields lower (suc fuel) seen (t ∷ ts) =
      let rest =
        field_of (field_name lower seen t)
          (λ name. value lower fuel ts >>= λ ts'. fields lower fuel (name ∷ seen) ts') in
      if more (t ∷ ts) then rest else closing (t ∷ ts)

  pub elements : (Bytes → Bytes) → ℕ → List Token → Read
  elements lower zero ts = err invalid_response
  elements lower (suc fuel) ts =
      let rest = value lower fuel ts >>= λ ts'. elements lower fuel ts' in
      if more ts then rest else closing ts

abbrev pub at_end : List Token → Result ReviewError (Unit {0})
at_end [] = ok tt
at_end (t ∷ ts) = err invalid_response

-- `rejectDuplicateReviewKeys`, with fuel for two calls a token
unfoldable pub reject_duplicate_review_keys :
    (Bytes → Bytes) → List Token → Result ReviewError (Unit {0})
unfolding value
reject_duplicate_review_keys lower ts = value lower (suc (2 * length ts)) ts >>= at_end

-- A field that the answer leaves out is `none`.
pub record Check : Type 0 where
  pub id : Bytes
  pub passed : Option Bool
  pub reason : Bytes

pub record Finding : Type 0 where
  pub quote : Bytes
  pub reason : Bytes

pub record Verdict : Type 0 where
  pub checks : Option (List Check)
  pub approved : Option Bool
  pub findings : Option (List Finding)

abbrev pub dimensions : List Bytes
dimensions =
    codes "business_context"
    ∷ codes "factual_claims"
    ∷ codes "method_logic"
    ∷ codes "format"
    ∷ codes "safety"
    ∷ []

-- `delete(required, check.ID)`
unfoldable pub without : Bytes → List Bytes → List Bytes
without s [] = []
without s (t ∷ ts) = let rest = without s ts in if bytes_eq t s then rest else t ∷ rest

-- What `reviewActionText` returns: no error, a rejection, or a failure
pub data Outcome : Type 0 where
  approved : Outcome
  rejected : List Finding → Outcome

-- `strings.Split(content, "\n")`
abbrev pub push_byte : ℕ → List Bytes → List Bytes
push_byte c [] = (c ∷ []) ∷ []
push_byte c (l ∷ ls) = (c ∷ l) ∷ ls

unfoldable pub split_lines : Bytes → List Bytes
split_lines [] = [] ∷ []
split_lines (c ∷ s) = let rest = split_lines s in if c == 10 then [] ∷ rest else push_byte c rest

abbrev pub some_lines : List Bytes → Result ReviewError (List Bytes)
some_lines [] = err empty_draft
some_lines (l ∷ ls) = ok (l ∷ ls)

abbrev pub no_findings : List Finding → Bool
no_findings [] = true
no_findings (f ∷ fs) = false

abbrev pub same_bool : Bool → Bool → Bool
same_bool true b = b
same_bool false b = not b

abbrev pub read_verdict : (Bytes → Bool) → Option (Verdict × Bytes) → Result ReviewError Verdict
read_verdict is_end none = err invalid_response
read_verdict is_end (some (v, rest)) = if is_end rest then ok v else err incomplete

abbrev pub answered : Option Bytes → Result ReviewError Bytes
answered none = err unavailable
answered (some response) = ok response

module _ (U : Unicode) where
  -- The loop of `actionReviewSchemaFor`: the lines that a finding may quote
  unfoldable pub quote_lines : List Bytes → List Bytes → List Bytes
  quote_lines seen [] = []
  quote_lines seen (l ∷ ls) =
      let line = U.trim_space l in
      let rest = quote_lines (if is_empty line then seen else line ∷ seen) ls in
      if is_empty line || is_member line seen then rest else line ∷ rest

  -- `actionReviewSchemaFor`
  unfoldable pub action_review_schema_for : Bytes → Result ReviewError (List Bytes)
  unfolding quote_lines split_lines
  action_review_schema_for content = some_lines (quote_lines [] (split_lines content))

  abbrev pub check_passed : Option Bool → Bytes → Result ReviewError Bool
  check_passed none reason = err invalid_check
  check_passed (some b) reason = if is_blank U reason then err invalid_check else ok b

  -- One round of the loop over the checks
  unfoldable pub check_one : List Bytes → Check → Result ReviewError Bool
  check_one required c =
      if is_member c.id required then check_passed c.passed c.reason else err invalid_check

  unfoldable pub check_all : List Bytes → Bool → List Check → Result ReviewError Bool
  unfolding check_one without
  check_all required all_passed [] = ok all_passed
  check_all required all_passed (c ∷ cs) =
      check_one required c >>= λ b. check_all (without c.id required) (all_passed && b) cs

  unfoldable pub quotes_draft : Bytes → Finding → Bool
  quotes_draft content f =
      not (is_blank U f.quote) && (not (is_blank U f.reason) && contains content f.quote)

  unfoldable pub check_findings : Bytes → List Finding → List Finding → Result ReviewError Outcome
  unfolding quotes_draft
  check_findings content all [] = ok (rejected all)
  check_findings content all (f ∷ fs) =
      if quotes_draft content f then check_findings content all fs else err no_excerpt

  -- From the decision on, once all three fields are there
  unfoldable pub decide : Bytes → List Check → Bool → List Finding → Result ReviewError Outcome
  unfolding check_all check_findings
  decide content checks decision findings = do
    guard (length checks == 5) five_checks
    all_passed ← check_all dimensions true checks
    guard (same_bool decision all_passed) contradiction
    guard (same_bool decision (no_findings findings)) contradiction
    if decision then ok Outcome.approved else check_findings content findings findings

  abbrev pub with_checks :
      Bytes → Option (List Check) → Bool → List Finding → Result ReviewError Outcome
  with_checks content none decision findings = err five_checks
  with_checks content (some checks) decision findings = decide content checks decision findings

  -- The tests of a verdict, in the order of the source
  unfoldable pub judge : Bytes → Verdict → Result ReviewError Outcome
  unfolding decide
  judge content v = elim v.approved [
    | none ↦ err incomplete
    | some decision ↦ elim v.findings [
      | none ↦ err incomplete
      | some findings ↦ with_checks content v.checks decision findings
    ]
  ]

  -- `reviewActionText`: `ask` is the call of the reviewing model, with the lines that it may quote.
  unfoldable pub review_action_text :
      (Bytes → List Token)
      → (Bytes → Option (Verdict × Bytes))
      → (Bytes → Bool)
      → (List Bytes → Option Bytes)
      → Bytes
      → Result ReviewError Outcome
  unfolding action_review_schema_for reject_duplicate_review_keys judge
  review_action_text tokens decode is_end ask content = do
    lines ← action_review_schema_for content
    response ← answered (ask lines)
    reject_duplicate_review_keys U.to_lower (tokens response)
    v ← read_verdict is_end (decode response)
    judge content v
