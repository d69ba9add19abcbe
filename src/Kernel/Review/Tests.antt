-- ===== src/Kernel/Review/Tests.antt =====
-- The theorems about pkg/kernel/action_review.go on a verdict with five checks, and on a value that repeats a name.
use soyaos.Prelude.{
  ◌≡◌, ◌↔◌, refl, Bool, true, false, List, [], ◌∷◌, ◌++◌, some, Bytes, codes, ok, err, is_empty,
}
use soyaos.Soyapack.{Unicode}
use soyaos.Kernel.Review.{
  Token, scalar, Check, Finding, Verdict, rejected, invalid_response, reject_duplicate_review_keys,
  review_action_text, more, field_name,
}
use soyaos.Kernel.Review.Tokens.{
  Json, text, other, object, field, end, tokens_of, is_unique, unique_iff,
}
use soyaos.Kernel.Review.Sound.{IsFounded, review_sound}

abbrev plain : Unicode
plain = record { trim_space = λ s. s; fields = λ s. s ∷ []; to_lower = λ s. s; rune_count = λ s. 0 }

abbrev check : Bytes → Bool → Check
check name b = record { id = name; passed = some b; reason = codes "assessed" }

abbrev finding : Finding
finding = record { quote = codes "100%"; reason = codes "no source" }

-- A verdict in which the checks come in another order, and one of them fails
abbrev verdict : Verdict
verdict = record {
  checks = some (
      check (codes "safety") true
      ∷ (check (codes "format") true
          ∷ (check (codes "factual_claims") false
              ∷ (check (codes "method_logic") true
                  ∷ (check (codes "business_context") true ∷ [])))));
  approved = some false;
  findings = some (finding ∷ []);
}

review_sound_example :
    IsFounded plain
      (λ r. scalar ∷ [])
      (λ r. some (verdict, []))
      is_empty
      (λ lines. some (codes "{}"))
      (codes "sure, 100%")
      (rejected (finding ∷ []))
unfolding review_action_text
review_sound_example =
    review_sound plain (λ r. scalar ∷ []) (λ r. some (verdict, [])) is_empty
      (λ lines. some (codes "{}")) (codes "sure, 100%") (rejected (finding ∷ [])) refl

abbrev repeated : Json
repeated =
    object
      (field (codes "a") other (field (codes "b") (text (codes "a")) (field (codes "a") other end)))

unique_iff_example :
    (reject_duplicate_review_keys (λ s. s) (tokens_of repeated ++ []) ≡ ok tt)
    ↔ ((is_unique (λ s. s) repeated ≡ true) × (◌≡◌ {A = List Token} [] []))
unique_iff_example = unique_iff (λ s. s) repeated []

repeated_rejected :
    reject_duplicate_review_keys (λ s. s) (tokens_of repeated) ≡ err invalid_response
unfolding reject_duplicate_review_keys tokens_of more field_name
repeated_rejected = refl
