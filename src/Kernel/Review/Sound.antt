-- ===== src/Kernel/Review/Sound.antt =====
-- What a verdict of `reviewActionText` of pkg/kernel/action_review.go rests on.
use soyaos.Prelude.{
  ◌≡◌, ◌≢◌, refl, sym, ◌∙◌, ap, subst, inl, inr, Bool, true, false, List, [], ◌∷◌, Option, none,
  some, Bytes, Result, ok, ◌>>=◌, guard, bind-ok, length, ◌==◌, All, In, arith, Bool-cases,
  Option-cases, if◌then◌else◌, ok-injective,
}
use soyaos.Soyapack.{Unicode, is_member}
use soyaos.Kernel.Review.{
  ReviewError, Token, Check, Finding, Verdict, Outcome, approved, rejected, dimensions, check_all,
  quotes_draft, check_findings, no_findings, same_bool, decide, judge, read_verdict, answered,
  reject_duplicate_review_keys, action_review_schema_for, review_action_text,
}
use soyaos.Kernel.Review.Checks.{IsAssessed, HasResult, check_all-covers, check_all-result}

guarded :
    {A : Type 0} (b : Bool) (e : ReviewError) (next : Result ReviewError A) (a : A)
    → (guard b e >>= λ _. next) ≡ ok a
    → (b ≡ true) × (next ≡ ok a)
guarded true e next a h = (refl, h)
guarded false e next a h = cc

read_verdict-ok :
    (is_end : Bytes → Bool) (r : Option (Verdict × Bytes)) (v : Verdict)
    → read_verdict is_end r ≡ ok v
    → (rest : Bytes) × (r ≡ some (v, rest)) × (is_end rest ≡ true)
read_verdict-ok is_end none v h = cc
read_verdict-ok is_end (some (w, rest)) v h = elim (Bool-cases (is_end rest)) [
  | inl e ↦ (rest, ap (λ x. some (x, rest)) (ok-injective (rw e at h)), e)
  | inr e ↦ absurd (cc (rw e at h))
]

answered-ok : (r : Option Bytes) (response : Bytes) → answered r ≡ ok response → r ≡ some response
answered-ok none response h = cc
answered-ok (some x) response h = ap some (ok-injective h)

module _ (U : Unicode) where
  check_findings-ok :
      (content : Bytes) (all fs : List Finding) (o : Outcome)
      → check_findings U content all fs ≡ ok o
      → (o ≡ rejected all) × All (λ f. quotes_draft U content f ≡ true) fs
  unfolding check_findings
  check_findings-ok content all [] o h = (sym (ok-injective h), tt)
  check_findings-ok content all (f ∷ fs) o h = elim (Bool-cases (quotes_draft U content f)) [
    | inl e ↦ let (same, rest) = check_findings-ok content all fs o (rw e at h) in (same, (e, rest))
    | inr e ↦ absurd (cc (rw e at h))
  ]

  -- What the outcome says of the verdict and of the draft
  abbrev pub Warrants : Bytes → List Check → Bool → List Finding → Outcome → Type 0
  Warrants content cs decision findings approved =
      (decision ≡ true) × (findings ≡ []) × All (λ d. IsAssessed U cs (some true) d) dimensions
  Warrants content cs decision findings (rejected fs) =
      (decision ≡ false)
      × (findings ≡ fs)
      × (fs ≢ [])
      × All (λ f. quotes_draft U content f ≡ true) fs
      × All (λ d. (x : Bool) × IsAssessed U cs (some x) d) dimensions
      × HasResult false cs

  All-true :
      (cs : List Check) (d : Bytes)
      → All (λ c. c.passed ≡ some true) cs
      → (x : Bool) × IsAssessed U cs (some x) d
      → IsAssessed U cs (some true) d
  All-true cs d h (x, (c, m, at, p, r)) = (c, m, at, passed_of cs c h m, r)
    where
      passed_of :
          (cs : List Check) (c : Check)
          → All (λ c. c.passed ≡ some true) cs
          → In c cs
          → c.passed ≡ some true
      passed_of [] c h m = absurd m
      passed_of (c' ∷ cs) c h (inl e) = ap (λ (k : Check). k.passed) e ∙ h.0
      passed_of (c' ∷ cs) c h (inr m) = passed_of cs c h.1 m

  covers :
      (b : Bool) (cs : List Check)
      → length cs ≡ 5
      → check_all U dimensions true cs ≡ ok b
      → All (λ d. (x : Bool) × IsAssessed U cs (some x) d) dimensions
  covers b cs n h =
      let at = λ (d : Bytes) (m : is_member d dimensions ≡ true).
        check_all-covers U dimensions true b cs d (refl, (refl, (refl, (refl, (refl, tt))))) n h
          m in
      (at _ refl, (at _ refl, (at _ refl, (at _ refl, (at _ refl, tt)))))

  decide-Warrants :
      (content : Bytes) (cs : List Check) (decision : Bool) (findings : List Finding) (o : Outcome)
      → decide U content cs decision findings ≡ ok o
      → Warrants content cs decision findings o
  unfolding decide
  decide-Warrants content cs decision findings o h =
      let (five, h1) = guarded (length cs == 5) _ _ o h in
      let (b, all, h2) = bind-ok (check_all U dimensions true cs) _ o h1 in
      let (same, h3) = guarded (same_bool decision b) _ _ o h2 in
      let (same', h4) = guarded (same_bool decision (no_findings findings)) _ _ o h3 in
      let result = check_all-result U dimensions true b cs all in
      let assessed = covers b cs (ground (arith, five)) all in
      concluded decision b findings same same' result assessed h4
    where
      concluded :
          (decision b : Bool) (findings : List Finding)
          → same_bool decision b ≡ true
          → same_bool decision (no_findings findings) ≡ true
          → HasResult b cs
          → All (λ d. (x : Bool) × IsAssessed U cs (some x) d) dimensions
          → (if decision then ok approved else check_findings U content findings findings) ≡ ok o
          → Warrants content cs decision findings o
      concluded true true [] s s' r (a, (b, (c, (d, (e, _))))) h =
          subst (Warrants content cs true []) (ok-injective h) (
            refl,
            refl,
            (
              All-true cs _ r a,
              (
                All-true cs _ r b,
                (All-true cs _ r c, (All-true cs _ r d, (All-true cs _ r e, tt))),
              ),
            ),
          )
      concluded true true (f ∷ fs) s s' r a h = cc
      concluded true false fs s s' r a h = cc
      concluded false true fs s s' r a h = cc
      concluded false false [] s s' r a h = cc
      concluded false false (f ∷ fs) s s' r a h =
          let (same, quotes) = check_findings-ok content (f ∷ fs) (f ∷ fs) o h in
          subst (Warrants content cs false (f ∷ fs)) (sym same)
            (refl, refl, (λ e. cc), quotes, a, r)

  judge-Warrants :
      (content : Bytes) (v : Verdict) (o : Outcome)
      → judge U content v ≡ ok o
      → (cs : List Check) × (decision : Bool) × (fs : List Finding) × (v.checks ≡ some cs)
        × (v.approved ≡ some decision)
        × (v.findings ≡ some fs)
        × Warrants content cs decision fs o
  unfolding judge
  judge-Warrants content v o h = elim (Option-cases v.approved) [
    | inl e ↦ absurd (cc (rw e at h))
    | inr (decision, e) ↦ elim (Option-cases v.findings) [
      | inl f ↦ absurd (cc (rw f at (rw e at h)))
      | inr (fs, f) ↦ elim (Option-cases v.checks) [
        | inl c ↦ absurd (cc (rw c at (rw f at (rw e at h))))
        | inr (cs, c) ↦ (
          cs,
          decision,
          fs,
          c,
          e,
          f,
          decide-Warrants content cs decision fs o (rw c at (rw f at (rw e at h))),
        )
      ]
    ]
  ]

  module _ (tokens : Bytes → List Token) (decode : Bytes → Option (Verdict × Bytes))
      (is_end : Bytes → Bool) (ask : List Bytes → Option Bytes) (content : Bytes) where
    -- A response of the reviewing model, with the verdict that it is, warrants the outcome.
    abbrev pub IsFounded : Outcome → Type 0
    IsFounded o =
        (lines : List Bytes) × (response : Bytes) × (v : Verdict) × (rest : Bytes) × (cs : List
          Check)
        × (decision : Bool) × (fs : List Finding) × (ask lines ≡ some response)
        × (reject_duplicate_review_keys U.to_lower (tokens response) ≡ ok tt)
        × (decode response ≡ some (v, rest))
        × (is_end rest ≡ true)
        × (v.checks ≡ some cs)
        × (v.approved ≡ some decision)
        × (v.findings ≡ some fs)
        × Warrants content cs decision fs o

    -- A draft is approved only on a response without repeated names that decides for it, has no
    -- findings, and has for each of the five dimensions a check that passed, with a reason; it is
    -- rejected only on one that decides against it, has a check for each dimension, one of which
    -- failed, and findings, each with a reason and a quote that stands in the draft.
    pub review_sound :
        (o : Outcome) → review_action_text U tokens decode is_end ask content ≡ ok o → IsFounded o
    unfolding review_action_text
    review_sound o h =
        let (lines, e1, h1) = bind-ok (action_review_schema_for U content) _ o h in
        let (response, e2, h2) = bind-ok (answered (ask lines)) _ o h1 in
        let (_, e3, h3) =
          bind-ok (reject_duplicate_review_keys U.to_lower (tokens response)) _ o h2 in
        let (v, e4, h4) = bind-ok (read_verdict is_end (decode response)) _ o h3 in
        let (rest, e5, e6) = read_verdict-ok is_end (decode response) v e4 in
        let (cs, decision, fs, c, a, f, w) = judge-Warrants content v o h4 in
        (
          lines,
          response,
          v,
          rest,
          cs,
          decision,
          fs,
          answered-ok (ask lines) response e2,
          e3,
          e5,
          e6,
          c,
          a,
          f,
          w,
        )
