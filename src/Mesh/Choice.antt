-- ===== src/Mesh/Choice.antt =====
-- Which route pkg/mesh chooses, and which it dials.
use soyaos.Prelude.{
  ℕ, suc, ◌≡◌, refl, ap, ◌∙◌, inl, inr, ◌⊎◌, Bool, true, false, ◌&&◌, not, List, [], ◌∷◌, ◌++◌,
  Option, none, some, Bytes, is_empty, Result, ok, err, if◌then◌else◌, Bool-cases, Option-cases,
  arith, All,
}
use soyaos.Mesh.{
  PeerCandidate, direct_lan, overlay_wg, PathChoice, PathError, no_path, path, lan_endpoint,
  first_hint, select, path_if, hint_paths, candidate_paths, dial_each, dial,
}

abbrev pub first_path : List PathChoice → Result PathError PathChoice
first_path [] = err no_path
first_path (p ∷ ps) = ok p

abbrev pub all_paths : List PeerCandidate → List PathChoice
all_paths [] = []
all_paths (c ∷ cs) = candidate_paths c ++ all_paths cs

abbrev pub no_empty : List Bytes → Bool
no_empty [] = true
no_empty (h ∷ hs) = not (is_empty h) && no_empty hs

-- Every address that the candidate advertises is set.
abbrev pub is_addressed : PeerCandidate → Bool
is_addressed c = not (is_empty c.peer_id) && no_empty c.public_hints

hints_first :
    (hs : List Bytes) (next : Result PathError PathChoice) (ps : List PathChoice)
    → no_empty hs ≡ true
    → next ≡ first_path ps
    → first_hint hs next ≡ first_path (hint_paths hs ++ ps)
unfolding first_hint hint_paths
hints_first [] next ps n e = e
hints_first ([] ∷ hs) next ps n e = cc
hints_first ((b ∷ h) ∷ hs) next ps n e = refl

-- The choice for one candidate, by its parts
choice_first :
    (lan : Bool) (e o : Bytes) (hs : List Bytes) (next : Result PathError PathChoice)
    (ps : List PathChoice)
    → is_empty e ≡ false
    → no_empty hs ≡ true
    → next ≡ first_path ps
    → (if lan
        then ok (path direct_lan e)
        else if not (is_empty o)
        then ok (path overlay_wg o)
        else first_hint hs next)
      ≡ first_path
          ((path_if lan direct_lan e ++ (path_if true overlay_wg o ++ hint_paths hs)) ++ ps)
choice_first true e o hs next ps set n h = rw set refl
choice_first false e [] hs next ps set n h = hints_first hs next ps n h
choice_first false e (b ∷ o) hs next ps set n h = refl

lan_endpoint_set : (c : PeerCandidate) → is_addressed c ≡ true → is_empty (lan_endpoint c) ≡ false
lan_endpoint_set c a = elim (Bool-cases (is_empty c.direct_addr)) [
  | inl unset ↦ ground arith
  | inr set ↦ rw (set, set) refl
]

-- If every candidate has an identity and no empty hint, `Select` chooses the first of the routes
-- that `candidatePaths` lists for the candidates in order, and fails exactly if there is none.
pub select-first_path :
    (cs : List PeerCandidate)
    → All (λ c. is_addressed c ≡ true) cs
    → select cs ≡ first_path (all_paths cs)
unfolding select candidate_paths first_hint hint_paths
select-first_path [] h = refl
select-first_path (c ∷ cs) (a, h) =
    choice_first c.same_lan (lan_endpoint c) c.overlay_ip c.public_hints (select cs) (all_paths cs)
      (lan_endpoint_set c a) (ground arith) (select-first_path cs h)

-- A dial over a list of routes: the route that connected, and the failures of those before it
abbrev pub Connected :
    {Conn : Type 0}
    → (ℕ → Bytes → Bytes → Option Conn)
    → ℕ
    → Bytes
    → List PathChoice
    → Conn
    → PathChoice
    → Type 0
Connected dial_route i peer [] conn p = ⊥
Connected dial_route i peer (q ∷ ps) conn p =
    ((q ≡ p) × (dial_route i peer q.endpoint ≡ some conn))
    ⊎ ((dial_route i peer q.endpoint ≡ none) × Connected dial_route (suc i) peer ps conn p)

abbrev pub AllFailed :
    {Conn : Type 0} → (ℕ → Bytes → Bytes → Option Conn) → ℕ → Bytes → List PathChoice → Type 0
AllFailed dial_route i peer [] = Unit
AllFailed dial_route i peer (q ∷ ps) =
    (dial_route i peer q.endpoint ≡ none) × AllFailed dial_route (suc i) peer ps

module _ {Conn : Type 0} (dial_route : ℕ → Bytes → Bytes → Option Conn) (alive : ℕ → Bool) where
  dial_each_sound :
      (i : ℕ) (peer : Bytes) (ps : List PathChoice) (conn : Conn) (p : PathChoice)
      → dial_each dial_route alive i peer ps ≡ ok (conn, p)
      → Connected dial_route i peer ps conn p
  unfolding dial_each
  dial_each_sound i peer [] conn p e = cc
  dial_each_sound i peer (q ∷ ps) conn p e = elim (Option-cases (dial_route i peer q.endpoint)) [
    | inl failed ↦ elim (Bool-cases (alive i)) [
      | inl going ↦ inr (failed, dial_each_sound (suc i) peer ps conn p (rw (failed, going) at e))
      | inr done ↦ let e' = rw (failed, done) at e in cc
    ]
    | inr (conn', made) ↦
        let e' : ◌≡◌ {A = Result PathError (Conn × PathChoice)} (ok (conn', q)) (ok (conn, p)) =
          rw made at e in
        let same : ◌≡◌ {A = Conn × PathChoice} (conn', q) (conn, p) = cc in
        inl (ap (λ r. r.1) same, made ∙ ap (λ r. some r.0) same)
  ]

  dial_each_failed :
      (i : ℕ) (peer : Bytes) (ps : List PathChoice)
      → ((n : ℕ) → alive n ≡ true)
      → dial_each dial_route alive i peer ps ≡ err no_path
      → AllFailed dial_route i peer ps
  unfolding dial_each
  dial_each_failed i peer [] all e = tt
  dial_each_failed i peer (q ∷ ps) all e = elim (Option-cases (dial_route i peer q.endpoint)) [
    | inl failed ↦ (failed, dial_each_failed (suc i) peer ps all (rw (failed, all i) at e))
    | inr (conn', made) ↦ let e' = rw made at e in cc
  ]

-- The connection that `Dial` returns is that of a route of `candidatePaths`, and every route
-- before it was tried, in order, and failed.
pub dial_sound :
    {Conn : Type 0} (dial_route : ℕ → Bytes → Bytes → Option Conn) (alive : ℕ → Bool)
    (c : PeerCandidate) (conn : Conn) (p : PathChoice)
    → dial dial_route alive c ≡ ok (conn, p)
    → Connected dial_route 0 c.peer_id (candidate_paths c) conn p
unfolding dial
dial_sound dial_route alive c conn p e =
    dial_each_sound dial_route alive 0 c.peer_id (candidate_paths c) conn p e

-- While the context is alive, `Dial` fails only after every route of `candidatePaths` was tried
-- and failed.
pub dial_failed :
    {Conn : Type 0} (dial_route : ℕ → Bytes → Bytes → Option Conn) (alive : ℕ → Bool)
    (c : PeerCandidate)
    → ((n : ℕ) → alive n ≡ true)
    → dial dial_route alive c ≡ err no_path
    → AllFailed dial_route 0 c.peer_id (candidate_paths c)
unfolding dial
dial_failed dial_route alive c all e =
    dial_each_failed dial_route alive 0 c.peer_id (candidate_paths c) all e
