-- ===== src/Store/Bolt/Contract.antt =====
-- What the contract of pkg/store/store.go asks of reads, of `Put` and of the pairs listed, for pkg/store/bolt.go.
use soyaos.Prelude.{
  ◌≡◌, refl, sym, ap, ◌∙◌, ◌⊎◌, inl, inr, Bool, true, false, ◌&&◌, [], ◌∷◌, Option, none, some,
  Bytes, bytes_eq, bytes_eq_iff, bytes_eq_refl, is_empty, has_prefix, Result, ok, err, is_ok, All,
  In, if◌then◌else◌, if_yes, if_no, arith, Bool-cases, subst,
}
use soyaos.Store.{StoreError, not_found, backend, answer, same_cell}
use soyaos.Store.Bolt.{
  bytes_lt, Pairs, IsOrdered, look_up, cell_of, set, Bolt, get, committed, put, list_bucket,
}
use soyaos.Store.Bolt.Scan.{with_prefix, scan-seek, bytes_lt_ne}

pub In-with_prefix :
    (p k v : Bytes) (ps : Pairs)
    → In {A = Bytes × Bytes} (k, v) (with_prefix p ps)
    → In {A = Bytes × Bytes} (k, v) ps × (has_prefix k p ≡ true)
In-with_prefix p k v [] h = absurd h
In-with_prefix p k v ((k', v') ∷ ps) h = elim (Bool-cases (has_prefix k' p)) [
  | inl with_it ↦
      let there : In {A = Bytes × Bytes} (k, v) ((k', v') ∷ with_prefix p ps) =
        subst (In {A = Bytes × Bytes} (k, v)) (if_yes _ _ _ with_it) h in
      elim there [
        | inl e ↦ let same : k ≡ k' = cc in (inl e, ap (λ x. has_prefix x p) same ∙ with_it)
        | inr i ↦ let (at, front) = In-with_prefix p k v ps i in (inr at, front)
      ]
  | inr without ↦
      let (at, front) =
        In-with_prefix p k v ps (subst (In {A = Bytes × Bytes} (k, v)) (if_no _ _ _ without) h) in
      (inr at, front)
]

In-if :
    (kv : Bytes × Bytes) (b : Bool) (q : Bytes × Bytes) (ps : Pairs)
    → In kv ps
    → In kv (if b then q ∷ ps else ps)
In-if kv true q ps h = inr h
In-if kv false q ps h = h

pub with_prefix-In :
    (p k v : Bytes) (ps : Pairs)
    → In {A = Bytes × Bytes} (k, v) ps
    → has_prefix k p ≡ true
    → In {A = Bytes × Bytes} (k, v) (with_prefix p ps)
with_prefix-In p k v [] h w = absurd h
with_prefix-In p k v ((k', v') ∷ ps) (inl e) w =
    let same : k ≡ k' = cc in
    subst (In {A = Bytes × Bytes} (k, v))
      (sym (if_yes _ _ _ (ap (λ x. has_prefix x p) (sym same) ∙ w))) (inl e)
with_prefix-In p k v ((k', v') ∷ ps) (inr h) w =
    In-if (k, v) (has_prefix k' p) (k', v') (with_prefix p ps) (with_prefix-In p k v ps h w)

-- In byte order each key stands once, so a look-up finds what the cursor goes through.
pub look_up-In :
    (k v : Bytes) (ps : Pairs) → look_up k ps ≡ some v → In {A = Bytes × Bytes} (k, v) ps
look_up-In k v [] h = cc
look_up-In k v ((k', v') ∷ ps) h = elim (Bool-cases (bytes_eq k' k)) [
  | inl same ↦
      let key : k' ≡ k = (bytes_eq_iff k' k).0 same in
      let found : ◌≡◌ {A = Option Bytes} (some v') (some v) = sym (if_yes _ _ _ same) ∙ h in
      inl (cc)
  | inr other ↦ inr (look_up-In k v ps (sym (if_no _ _ _ other) ∙ h))
]

after-In :
    (k k' v : Bytes) (ps : Pairs)
    → All (λ (q : Bytes × Bytes). bytes_lt k q.0 ≡ true) ps
    → In {A = Bytes × Bytes} (k', v) ps
    → bytes_lt k k' ≡ true
after-In k k' v [] h i = absurd i
after-In k k' v ((k0, v0) ∷ ps) (h, hs) (inl e) =
    let same : k' ≡ k0 = cc in ap (bytes_lt k) same ∙ h
after-In k k' v ((k0, v0) ∷ ps) (h, hs) (inr i) = after-In k k' v ps hs i

pub In-look_up :
    (k v : Bytes) (ps : Pairs)
    → IsOrdered ps
    → In {A = Bytes × Bytes} (k, v) ps
    → look_up k ps ≡ some v
In-look_up k v [] o h = absurd h
In-look_up k v ((k', v') ∷ ps) (after, o) (inl e) =
    let key : k ≡ k' = cc in
    let value : v ≡ v' = cc in
    if_yes _ _ _ (ap (λ x. bytes_eq x k) (sym key) ∙ bytes_eq_refl k) ∙ ap some (sym value)
In-look_up k v ((k', v') ∷ ps) (after, o) (inr h) =
    if_no _ _ _ (bytes_lt_ne k' k (after-In k' k v ps after h)) ∙ In-look_up k v ps o h

with_prefix_nil : (ps : Pairs) → with_prefix [] ps ≡ ps
with_prefix_nil [] = refl
with_prefix_nil ((k, v) ∷ ps) = ap (λ (r : Pairs). (k, v) ∷ r) (with_prefix_nil ps)

nil_prefix : (p : Bytes) (ps : Pairs) → is_empty p ≡ true → ps ≡ with_prefix p ps
nil_prefix [] ps h = sym (with_prefix_nil ps)
nil_prefix (c ∷ p) ps h = cc

pub list_bucket-eq :
    (p : Bytes) (ps : Pairs) → IsOrdered ps → list_bucket p (some ps) ≡ with_prefix p ps
unfolding list_bucket
list_bucket-eq p ps o = elim (Bool-cases (is_empty p)) [
  | inl bare ↦ if_yes _ _ _ bare ∙ nil_prefix p ps bare
  | inr full ↦ if_no _ _ _ full ∙ scan-seek p ps o
]

module _ (B : Bolt) where
  unfoldable pub find : B.Disk → Bytes → Bytes → Option Bytes
  find d ns k = cell_of k (B.bucket d ns)

  pub get_reads :
      (d : B.Disk) (ns k : Bytes) → B.can_view d ≡ true → get B d ns k ≡ answer (find d ns k)
  unfolding get find
  get_reads d ns k h = if_yes _ _ _ h

  answer-ok : (o : Option Bytes) (v : Bytes) → answer o ≡ ok v → o ≡ some v
  answer-ok o v h = ground arith

  answer-not_found : (o : Option Bytes) → answer o ≡ err not_found → o ≡ none
  answer-not_found o h = ground arith

  pub get_ok : (d : B.Disk) (ns k v : Bytes) → get B d ns k ≡ ok v → find d ns k ≡ some v
  unfolding get find
  get_ok d ns k v h = elim (Bool-cases (B.can_view d)) [
    | inl opens ↦ answer-ok (cell_of k (B.bucket d ns)) v (sym (if_yes _ _ _ opens) ∙ h)
    | inr shut ↦
        cc (h, if_no (B.can_view d) (answer (cell_of k (B.bucket d ns))) (err backend) shut)
  ]

  pub get_not_found :
      (d : B.Disk) (ns k : Bytes) → get B d ns k ≡ err not_found → find d ns k ≡ none
  unfolding get find
  get_not_found d ns k h = elim (Bool-cases (B.can_view d)) [
    | inl opens ↦ answer-not_found (cell_of k (B.bucket d ns)) (sym (if_yes _ _ _ opens) ∙ h)
    | inr shut ↦
        cc (h, if_no (B.can_view d) (answer (cell_of k (B.bucket d ns))) (err backend) shut)
  ]

  pub committed_ok : (r : Bool × B.Disk) → is_ok (committed B r).0 ≡ r.0
  committed_ok (true, d) = refl
  committed_ok (false, d) = refl

  pub committed_db : (r : Bool × B.Disk) → (committed B r).1 ≡ r.1
  committed_db (true, d) = refl
  committed_db (false, d) = refl

  pub if_and :
      (a b : Bool) (x y : Option Bytes)
      → (if a then (if b then x else y) else y) ≡ (if a && b then x else y)
  if_and true b x y = refl
  if_and false b x y = refl

  -- A write that is refused before its transaction, or the transaction
  pub put-cases :
      (d : B.Disk) (ns k v : Bytes)
      → (put B d ns k v ≡ (err backend, d))
        ⊎ (put B d ns k v ≡ committed B (B.update d (set ns k v)))
  unfolding put
  put-cases d ns k v = elim (Bool-cases (is_empty ns)) [
    | inl bare ↦ inl (if_yes _ _ _ bare)
    | inr full ↦ elim (Bool-cases (is_empty k)) [
      | inl no_key ↦ inl (if_no _ _ _ full ∙ if_yes _ _ _ no_key)
      | inr key ↦ inr (if_no _ _ _ full ∙ if_no _ _ _ key)
    ]
  ]

  abbrev HasPut :
      B.Disk
      → Bytes
      → Bytes
      → Bytes
      → Bytes
      → Bytes
      → Result StoreError (Unit {0}) × B.Disk
      → Type 0
  HasPut d ns k v ns' k' r =
      find r.1 ns' k' ≡ (if is_ok r.0 && same_cell ns k ns' k' then some v else find d ns' k')

  pub find-put : (d : B.Disk) (ns k v ns' k' : Bytes) → HasPut d ns k v ns' k' (put B d ns k v)
  unfolding find
  find-put d ns k v ns' k' = elim (put-cases d ns k v) [
    | inl refused ↦ subst (HasPut d ns k v ns' k') (sym refused) refl
    | inr done ↦
        let r = B.update d (set ns k v) in
        subst (HasPut d ns k v ns' k') (sym done) (
          rw (committed_db r) (
            rw (committed_ok r) (
              B.cell-update d (set ns k v) ns' k'
              ∙ if_and r.0 (same_cell ns k ns' k') (some v) (cell_of k' (B.bucket d ns')))))
  ]
