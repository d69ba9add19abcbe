-- ===== src/Store/Bolt/Instance.antt =====
-- The store in a bbolt file of pkg/store/bolt.go meets the contract of pkg/store/store.go.
use soyaos.Prelude.{
  ◌≡◌, refl, sym, ap, ◌∙◌, ◌↔◌, inl, inr, Bool, true, false, ◌&&◌, Option, none, some, Bytes,
  bytes_eq_iff, is_empty, has_prefix, Result, ok, err, is_ok, In, if◌then◌else◌, if_yes, if_no,
  arith, Bool-cases, ok-injective, subst,
}
use soyaos.Store.{Store, StoreError, backend, answer, same_cell}
use soyaos.Store.Bolt.{
  Pairs, cell_of, Change, nothing, set, unset, Bolt, get, committed, put, removal, delete,
  list_bucket, list,
}
use soyaos.Store.Bolt.Contract.{
  find, get_reads, get_ok, get_not_found, committed_ok, committed_db, if_and, find-put,
  list_bucket-eq, In-with_prefix, with_prefix-In, look_up-In, In-look_up, put-cases,
}

module _ (B : Bolt) where
  same_cell-none :
      (d : B.Disk) (ns k ns' k' : Bytes)
      → B.bucket d ns ≡ none
      → same_cell ns k ns' k' ≡ true
      → find B d ns' k' ≡ none
  unfolding find
  same_cell-none d ns k ns' k' e h =
      let same : ns ≡ ns' = (bytes_eq_iff ns ns').0 (ground (arith, h)) in
      ap (λ n. cell_of k' (B.bucket d n)) (sym same) ∙ ap (cell_of k') e

  none_if :
      (a b : Bool) (o : Option Bytes) → (b ≡ true → o ≡ none) → o ≡ (if a && b then none else o)
  none_if true true o h = h refl
  none_if true false o h = refl
  none_if false b o h = refl

  removal_effect :
      (d : B.Disk) (ns k ns' k' : Bytes) (o : Option Pairs)
      → B.bucket d ns ≡ o
      → find B (B.update d (removal B o ns k)).1 ns' k' ≡ (
          if (B.update d (removal B o ns k)).0 && same_cell ns k ns' k'
          then none
          else find B d ns' k')
  unfolding find
  removal_effect d ns k ns' k' none e =
      B.cell-update d nothing ns' k'
      ∙ (same_twice (B.update d nothing).0
          ∙ none_if (B.update d nothing).0 (same_cell ns k ns' k') (find B d ns' k')
              (same_cell-none d ns k ns' k' e))
    where
      same_twice :
          (b : Bool)
          → (if b then cell_of k' (B.bucket d ns') else cell_of k' (B.bucket d ns'))
            ≡ cell_of k' (B.bucket d ns')
      same_twice true = refl
      same_twice false = refl
  removal_effect d ns k ns' k' (some ps) e =
      B.cell-update d (unset ns k) ns' k'
      ∙ if_and B (B.update d (unset ns k)).0 (same_cell ns k ns' k') none
          (cell_of k' (B.bucket d ns'))

  find-delete :
      (d : B.Disk) (ns k ns' k' : Bytes)
      → find B (delete B d ns k).1 ns' k'
        ≡ (if is_ok (delete B d ns k).0 && same_cell ns k ns' k' then none else find B d ns' k')
  unfolding delete
  find-delete d ns k ns' k' =
      let r = B.update d (removal B (B.bucket d ns) ns k) in
      rw (committed_db B r)
        (rw (committed_ok B r) (removal_effect d ns k ns' k' (B.bucket d ns) refl))

  abbrev IsTaken : B.Disk → Bytes → Bytes → Type 0
  IsTaken d ns k = (is_empty ns ≡ false) × (is_empty k ≡ false) × B.Accepts d ns k

  committed-true : (r : Bool × B.Disk) → r.0 ≡ true → (committed B r).0 ≡ ok tt
  committed-true (true, d) h = refl
  committed-true (false, d) h = cc

  put_accepts : (d : B.Disk) (ns k v : Bytes) → IsTaken d ns k → (put B d ns k v).0 ≡ ok tt
  unfolding put
  put_accepts d ns k v (full, key, h) =
      ap (λ (x : Result StoreError (Unit {0}) × B.Disk). x.0) (if_no _ _ _ full ∙ if_no _ _ _ key)
      ∙ committed-true (B.update d (set ns k v)) (B.accepts_set d ns k v h)

  -- What an update keeps, a `Put` keeps.
  put_keeps :
      (P : B.Disk → Type 0) (d : B.Disk) (ns k v : Bytes)
      → ((c : Change) → P d → P (B.update d c).1)
      → P d
      → P (put B d ns k v).1
  put_keeps P d ns k v keeps h = elim (put-cases B d ns k v) [
    | inl refused ↦ subst (λ (x : Result StoreError (Unit {0}) × B.Disk). P x.1) (sym refused) h
    | inr done ↦
        subst (λ (x : Result StoreError (Unit {0}) × B.Disk). P x.1) (sym done)
          (subst P (sym (committed_db B (B.update d (set ns k v)))) (keeps (set ns k v) h))
  ]

  delete_keeps :
      (P : B.Disk → Type 0) (d : B.Disk) (ns k : Bytes)
      → ((c : Change) → P d → P (B.update d c).1)
      → P d
      → P (delete B d ns k).1
  unfolding delete
  delete_keeps P d ns k keeps h =
      let c = removal B (B.bucket d ns) ns k in
      subst P (sym (committed_db B (B.update d c))) (keeps c h)

  list-ok :
      (d : B.Disk) (ns p : Bytes) (ps : Pairs)
      → list B d ns p ≡ ok ps
      → list_bucket p (B.bucket d ns) ≡ ps
  unfolding list
  list-ok d ns p ps h = elim (Bool-cases (B.can_view d)) [
    | inl opens ↦ ok-injective (sym (if_yes _ _ _ opens) ∙ h)
    | inr shut ↦
        cc (h, if_no (B.can_view d) (ok (list_bucket p (B.bucket d ns))) (err backend) shut)
  ]

  bucket_sound :
      (d : B.Disk) (ns p k v : Bytes) (o : Option Pairs)
      → B.bucket d ns ≡ o
      → In {A = Bytes × Bytes} (k, v) (list_bucket p o)
      → (cell_of k o ≡ some v) × (has_prefix k p ≡ true)
  unfolding list_bucket
  bucket_sound d ns p k v none e h = absurd h
  bucket_sound d ns p k v (some ps) e h =
      let o = B.ordered d ns ps e in
      let (at, front) =
        In-with_prefix p k v ps (subst (In {A = Bytes × Bytes} (k, v)) (list_bucket-eq p ps o) h) in
      (In-look_up k v ps o at, front)

  bucket_complete :
      (d : B.Disk) (ns p k v : Bytes) (o : Option Pairs)
      → B.bucket d ns ≡ o
      → cell_of k o ≡ some v
      → has_prefix k p ≡ true
      → In {A = Bytes × Bytes} (k, v) (list_bucket p o)
  unfolding list_bucket
  bucket_complete d ns p k v none e h w = cc
  bucket_complete d ns p k v (some ps) e h w =
      subst (In {A = Bytes × Bytes} (k, v)) (sym (list_bucket-eq p ps (B.ordered d ns ps e)))
        (with_prefix-In p k v ps (look_up-In k v ps h) w)

  list_reads :
      (d : B.Disk) (ns p : Bytes) → B.can_view d ≡ true → (ps : Pairs) × (list B d ns p ≡ ok ps)
  unfolding list
  list_reads d ns p h = (list_bucket p (B.bucket d ns), if_yes _ _ _ h)

  bolt_store : Store
  unfolding find
  bolt_store = record {
    Db = B.Disk;
    find = find B;
    Reads = λ d. B.can_view d ≡ true;
    Accepts = IsTaken;
    get = get B;
    put = put B;
    delete = delete B;
    list = list B;
    get_reads = get_reads B;
    get_ok = get_ok B;
    get_not_found = get_not_found B;
    put_accepts = put_accepts;
    find-put = find-put B;
    find-delete = find-delete;
    reads_put = λ d ns k v h. put_keeps (λ e. B.can_view e ≡ true) d ns k v (B.view-update d) h;
    reads_delete = λ d ns k h. delete_keeps (λ e. B.can_view e ≡ true) d ns k (B.view-update d) h;
    accepts_put = λ d ns k v ns' k' (a, b, h).
        (a, b, put_keeps (λ e. B.Accepts e ns' k') d ns k v (λ c. B.accepts_update d c ns' k') h);
    accepts_delete = λ d ns k ns' k' (a, b, h).
        (a, b, delete_keeps (λ e. B.Accepts e ns' k') d ns k (λ c. B.accepts_update d c ns' k') h);
    list_reads = list_reads;
    list_sound = λ d ns p ps k v e h.
        bucket_sound d ns p k v (B.bucket d ns) refl
          (subst (In {A = Bytes × Bytes} (k, v)) (sym (list-ok d ns p ps e)) h);
    list_complete = λ d ns p ps k v e h w.
        subst (In {A = Bytes × Bytes} (k, v)) (list-ok d ns p ps e)
          (bucket_complete d ns p k v (B.bucket d ns) refl h w);
  }

opened :
    (B : Bolt) (d : B.Disk) (ns p : Bytes) (ps : Pairs)
    → list B d ns p ≡ ok ps
    → B.can_view d ≡ true
unfolding list
opened B d ns p ps h = elim (Bool-cases (B.can_view d)) [
  | inl opens ↦ opens
  | inr shut ↦ cc (h, if_no (B.can_view d) (ok (list_bucket p (B.bucket d ns))) (err backend) shut)
]

-- The pairs that `List` returns, where it does not fail, are those that `Get` reads under a key
-- with the prefix.
pub list_exact :
    (B : Bolt) (d : B.Disk) (ns p : Bytes) (ps : Pairs) (k v : Bytes)
    → list B d ns p ≡ ok ps
    → In {A = Bytes × Bytes} (k, v) ps ↔ ((get B d ns k ≡ ok v) × (has_prefix k p ≡ true))
unfolding find
list_exact B d ns p ps k v h =
    let opens = opened B d ns p ps h in
    (
      λ at.
          let (cell, front) =
            bucket_sound B d ns p k v (B.bucket d ns) refl
              (subst (In {A = Bytes × Bytes} (k, v)) (sym (list-ok B d ns p ps h)) at) in
          (get_reads B d ns k opens ∙ ap answer cell, front),
      λ both.
          subst (In {A = Bytes × Bytes} (k, v)) (list-ok B d ns p ps h)
            (bucket_complete B d ns p k v (B.bucket d ns) refl (get_ok B d ns k v both.0) both.1),
    )
