-- ===== src/Scheduler/Dedup/Prune.antt =====
-- What `pruneDedup` of pkg/scheduler/persist.go deletes is not missed: no later call is answered otherwise.
use soyaos.Prelude.{
  ℕ, ◌+◌, ◌≤◌, ◌≡◌, refl, ◌⊎◌, inl, inr, Bool, true, List, [], ◌∷◌, Option, none, some, Bytes,
  Result, ltb, bytes_eq_iff, arith, Bool-cases, is_ok, ◌&&◌, sym, ap, ◌∙◌, In,
}
use soyaos.Store.{Store, StoreError, same_cell, answer}
use soyaos.Scheduler.Dedup.{
  dedup_namespace, window, JobText, judge_time, judge, dedup_seen, prune_pair, prune_pairs, pruned,
  prune_dedup,
}

module _ (S : Store) (T : JobText) (key : Bytes) (now at : ℕ) (later : now ≤ at) where
  abbrev judged : Option Bytes → Result StoreError Bool
  judged o = judge S T at (answer o)

  seen-judged :
      (d : S.Db) → S.Reads d → dedup_seen S T d key at ≡ judged (S.find d dedup_namespace key)
  unfolding dedup_seen
  seen-judged d r = ap (judge S T at) (S.get_reads d dedup_namespace key r)

  -- A pair of the listing is still in the store, or gone from it.
  abbrev Listed : S.Db → Bytes × Bytes → Type 0
  Listed d (k, v) = (S.find d dedup_namespace k ≡ some v) ⊎ (S.find d dedup_namespace k ≡ none)

  stale_unseen :
      (v : Bytes) (t : ℕ)
      → T.parse v ≡ some t
      → ltb (t + window) now ≡ true
      → judged (some v) ≡ judged none
  unfolding judge judge_time
  stale_unseen v t p old = rw p (ground arith)

  delete_unseen :
      (d : S.Db) (k v : Bytes) (t : ℕ)
      → T.parse v ≡ some t
      → ltb (t + window) now ≡ true
      → Listed d (k, v)
      → judged (S.find (S.delete d dedup_namespace k).1 dedup_namespace key)
        ≡ judged (S.find d dedup_namespace key)
  delete_unseen d k v t p old h = elim (Bool-cases removed) [
    | inl gone ↦
        ap judged {y = none} (S.find-delete d dedup_namespace k dedup_namespace key ∙ rw gone refl)
        ∙ from_pair h (ap (S.find d dedup_namespace) ((bytes_eq_iff k key).0 (ground arith)))
    | inr kept ↦ ap judged (S.find-delete d dedup_namespace k dedup_namespace key ∙ rw kept refl)
  ]
    where
      removed : Bool
      removed =
          is_ok (S.delete d dedup_namespace k).0 && same_cell dedup_namespace k dedup_namespace key

      from_pair :
          Listed d (k, v)
          → S.find d dedup_namespace k ≡ S.find d dedup_namespace key
          → judged none ≡ judged (S.find d dedup_namespace key)
      from_pair (inl there) e = sym (stale_unseen v t p old) ∙ ap judged (sym there ∙ e)
      from_pair (inr missing) e = ap judged (sym missing ∙ e)

  delete-Listed :
      (d : S.Db) (k : Bytes) (q : Bytes × Bytes)
      → Listed d q
      → Listed (S.delete d dedup_namespace k).1 q
  delete-Listed d k (k', v') h =
      elim (Bool-cases (
        is_ok (S.delete d dedup_namespace k).0 && same_cell dedup_namespace k dedup_namespace k')) [
          | inl gone ↦ inr (S.find-delete d dedup_namespace k dedup_namespace k' ∙ rw gone refl)
          | inr kept ↦ rw (S.find-delete d dedup_namespace k dedup_namespace k', kept) h
        ]

  -- One round
  pair_unseen :
      (d : S.Db) (k v : Bytes) (o : Option ℕ)
      → T.parse v ≡ o
      → Listed d (k, v)
      → judged (S.find (prune_pair S T now k o d) dedup_namespace key)
        ≡ judged (S.find d dedup_namespace key)
  unfolding prune_pair
  pair_unseen d k v none p h = refl
  pair_unseen d k v (some t) p h = elim (Bool-cases (ltb (t + window) now)) [
    | inl old ↦ rw old (delete_unseen d k v t p old h)
    | inr fresh ↦ rw fresh refl
  ]

  pair-Listed :
      (d : S.Db) (k : Bytes) (o : Option ℕ) (q : Bytes × Bytes)
      → Listed d q
      → Listed (prune_pair S T now k o d) q
  unfolding prune_pair
  pair-Listed d k none q h = h
  pair-Listed d k (some t) q h = elim (Bool-cases (ltb (t + window) now)) [
    | inl old ↦ rw old (delete-Listed d k q h)
    | inr fresh ↦ rw fresh h
  ]

  pair-Reads :
      (d : S.Db) (k : Bytes) (o : Option ℕ) → S.Reads d → S.Reads (prune_pair S T now k o d)
  unfolding prune_pair
  pair-Reads d k none r = r
  pair-Reads d k (some t) r = elim (Bool-cases (ltb (t + window) now)) [
    | inl old ↦ rw old (S.reads_delete d dedup_namespace k r)
    | inr fresh ↦ rw fresh r
  ]

  pairs_unseen :
      (ps : List (Bytes × Bytes)) (d : S.Db)
      → S.Reads d
      → ((q : Bytes × Bytes) → In q ps → Listed d q)
      → S.Reads (prune_pairs S T now ps d)
        × (judged (S.find (prune_pairs S T now ps d) dedup_namespace key)
            ≡ judged (S.find d dedup_namespace key))
  unfolding prune_pairs
  pairs_unseen [] d r h = (r, refl)
  pairs_unseen ((k, v) ∷ ps) d r h =
      let d' = prune_pair S T now k (T.parse v) d in
      let rest =
        pairs_unseen ps d' (pair-Reads d k (T.parse v) r)
          (λ q m. pair-Listed d k (T.parse v) q (h q (inr m))) in
      (rest.0, rest.1 ∙ pair_unseen d k v (T.parse v) refl (h (k, v) (inl refl)))

-- Where reads do not fail, pruning at one time changes the answer to no question whether a key was
-- seen at that time or later.
pub prune_unseen :
    (S : Store) (T : JobText) (d : S.Db) (key : Bytes) (now at : ℕ)
    → S.Reads d
    → now ≤ at
    → dedup_seen S T (prune_dedup S T now d).1 key at ≡ dedup_seen S T d key at
unfolding prune_dedup pruned
prune_unseen S T d key now at r later =
    let (ps, listed) = S.list_reads d dedup_namespace [] r in
    let (r', same) =
      pairs_unseen S T key now at later ps d r
        (λ q m. inl (S.list_sound d dedup_namespace [] ps q.0 q.1 listed m).0) in
    rw listed
      (seen-judged S T key now at later _ r' ∙ same ∙ sym (seen-judged S T key now at later d r))
