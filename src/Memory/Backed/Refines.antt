-- ===== src/Memory/Backed/Refines.antt =====
-- `StoreBacked` of pkg/memory/store_backed.go meets the contract, over any store and for any scopes, owners and keys.
use soyaos.Prelude.{
  ℕ, ◌≡◌, refl, sym, ap, ◌∙◌, inl, inr, Bool, true, false, ◌&&◌, List, [], ◌∷◌, Option, none, some,
  Bytes, bytes_eq, bytes_eq_iff, Result, ok, err, is_ok, if◌then◌else◌, All, arith, Bool-cases,
}
use soyaos.Store.{Store, StoreError, same_cell, answer}
use soyaos.Store.Key.{composite_key, composite_key_injective}
use soyaos.Memory.{Entry, MemoryError, bad_entry, completed, unless_expired}
use soyaos.Memory.Contract
use soyaos.Memory.Contract.{
  Place, place_of, same_place, Write, put_at, delete_at, target, written, changed, replay,
}
use soyaos.Memory.Backed.{
  namespace, texts, Codec, entry_key, decoded, fetched, get, finished, put_encoded, put, delete,
  perform, run, successes,
}

same_key :
    (s owner k s' owner' k' : Bytes)
    → bytes_eq (entry_key s owner k) (entry_key s' owner' k')
      ≡ same_place (s, owner, k) (s', owner', k')
same_key s owner k s' owner' k' =
    elim (Bool-cases (bytes_eq (entry_key s owner k) (entry_key s' owner' k'))) [
      | inl same ↦
          let parts =
            composite_key_injective (s ∷ owner ∷ k ∷ []) (s' ∷ owner' ∷ k' ∷ [])
              ((bytes_eq_iff _ _).0 same) in
          let a : s ≡ s' = cc in
          let b : owner ≡ owner' = cc in
          let c : k ≡ k' = cc in
          ground (arith, bytes_eq_iff s s', bytes_eq_iff owner owner', bytes_eq_iff k k')
      | inr apart ↦ elim (Bool-cases (same_place (s, owner, k) (s', owner', k'))) [
        | inl same ↦
            let a : s ≡ s' = ground (arith, bytes_eq_iff s s') in
            let b : owner ≡ owner' = ground (arith, bytes_eq_iff owner owner') in
            let c : k ≡ k' = ground (arith, bytes_eq_iff k k') in
            let keys : entry_key s owner k ≡ entry_key s' owner' k' = cc in
            ground (arith, (bytes_eq_iff (entry_key s owner k) (entry_key s' owner' k')).1 keys)
        | inr other ↦ apart ∙ sym other
      ]
    ]

abbrev pub parsed : Option Entry → Result MemoryError (Option Entry)
parsed none = err bad_entry
parsed (some e) = ok (some e)

-- What a cell of the store says
abbrev pub seen : Codec → Option Bytes → Result MemoryError (Option Entry)
seen J none = ok none
seen J (some b) = parsed (J.unmarshal b)

-- The strings of what a write stores come back from JSON as they were.
abbrev pub IsKept : Codec → Write → Type 0
IsKept J (put_at now e) = texts J.text (completed now e) ≡ completed now e
IsKept J (delete_at p) = Unit

module _ (S : Store) (J : Codec) where
  -- The store says of every place what the function does.
  abbrev pub Shows : S.Db → (Place → Option Entry) → Type 0
  Shows d f =
      (s owner k : Bytes) → seen J (S.find d namespace (entry_key s owner k)) ≡ ok (f (s, owner, k))

  seen-marshal :
      (e : Entry) (b : Bytes)
      → texts J.text e ≡ e
      → J.marshal e ≡ some b
      → seen J (some b) ≡ ok (some e)
  seen-marshal e b kept m = rw (J.unmarshal-marshal e b m, seen) (ap (λ x. ok (some x)) kept)

  seen_if :
      (b : Bool) (cell cell' : Option Bytes) (o o' : Option Entry)
      → seen J cell ≡ ok o
      → seen J cell' ≡ ok o'
      → seen J (if b then cell else cell') ≡ ok (if b then o else o')
  seen_if true cell cell' o o' h h' = h
  seen_if false cell cell' o o' h h' = h'

  finished_ok : (r : Result StoreError (Unit {0}) × S.Db) → is_ok (finished S J r).0 ≡ is_ok r.0
  unfolding finished
  finished_ok (ok _, d) = refl
  finished_ok (err _, d) = refl

  finished_db : (r : Result StoreError (Unit {0}) × S.Db) → (finished S J r).1 ≡ r.1
  unfolding finished
  finished_db (ok _, d) = refl
  finished_db (err _, d) = refl

  same_cell_key :
      (s owner k s' owner' k' : Bytes)
      → same_cell namespace (entry_key s owner k) namespace (entry_key s' owner' k')
        ≡ same_place (s, owner, k) (s', owner', k')
  same_cell_key s owner k s' owner' k' = same_key s owner k s' owner' k'

  Shows-put :
      (d : S.Db) (f : Place → Option Entry) (now : ℕ) (e : Entry) (o : Option Bytes)
      → J.marshal (completed now e) ≡ o
      → IsKept J (put_at now e)
      → Shows d f
      → (s owner k : Bytes)
      → seen J (S.find (put_encoded S J d (completed now e) o).1 namespace (entry_key s owner k))
        ≡ ok (
            changed
              (put_at now e)
              (is_ok (put_encoded S J d (completed now e) o).0)
              f
              (s, owner, k))
  unfolding put_encoded composite_key completed
  Shows-put d f now e none m kept sim s owner k = sim s owner k
  Shows-put d f now e (some b) m kept sim s owner k =
      let key = entry_key e.scope e.owner e.key in
      let r = S.put d namespace key b in
      rw (finished_db r) (
        rw (finished_ok r) (
          rw (S.find-put d namespace key b namespace (entry_key s owner k)) (
            rw (same_cell_key e.scope e.owner e.key s owner k) (
              seen_if (is_ok r.0 && same_place (place_of e) (s, owner, k)) (some b)
                (S.find d namespace (entry_key s owner k)) (some (completed now e))
                (f (s, owner, k)) (seen-marshal (completed now e) b kept m) (sim s owner k)))))

  Shows-delete :
      (d : S.Db) (f : Place → Option Entry) (s' owner' k' : Bytes)
      → Shows d f
      → (s owner k : Bytes)
      → seen J (S.find (delete S J d s' owner' k').1 namespace (entry_key s owner k))
        ≡ ok (
            changed
              (delete_at (s', owner', k'))
              (is_ok (delete S J d s' owner' k').0)
              f
              (s, owner, k))
  unfolding delete
  Shows-delete d f s' owner' k' sim s owner k =
      let r = S.delete d namespace (entry_key s' owner' k') in
      rw (finished_db r) (
        rw (finished_ok r) (
          rw (S.find-delete d namespace (entry_key s' owner' k') namespace (entry_key s owner k)) (
            rw (same_cell_key s' owner' k' s owner k) (
              seen_if (is_ok r.0 && same_place (s', owner', k') (s, owner, k)) none
                (S.find d namespace (entry_key s owner k)) none (f (s, owner, k)) refl
                (sim s owner k)))))

  Shows-perform :
      (w : Write) (d : S.Db) (f : Place → Option Entry)
      → IsKept J w
      → Shows d f
      → Shows (perform S J w d).1 (changed w (perform S J w d).0 f)
  unfolding put
  Shows-perform (put_at now e) d f kept sim s owner k =
      Shows-put d f now e (J.marshal (completed now e)) refl kept sim s owner k
  Shows-perform (delete_at (s', owner', k')) d f kept sim s owner k =
      Shows-delete d f s' owner' k' sim s owner k

  reads_put :
      (d : S.Db) (e : Entry) (o : Option Bytes) → S.Reads d → S.Reads (put_encoded S J d e o).1
  unfolding put_encoded composite_key
  reads_put d e none h = h
  reads_put d e (some b) h =
      let key = entry_key e.scope e.owner e.key in
      rw (finished_db (S.put d namespace key b)) (S.reads_put d namespace key b h)

  reads_perform : (w : Write) (d : S.Db) → S.Reads d → S.Reads (perform S J w d).1
  unfolding put delete
  reads_perform (put_at now e) d h = reads_put d (completed now e) (J.marshal (completed now e)) h
  reads_perform (delete_at (s', owner', k')) d h =
      let key = entry_key s' owner' k' in
      rw (finished_db (S.delete d namespace key)) (S.reads_delete d namespace key h)

  Shows-run :
      (ws : List Write) (d : S.Db) (f : Place → Option Entry)
      → All (IsKept J) ws
      → S.Reads d
      → Shows d f
      → S.Reads (run S J ws d) × Shows (run S J ws d) (replay ws (successes S J ws d) f)
  unfolding replay
  Shows-run [] d f kept h sim = (h, sim)
  Shows-run (w ∷ ws) d f (k, ks) h sim =
      Shows-run ws (perform S J w d).1 (changed w (perform S J w d).0 f) ks (reads_perform w d h)
        (Shows-perform w d f k sim)

  decoded-answer :
      (now : ℕ) (parse o : Option Entry)
      → parsed parse ≡ ok o
      → decoded S J now parse ≡ Contract.answer now o
  unfolding decoded
  decoded-answer now none o h = cc
  decoded-answer now (some e) none h = cc
  decoded-answer now (some e) (some e') h = let same : e ≡ e' = cc in ap (unless_expired now) same

  fetched-answer :
      (now : ℕ) (cell : Option Bytes) (o : Option Entry)
      → seen J cell ≡ ok o
      → fetched S J now (answer cell) ≡ Contract.answer now o
  unfolding fetched
  fetched-answer now none none h = refl
  fetched-answer now none (some e) h = cc
  fetched-answer now (some b) o h = decoded-answer now (J.unmarshal b) o h

-- After any writes to a store that holds no entry, a read at any place answers as the function
-- does that the same writes changed, those alone that the code reported as done, where reads of
-- the store do not fail and the strings of what is written come back from JSON as they were.
pub backed_refines :
    (S : Store) (J : Codec) (d : S.Db) (ws : List Write) (now : ℕ) (s owner k : Bytes)
    → S.Reads d
    → ((s' owner' k' : Bytes) → S.find d namespace (entry_key s' owner' k') ≡ none)
    → All (IsKept J) ws
    → get S J now (run S J ws d) s owner k
      ≡ Contract.answer now (replay ws (successes S J ws d) (λ _. none) (s, owner, k))
unfolding get
backed_refines S J d ws now s owner k h blank kept =
    let both =
      Shows-run S J ws d (λ _. none) kept h (λ s' owner' k'. rw (blank s' owner' k', seen)) in
    rw (S.get_reads (run S J ws d) namespace (entry_key s owner k) both.0) (
      fetched-answer S J now (S.find (run S J ws d) namespace (entry_key s owner k))
        (replay ws (successes S J ws d) (λ _. none) (s, owner, k)) (both.1 s owner k))
