-- ===== src/Store/Memory.antt =====
-- A store that never fails, as an association list: it shows that the laws of the contract of
-- pkg/store/store.go can be met, and the tests run on it.
use mathlib.Core.Path.{subst}
use soyaos.Prelude.{
  sym, ap, Bool, true, false, ◌&&◌, ◌≡◌, refl, inl, inr, Option, none, some, List, [], ◌∷◌, Bytes,
  Result, ok, err, arith, bytes_eq, bytes_eq_iff, has_prefix, In, if◌then◌else◌, Bool-cases,
}
use soyaos.Store.{Store, StoreError, not_found, answer, same_cell}

abbrev Cells : Type 0
Cells = List (Bytes × Bytes × Bytes)

abbrev find : Cells → Bytes → Bytes → Option Bytes
find [] ns k = none
find ((ns', k', v) ∷ d) ns k = if same_cell ns' k' ns k then some v else find d ns k

abbrev without : Cells → Bytes → Bytes → Cells
without [] ns k = []
without ((ns', k', v) ∷ d) ns k =
    let rest = without d ns k in if same_cell ns k ns' k' then rest else (ns', k', v) ∷ rest

abbrev push : Bytes → Option Bytes → List (Bytes × Bytes) → List (Bytes × Bytes)
push k none ps = ps
push k (some v) ps = (k, v) ∷ ps

-- The pairs of a namespace, each with the value that a read finds.
abbrev pairs : Cells → Cells → Bytes → Bytes → List (Bytes × Bytes)
pairs all [] ns p = []
pairs all ((ns', k, v) ∷ d) ns p =
    let rest = pairs all d ns p in
    if bytes_eq ns' ns && has_prefix k p then push k (find all ns k) rest else rest

pub find-without :
    (d : Cells) (ns k ns' k' : Bytes)
    → find (without d ns k) ns' k' ≡ (if same_cell ns k ns' k' then none else find d ns' k')
find-without [] ns k ns' k' = ground arith
find-without ((n, j, v) ∷ d) ns k ns' k' = ground (
  arith,
  find-without d ns k ns' k',
  bytes_eq_iff n ns',
  bytes_eq_iff j k',
  bytes_eq_iff ns n,
  bytes_eq_iff k j,
  bytes_eq_iff ns ns',
  bytes_eq_iff k k',
)

if_sound :
    {G : Type 0} (kv : Bytes × Bytes) (b : Bool) (xs ys : List (Bytes × Bytes))
    → (b ≡ true → In kv xs → G)
    → (In kv ys → G)
    → In kv (if b then xs else ys)
    → G
if_sound kv true xs ys f g h = f refl h
if_sound kv false xs ys f g h = g h

push_sound :
    (all : Cells) (ns p k v j : Bytes) (o : Option Bytes) (rest : List (Bytes × Bytes))
    → find all ns j ≡ o
    → has_prefix j p ≡ true
    → (In {A = Bytes × Bytes} (k, v) rest → (find all ns k ≡ some v) × (has_prefix k p ≡ true))
    → In {A = Bytes × Bytes} (k, v) (push j o rest)
    → (find all ns k ≡ some v) × (has_prefix k p ≡ true)
push_sound all ns p k v j none rest e q f h = f h
push_sound all ns p k v j (some w) rest e q f (inl same) =
    let k_eq : k ≡ j = cc in let v_eq : v ≡ w = cc in (cc, cc)
push_sound all ns p k v j (some w) rest e q f (inr h) = f h

pub pairs_sound :
    (all d : Cells) (ns p k v : Bytes)
    → In {A = Bytes × Bytes} (k, v) (pairs all d ns p)
    → (find all ns k ≡ some v) × (has_prefix k p ≡ true)
pairs_sound all [] ns p k v h = absurd h
pairs_sound all ((n, j, w) ∷ d) ns p k v h =
    let rest = pairs all d ns p in
    let ih = pairs_sound all d ns p k v in
    if_sound (k, v) (bytes_eq n ns && has_prefix j p) (push j (find all ns j) rest) rest
      (λ c. push_sound all ns p k v j (find all ns j) rest refl (ground arith) ih) ih h

if_complete :
    (kv : Bytes × Bytes) (b : Bool) (xs ys : List (Bytes × Bytes))
    → In kv xs
    → (b ≡ false → In kv ys)
    → In kv (if b then xs else ys)
if_complete kv true xs ys f g = f
if_complete kv false xs ys f g = g refl

push_complete :
    (kv : Bytes × Bytes) (j : Bytes) (o : Option Bytes) (rest : List (Bytes × Bytes))
    → In kv rest
    → In kv (push j o rest)
push_complete kv j none rest h = h
push_complete kv j (some w) rest h = inr h

pub pairs_complete :
    (all d : Cells) (ns p k v w : Bytes)
    → find all ns k ≡ some v
    → has_prefix k p ≡ true
    → find d ns k ≡ some w
    → In {A = Bytes × Bytes} (k, v) (pairs all d ns p)
pairs_complete all [] ns p k v w h q e = cc
pairs_complete all ((n, j, u) ∷ d) ns p k v w h q e = elim (Bool-cases (same_cell n j ns k)) [
  | inl here ↦
      let n_eq : n ≡ ns = (bytes_eq_iff n ns).0 (ground arith) in
      let j_eq : j ≡ k = (bytes_eq_iff j k).0 (ground arith) in
      let key : find all ns j ≡ some v = rw j_eq h in
      let taken : (bytes_eq n ns && has_prefix j p) ≡ true =
        ground (arith, (bytes_eq_iff n ns).1 n_eq, ap (λ (x : Bytes). has_prefix x p) j_eq) in
      rw taken (rw key (inl (cc)))
  | inr there ↦
      let ih = pairs_complete all d ns p k v w h q (ground arith) in
      let rest = pairs all d ns p in
      if_complete (k, v) (bytes_eq n ns && has_prefix j p) (push j (find all ns j) rest) rest
        (push_complete (k, v) j (find all ns j) rest ih) (λ _. ih)
]

pub ok_injective :
    {ps qs : List (Bytes × Bytes)}
    → ◌≡◌ {A = Result StoreError (List (Bytes × Bytes))} (ok ps) (ok qs)
    → qs ≡ ps
ok_injective e = cc

pub get_ok : (o : Option Bytes) (v : Bytes) → answer o ≡ ok v → o ≡ some v
get_ok o v h = ground arith

pub get_not_found : (o : Option Bytes) → answer o ≡ err not_found → o ≡ none
get_not_found o h = ground arith

pub find-put :
    (d : Cells) (ns k v ns' k' : Bytes)
    → find ((ns, k, v) ∷ without d ns k) ns' k'
      ≡ (if true && same_cell ns k ns' k' then some v else find d ns' k')
find-put d ns k v ns' k' = ground (arith, find-without d ns k ns' k')

pub find-delete :
    (d : Cells) (ns k ns' k' : Bytes)
    → find (without d ns k) ns' k' ≡ (if true && same_cell ns k ns' k' then none else find d ns' k')
find-delete d ns k ns' k' = ground (arith, find-without d ns k ns' k')

abbrev pub memory : Store
memory = record {
  Db = Cells;
  find = find;
  Reads = λ d. Unit;
  Accepts = λ d ns k. Unit;
  get = λ d ns k. answer (find d ns k);
  put = λ d ns k v. (ok tt, (ns, k, v) ∷ without d ns k);
  delete = λ d ns k. (ok tt, without d ns k);
  list = λ d ns p. ok (pairs d d ns p);
  get_reads = λ d ns k h. refl;
  get_ok = λ d ns k v. get_ok (find d ns k) v;
  get_not_found = λ d ns k. get_not_found (find d ns k);
  put_accepts = λ d ns k v h. refl;
  find-put = find-put;
  find-delete = find-delete;
  reads_put = λ d ns k v h. tt;
  reads_delete = λ d ns k h. tt;
  accepts_put = λ d ns k v ns' k' h. tt;
  accepts_delete = λ d ns k ns' k' h. tt;
  list_reads = λ d ns p h. (pairs d d ns p, refl);
  list_sound = λ d ns p ps k v e h.
      pairs_sound d d ns p k v (subst (In {A = Bytes × Bytes} (k, v)) (ok_injective e) h);
  list_complete = λ d ns p ps k v e h q.
      subst (In {A = Bytes × Bytes} (k, v)) (sym (ok_injective e))
        (pairs_complete d d ns p k v v h q h);
}
