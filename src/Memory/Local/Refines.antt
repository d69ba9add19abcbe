-- ===== src/Memory/Local/Refines.antt =====
-- `InMemory` of pkg/memory/memory.go meets the contract, for scopes and owners without a NUL byte.
use soyaos.Prelude.{
  ℕ, ◌≡◌, refl, sym, ap, ◌∙◌, inl, inr, Bool, true, not, ◌&&◌, List, [], ◌∷◌, ◌++◌, Option, none,
  some, Bytes, bytes_eq, bytes_eq_iff, ◌==◌, if◌then◌else◌, All, arith, Bool-cases, length,
  replicate,
}
use soyaos.Memory.{Entry}
use soyaos.Memory.Contract.{
  Place, same_place, Write, put_at, delete_at, target, written, changed, replay, answer,
}
use soyaos.Memory.Local.{Data, composite_key, find, remove, get, put, delete, perform, run, found}

abbrev pub no_nul : Bytes → Bool
no_nul [] = true
no_nul (c ∷ s) = not (c == 0) && no_nul s

abbrev pub is_plain : Place → Bool
is_plain (s, owner, k) = no_nul s && no_nul owner

nul_split :
    (s t x y : Bytes)
    → no_nul s ≡ true
    → no_nul t ≡ true
    → s ++ (0 ∷ x) ≡ t ++ (0 ∷ y)
    → (s ≡ t) × (x ≡ y)
nul_split [] [] x y h k e = (refl, cc)
nul_split [] (c ∷ t) x y h k e = let z : 0 ≡ c = cc in ground arith
nul_split (c ∷ s) [] x y h k e = let z : c ≡ 0 = cc in ground arith
nul_split (c ∷ s) (b ∷ t) x y h k e =
    let rest : s ++ (0 ∷ x) ≡ t ++ (0 ∷ y) = cc in
    let both = nul_split s t x y (ground arith) (ground arith) rest in (cc, both.1)

composite_key_injective :
    (s owner k s' owner' k' : Bytes)
    → is_plain (s, owner, k) ≡ true
    → is_plain (s', owner', k') ≡ true
    → composite_key s owner k ≡ composite_key s' owner' k'
    → (s ≡ s') × (owner ≡ owner') × (k ≡ k')
unfolding composite_key
composite_key_injective s owner k s' owner' k' h h' e =
    let first =
      nul_split s s' (owner ++ (0 ∷ k)) (owner' ++ (0 ∷ k')) (ground arith) (ground arith) e in
    let second = nul_split owner owner' k k' (ground arith) (ground arith) first.1 in
    (first.0, second.0, second.1)

same_key :
    (s owner k s' owner' k' : Bytes)
    → is_plain (s, owner, k) ≡ true
    → is_plain (s', owner', k') ≡ true
    → bytes_eq (composite_key s owner k) (composite_key s' owner' k')
      ≡ same_place (s, owner, k) (s', owner', k')
same_key s owner k s' owner' k' h h' =
    elim (Bool-cases (bytes_eq (composite_key s owner k) (composite_key s' owner' k'))) [
      | inl same ↦
          let (a, b, c) =
            composite_key_injective s owner k s' owner' k' h h' ((bytes_eq_iff _ _).0 same) in
          ground (arith, bytes_eq_iff s s', bytes_eq_iff owner owner', bytes_eq_iff k k')
      | inr apart ↦ elim (Bool-cases (same_place (s, owner, k) (s', owner', k'))) [
        | inl same ↦
            let a : s ≡ s' = ground (arith, bytes_eq_iff s s') in
            let b : owner ≡ owner' = ground (arith, bytes_eq_iff owner owner') in
            let c : k ≡ k' = ground (arith, bytes_eq_iff k k') in
            let keys : composite_key s owner k ≡ composite_key s' owner' k' = cc in
            ground
              (arith, (bytes_eq_iff (composite_key s owner k) (composite_key s' owner' k')).1 keys)
        | inr other ↦ apart ∙ sym other
      ]
    ]

find-remove :
    (id id' : Bytes) (m : Data)
    → find id (remove id' m) ≡ (if bytes_eq id' id then none else find id m)
unfolding find remove
find-remove id id' [] = ground arith
find-remove id id' ((k, e) ∷ m) = ground (
  arith,
  find-remove id id' m,
  bytes_eq_iff k id,
  bytes_eq_iff k id',
  bytes_eq_iff id' id,
  bytes_eq_iff id' k,
)

-- The entry that the map holds for a place
abbrev at : Data → Place → Option Entry
at m (s, owner, k) = find (composite_key s owner k) m

at-perform :
    (w : Write) (m : Data) (p : Place)
    → is_plain (target w) ≡ true
    → is_plain p ≡ true
    → at (perform w m) p ≡ changed w true (at m) p
unfolding put delete find
at-perform (put_at now e) m (s, owner, k) h h' = ground (
  arith,
  same_key e.scope e.owner e.key s owner k h h',
  find-remove (composite_key s owner k) (composite_key e.scope e.owner e.key) m,
)
at-perform (delete_at (s', owner', k')) m (s, owner, k) h h' = ground (
  arith,
  same_key s' owner' k' s owner k h h',
  find-remove (composite_key s owner k) (composite_key s' owner' k') m,
)

unfoldable pub all_done : List Write → List Bool
all_done ws = replicate (length ws) true

at-run :
    (ws : List Write) (m : Data) (f : Place → Option Entry) (p : Place)
    → All (λ w. is_plain (target w) ≡ true) ws
    → is_plain p ≡ true
    → ((q : Place) → is_plain q ≡ true → at m q ≡ f q)
    → at (run ws m) p ≡ replay ws (all_done ws) f p
unfolding replay all_done
at-run [] m f p h h' sim = sim p h'
at-run (w ∷ ws) m f p (h, hs) h' sim = at-run ws (perform w m) (changed w true f) p hs h' after
  where
    after : (q : Place) → is_plain q ≡ true → at (perform w m) q ≡ changed w true f q
    after q plain =
        at-perform w m q h plain
        ∙ ap (λ o. if true && same_place (target w) q then written w else o) (sim q plain)

-- After any writes to an empty memory, at places whose scope and owner hold no NUL byte, a read at
-- such a place answers as the function does that the same writes changed.
pub local_refines :
    (ws : List Write) (now : ℕ) (s owner k : Bytes)
    → All (λ w. is_plain (target w) ≡ true) ws
    → is_plain (s, owner, k) ≡ true
    → get now s owner k (run ws []) ≡ answer now (replay ws (all_done ws) (λ _. none) (s, owner, k))
unfolding get found find
local_refines ws now s owner k h h' =
    found_answers (find (composite_key s owner k) (run ws []))
    ∙ ap (answer now) (at-run ws [] (λ _. none) (s, owner, k) h h' (λ q _. refl))
  where
    found_answers : (o : Option Entry) → found now o ≡ answer now o
    found_answers none = refl
    found_answers (some e) = refl
