-- ===== src/Auth/Keys/Laws.antt =====
-- What minting and revoking keys of pkg/auth/store_backed.go does to the keys that verify.
use soyaos.Prelude.{
  ℕ, ◌≡◌, refl, sym, ap, ◌∙◌, inl, inr, true, false, not, ◌&&◌, List, [], ◌∷◌, Option, none, some,
  Bytes, bytes_eq, bytes_eq_refl, has_prefix, has_prefix-append, Result, ok, err, is_ok,
  if◌then◌else◌, if_yes, if_no, In, arith, Bool-cases, subst,
}
use soyaos.Store.{Store, StoreError, same_cell, answer}
use soyaos.Auth.{Identity, AuthError, invalid_key, key_prefix, hex, raw_key, identity, has_expired}
use soyaos.Auth.Keys.{
  namespace, texts, Codec, minted, put_identity, mint, unless_expired, resolved, verify, has_id,
  key_with_id, deleted, delete_found, revoke_from, revoke,
}

module _ (S : Store) (J : Codec) where
  -- What a key is worth, by its cell
  worth : ℕ → Bytes → Option Bytes → Result AuthError Identity
  unfolding resolved
  worth now key cell =
      if not (has_prefix key key_prefix) then err invalid_key else resolved S J now (answer cell)

  verify-worth :
      (now : ℕ) (key : Bytes) (d : S.Db)
      → S.Reads d
      → verify S J now key d ≡ worth now key (S.find d namespace key)
  unfolding verify worth
  verify-worth now key d h = rw (S.get_reads d namespace key h) refl

  minted-ok :
      (key : Bytes) (id : Identity) (r : Result StoreError (Unit {0}) × S.Db) (key' : Bytes)
      (id' : Identity)
      → (minted S J key id r).0 ≡ ok (key', id')
      → (is_ok r.0 ≡ true) × (key ≡ key') × (id ≡ id') × ((minted S J key id r).1 ≡ r.1)
  unfolding minted
  minted-ok key id (ok _, d) key' id' h = (refl, cc, cc, refl)
  minted-ok key id (err _, d) key' id' h = cc

  put_identity-ok :
      (key : Bytes) (id : Identity) (o : Option Bytes) (d : S.Db) (key' : Bytes) (id' : Identity)
      → (put_identity S J key id o d).0 ≡ ok (key', id')
      → (body : Bytes) × (o ≡ some body)
        × (key ≡ key')
        × (id ≡ id')
        × (S.find (put_identity S J key id o d).1 namespace key ≡ some body)
  unfolding put_identity
  put_identity-ok key id none d key' id' h = cc
  put_identity-ok key id (some body) d key' id' h =
      let (done, same_k, same_id, db) = minted-ok key id (S.put d namespace key body) key' id' h in
      (
        body,
        refl,
        same_k,
        same_id,
        rw db (
            rw (S.find-put d namespace key body namespace key)
              (ground (arith, done, bytes_eq_refl key))),
      )

  worth-some :
      (now : ℕ) (key body : Bytes) (id : Identity)
      → has_prefix key key_prefix ≡ true
      → J.unmarshal body ≡ some id
      → worth now key (some body) ≡ (if has_expired now id then err invalid_key else ok id)
  unfolding worth resolved unless_expired
  worth-some now key body id h e = if_no _ _ _ (ap not h) ∙ ap (unless_expired S J now) e

  minted_db :
      (key : Bytes) (id : Identity) (r : Result StoreError (Unit {0}) × S.Db)
      → (minted S J key id r).1 ≡ r.1
  unfolding minted
  minted_db key id (ok _, d) = refl
  minted_db key id (err _, d) = refl

  reads_put_identity :
      (key : Bytes) (id : Identity) (o : Option Bytes) (d : S.Db)
      → S.Reads d
      → S.Reads (put_identity S J key id o d).1
  unfolding put_identity
  reads_put_identity key id none d h = h
  reads_put_identity key id (some body) d h =
      rw (minted_db key id (S.put d namespace key body)) (S.reads_put d namespace key body h)

  verify-put_identity :
      (later : ℕ) (key : Bytes) (id : Identity) (d : S.Db) (key' : Bytes) (id' : Identity)
      → S.Reads d
      → has_prefix key key_prefix ≡ true
      → texts J.text id ≡ id
      → (put_identity S J key id (J.marshal id) d).0 ≡ ok (key', id')
      → verify S J later key (put_identity S J key id (J.marshal id) d).1
        ≡ (if has_expired later id then err invalid_key else ok id)
  verify-put_identity later key id d key' id' reads front kept h =
      let (body, m, _, _, cell) = put_identity-ok key id (J.marshal id) d key' id' h in
      let after = (put_identity S J key id (J.marshal id) d).1 in
      verify-worth later key after (reads_put_identity key id (J.marshal id) d reads)
      ∙ (ap (worth later key) cell
          ∙ worth-some later key body id front (J.unmarshal-marshal id body m ∙ ap some kept))

-- A key that `Mint` returned is resolved, whatever was in the store, to the identity that `Mint`
-- returned with it, unless its time has passed, and else it is invalid; reads do not fail, and the
-- strings of the identity come back from JSON as they were.
pub verify-mint :
    (S : Store) (J : Codec) (random : Option Bytes) (subject : Bytes) (scopes : List Bytes)
    (ttl now later : ℕ) (d : S.Db) (key : Bytes) (id : Identity)
    → S.Reads d
    → (mint S J random subject scopes ttl now d).0 ≡ ok (key, id)
    → texts J.text id ≡ id
    → verify S J later key (mint S J random subject scopes ttl now d).1
      ≡ (if has_expired later id then err invalid_key else ok id)
unfolding mint
verify-mint S J none subject scopes ttl now later d key id reads h kept = cc
verify-mint S J (some raw) subject scopes ttl now later d key id reads h kept =
    let key0 = raw_key raw in
    let id0 = identity raw subject scopes ttl now in
    let (_, _, same_k, same_id, _) = put_identity-ok S J key0 id0 (J.marshal id0) d key id h in
    let kept0 : texts J.text id0 ≡ id0 = subst (λ i. texts J.text i ≡ i) (sym same_id) kept in
    let there =
      verify-put_identity S J later key0 id0 d key id reads (has_prefix-append key_prefix (hex raw))
        kept0 h in
    subst
      (λ k.
        verify S J later k (put_identity S J key0 id0 (J.marshal id0) d).1
        ≡ (if has_expired later id then err invalid_key else ok id))
      same_k (there ∙ ap (λ i. if has_expired later i then err invalid_key else ok i) same_id)

module _ (S : Store) (J : Codec) where
  -- The key that the scan finds is one of the pairs, with the identifier.
  key_with_id-some :
      (key_id : Bytes) (ps : List (Bytes × Bytes)) (key : Bytes)
      → key_with_id S J key_id ps ≡ some key
      → (body : Bytes) × In {A = Bytes × Bytes} (key, body) ps
        × (has_id S J key_id (J.unmarshal body) ≡ true)
  unfolding key_with_id
  key_with_id-some key_id [] key h = cc
  key_with_id-some key_id ((k, v) ∷ ps) key h =
      elim (Bool-cases (has_id S J key_id (J.unmarshal v))) [
        | inl here ↦
            let same : ◌≡◌ {A = Option Bytes} (some k) (some key) = sym (if_yes _ _ _ here) ∙ h in
            let same_key : k ≡ key = cc in (v, inl (cc), here)
        | inr there ↦
            let (body, at, id) = key_with_id-some key_id ps key (sym (if_no _ _ _ there) ∙ h) in
            (body, inr at, id)
      ]

  deleted-ok :
      (r : Result StoreError (Unit {0}) × S.Db) → (deleted S J r).0 ≡ ok tt → is_ok r.0 ≡ true
  unfolding deleted
  deleted-ok (ok _, d) h = refl
  deleted-ok (err _, d) h = cc

  deleted_db : (r : Result StoreError (Unit {0}) × S.Db) → (deleted S J r).1 ≡ r.1
  unfolding deleted
  deleted_db (ok _, d) = refl
  deleted_db (err _, d) = refl

  worth-none : (now : ℕ) (key : Bytes) → worth S J now key none ≡ err invalid_key
  unfolding worth resolved
  worth-none now key = ground arith

  -- What a successful removal of a key leaves
  abbrev pub IsGone : S.Db → S.Db → Bytes → Type 0
  IsGone d d' key =
      ((now : ℕ) → verify S J now key d' ≡ err invalid_key)
      × ((now : ℕ) (other : Bytes)
          → bytes_eq key other ≡ false
          → verify S J now other d' ≡ verify S J now other d)

  deleted-IsGone :
      (d : S.Db) (key : Bytes)
      → S.Reads d
      → (deleted S J (S.delete d namespace key)).0 ≡ ok tt
      → IsGone d (deleted S J (S.delete d namespace key)).1 key
  deleted-IsGone d key reads h =
      let r = S.delete d namespace key in
      let done = deleted-ok r h in
      let reads' : S.Reads (deleted S J r).1 =
        rw (deleted_db r) (S.reads_delete d namespace key reads) in
      let cells : (other : Bytes)
          → S.find (deleted S J r).1 namespace other ≡ (
              if is_ok r.0 && same_cell namespace key namespace other
              then none
              else S.find d namespace other) =
        λ other. rw (deleted_db r) (S.find-delete d namespace key namespace other) in
      (
        λ now.
            verify-worth S J now key (deleted S J r).1 reads'
            ∙ (ap (worth S J now key) (cells key ∙ ground (arith, done, bytes_eq_refl key))
                ∙ worth-none now key),
        λ now other apart.
            verify-worth S J now other (deleted S J r).1 reads'
            ∙ (ap (worth S J now other) (cells other ∙ ground (arith, done, apart))
                ∙ sym (verify-worth S J now other d reads)),
      )

  -- What a `Revoke` has removed, and what it leaves
  abbrev pub HasRevoked : Bytes → S.Db → S.Db → Type 0
  HasRevoked key_id d d' =
      (key : Bytes) × (body : Bytes) × (S.find d namespace key ≡ some body)
      × (has_id S J key_id (J.unmarshal body) ≡ true)
      × IsGone d d' key

  revoke_from-HasRevoked :
      (key_id : Bytes) (d : S.Db) (ps : List (Bytes × Bytes)) (o : Option Bytes)
      → S.Reads d
      → S.list d namespace [] ≡ ok ps
      → key_with_id S J key_id ps ≡ o
      → (delete_found S J o d).0 ≡ ok tt
      → HasRevoked key_id d (delete_found S J o d).1
  unfolding delete_found
  revoke_from-HasRevoked key_id d ps none reads e k h = cc
  revoke_from-HasRevoked key_id d ps (some key) reads e k h =
      let (body, at, id) = key_with_id-some key_id ps key k in
      (
        key,
        body,
        (S.list_sound d namespace [] ps key body e at).0,
        id,
        deleted-IsGone d key reads h,
      )

  revoked :
      (key_id : Bytes) (d : S.Db) (r : Result StoreError (List (Bytes × Bytes)))
      → S.Reads d
      → S.list d namespace [] ≡ r
      → (revoke_from S J key_id r d).0 ≡ ok tt
      → HasRevoked key_id d (revoke_from S J key_id r d).1
  unfolding revoke_from
  revoked key_id d (ok ps) reads e h =
      revoke_from-HasRevoked key_id d ps (key_with_id S J key_id ps) reads e refl h
  revoked key_id d (err _) reads e h = cc

-- A `Revoke` that succeeds removes one key, whose identity has the identifier: the key is invalid
-- from then on, and every other key is resolved as before; reads do not fail.
pub revoke_one :
    (S : Store) (J : Codec) (key_id : Bytes) (d : S.Db)
    → S.Reads d
    → (revoke S J key_id d).0 ≡ ok tt
    → HasRevoked S J key_id d (revoke S J key_id d).1
unfolding revoke
revoke_one S J key_id d reads h = revoked S J key_id d (S.list d namespace []) reads refl h
