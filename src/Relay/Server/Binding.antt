-- ===== src/Relay/Server/Binding.antt =====
-- The first address of a side stays, in pkg/mesh/relay/server.go.
use mathlib.Core.Option.{some-injective}
use soyaos.Prelude.{
  ℕ, ◌≡◌, refl, sym, ap, ◌∙◌, subst, inl, inr, Bool, true, false, List, [], ◌∷◌, Option, none, some,
  Bytes, bytes_eq, bytes_eq_iff, is_empty, length, leb, if◌then◌else◌, Bool-cases, arith,
}
use soyaos.Relay.Frame.{Side, moon, comet, other, decode_frame}
use soyaos.Relay.Token.{session_id, valid}
use soyaos.Relay.Server.{
  Address, Outside, Config, Datagram, Session, Server, address_of, set_address, find_session,
  put_session, stale, sweep, clean, drop_frame, count_forwarded, store, refill, allow, write_to,
  pass, route, same_address, bind, open_session, enter, admit, serve,
}

module _ (O : Outside) where
  pub find-put_session :
      (id k : Bytes) (s : Session O) (ss : List (Bytes × Session O))
      → find_session O id (put_session O k s ss)
        ≡ (if bytes_eq k id then some s else find_session O id ss)
  find-put_session id k s [] = refl
  find-put_session id k s ((j, t) ∷ ss) = ground (
    arith,
    find-put_session id k s ss,
    bytes_eq_iff j k,
    bytes_eq_iff j id,
    bytes_eq_iff k id,
    bytes_eq_iff k j,
  )

  -- The session of an identifier has an address for a side.
  unfoldable pub IsBound : Bytes → Side → Address → Server O → Type 0
  IsBound id side a st =
      (s : Session O) × (find_session O id st.sessions ≡ some s) × (address_of O side s ≡ some a)

  -- What is to hold of a session that is stored
  abbrev Fits : Bytes → Side → Address → Bytes → Session O → Type 0
  Fits id side a k s = bytes_eq k id ≡ true → address_of O side s ≡ some a

  store-IsBound :
      (id : Bytes) (side : Side) (a : Address) (k : Bytes) (s : Session O) (st : Server O)
      → IsBound id side a st
      → Fits id side a k s
      → IsBound id side a (store O k s st)
  unfolding IsBound
  store-IsBound id side a k s st (s', found, at) fits = elim (Bool-cases (bytes_eq k id)) [
    | inl same ↦ (s, find-put_session id k s st.sessions ∙ rw same refl, fits same)
    | inr apart ↦ (s', find-put_session id k s st.sessions ∙ rw apart found, at)
  ]

  address-seen :
      (side : Side) (s : Session O) (now : ℕ)
      → address_of O side (record s { last_seen = now }) ≡ address_of O side s
  address-seen moon s now = refl
  address-seen comet s now = refl

  address-allow :
      (side : Side) (c : Config) (size now : ℕ) (s : Session O)
      → address_of O side (allow O c size now s).1 ≡ address_of O side s
  unfolding allow refill
  address-allow moon c size now s = ground arith
  address-allow comet c size now s = ground arith

  address-set :
      (side side' : Side) (a : Address) (o : Option Address) (s : Session O)
      → address_of O side' s ≡ none
      → address_of O side s ≡ some a
      → address_of O side (set_address O side' o s) ≡ some a
  address-set moon moon a o s e h = cc
  address-set moon comet a o s e h = h
  address-set comet moon a o s e h = h
  address-set comet comet a o s e h = cc

  module _ (id : Bytes) (side : Side) (a : Address) (c : Config) (d : Datagram) (k : Bytes)
      (side' : Side) (payload : Bytes) where
    write-IsBound :
        (st : Server O) (o : Option Address)
        → IsBound id side a st
        → IsBound id side a (write_to O d payload st o).0
    unfolding IsBound write_to drop_frame count_forwarded
    write-IsBound st none h = h
    write-IsBound st (some b) h = elim (Bool-cases d.sent) [
      | inl sent ↦ rw sent h
      | inr lost ↦ rw lost h
    ]

    pass-IsBound :
        (st : Server O) (r : Bool × Session O)
        → IsBound id side a st
        → Fits id side a k r.1
        → IsBound id side a (pass O d k side' payload st r).0
    unfolding pass drop_frame IsBound
    pass-IsBound st (false, s) h fits = store-IsBound id side a k s st h fits
    pass-IsBound st (true, s) h fits =
        write-IsBound (store O k s st) (address_of O (other side') s)
          (store-IsBound id side a k s st h fits)

    route-IsBound :
        (st : Server O) (s : Session O)
        → IsBound id side a st
        → Fits id side a k s
        → IsBound id side a (route O c d k side' payload st s).0
    unfolding route
    route-IsBound st s h fits = elim (Bool-cases (is_empty payload)) [
      | inl registration ↦ rw registration (store-IsBound id side a k s st h fits)
      | inr data_frame ↦ rw data_frame (
          pass-IsBound st (allow O c (length payload) d.now s) h
            (λ e. address-allow side c (length payload) d.now s ∙ fits e))
    ]

    bind-IsBound :
        (st : Server O) (s : Session O) (o : Option Address)
        → address_of O side' s ≡ o
        → IsBound id side a st
        → Fits id side a k s
        → IsBound id side a (bind O c d k side' payload st s o).0
    unfolding bind drop_frame IsBound
    bind-IsBound st s none e h fits =
        route-IsBound st (set_address O side' d.source s) h
          (λ same. address-set side side' a d.source s e (fits same))
    bind-IsBound st s (some b) e h fits = elim (Bool-cases (same_address O b d.source)) [
      | inl known ↦ rw known (route-IsBound st s h fits)
      | inr stranger ↦ rw stranger (store-IsBound id side a k s st h fits)
    ]

  seen-Fits :
      (id : Bytes) (side : Side) (a : Address) (k : Bytes) (st : Server O) (s : Session O) (now : ℕ)
      → IsBound id side a st
      → find_session O k st.sessions ≡ some s
      → Fits id side a k (record s { last_seen = now })
  unfolding IsBound
  seen-Fits id side a k st s now (s', found, at) here same =
      let same_session : s ≡ s' =
        some-injective _ _ (
          sym here ∙ ap (λ i. find_session O i st.sessions) ((bytes_eq_iff k id).0 same) ∙ found) in
      address-seen side s now ∙ ap (address_of O side) same_session ∙ at

  fresh-Fits :
      (id : Bytes) (side : Side) (a : Address) (k : Bytes) (st : Server O) (s : Session O)
      → IsBound id side a st
      → find_session O k st.sessions ≡ none
      → Fits id side a k s
  unfolding IsBound
  fresh-Fits id side a k st s (s', found, at) missing same =
      let gone : find_session O id st.sessions ≡ none =
        subst (λ i. find_session O i st.sessions ≡ none) ((bytes_eq_iff k id).0 same) missing in
      cc

  enter-IsBound :
      (id : Bytes) (side : Side) (a : Address) (c : Config) (d : Datagram) (token : Bytes)
      (side' : Side) (payload : Bytes) (st : Server O) (o : Option (Session O))
      → find_session O (session_id token) st.sessions ≡ o
      → IsBound id side a st
      → IsBound id side a (enter O c d token side' payload st o).0
  unfolding enter open_session IsBound
  enter-IsBound id side a c d token side' payload st none e h =
      bind-IsBound id side a c d (session_id token) side' payload _ (open_session O c d.now token)
        none (opened side') h
        (fresh-Fits id side a (session_id token) st (open_session O c d.now token) h e)
    where
      opened : (x : Side) → address_of O x (open_session O c d.now token) ≡ none
      opened moon = refl
      opened comet = refl
  enter-IsBound id side a c d token side' payload st (some s) e h =
      bind-IsBound id side a c d (session_id token) side' payload st
        (record s { last_seen = d.now }) _ refl h
        (seen-Fits id side a (session_id token) st s d.now h e)

  admit-IsBound :
      (id : Bytes) (side : Side) (a : Address) (c : Config) (d : Datagram) (st : Server O)
      (o : Option (Bytes × Side × Bytes))
      → IsBound id side a st
      → IsBound id side a (admit O c d st o).0
  unfolding admit drop_frame IsBound
  admit-IsBound id side a c d st none h = h
  admit-IsBound id side a c d st (some (token, side', payload)) h =
      elim (Bool-cases (valid O.mac c.secret token d.now)) [
        | inl good ↦ rw good (
            enter-IsBound id side a c d token side' payload st
              (find_session O (session_id token) st.sessions) refl h)
        | inr bad ↦ rw bad h
      ]

  find-sweep :
      (c : Config) (now : ℕ) (id : Bytes) (s : Session O) (ss : List (Bytes × Session O))
      → find_session O id ss ≡ some s
      → stale O c now s ≡ false
      → find_session O id (sweep O c now ss).0 ≡ some s
  unfolding sweep
  find-sweep c now id s [] e live = e
  find-sweep c now id s ((k, t) ∷ ss) e live = elim (Bool-cases (bytes_eq k id)) [
    | inl here ↦ swept_here here
    | inr there ↦ ground (arith, find-sweep c now id s ss (ground arith) live)
  ]
    where
      swept_here : bytes_eq k id ≡ true → find_session O id (sweep O c now ((k, t) ∷ ss)).0 ≡ some s
      swept_here here =
          let same : t ≡ s = some-injective _ _ (rw here at e) in rw (same, live, here) refl

clean-IsBound :
    (O : Outside) (c : Config) (now : ℕ) (id : Bytes) (side : Side) (a : Address) (st : Server O)
    (s : Session O)
    → find_session O id st.sessions ≡ some s
    → address_of O side s ≡ some a
    → (leb st.next_cleanup now ≡ true → stale O c now s ≡ false)
    → IsBound O id side a (clean O c now st)
unfolding clean IsBound
clean-IsBound O c now id side a st s found at live = elim (Bool-cases (leb st.next_cleanup now)) [
  | inl due ↦ rw due (s, find-sweep O c now id s st.sessions found (live due), at)
  | inr not_due ↦ rw not_due (s, found, at)
]

-- No datagram changes the address that a side of a session has, unless it comes when the next
-- clean-up is due and the session is expired or was idle for too long.
pub serve-IsBound :
    (O : Outside) (c : Config) (d : Datagram) (id : Bytes) (side : Side) (a : Address)
    (st : Server O) (s : Session O)
    → find_session O id st.sessions ≡ some s
    → address_of O side s ≡ some a
    → (leb st.next_cleanup d.now ≡ true → stale O c d.now s ≡ false)
    → IsBound O id side a (serve O c d st).0
unfolding serve
serve-IsBound O c d id side a st s found at live =
    admit-IsBound O id side a c d (clean O c d.now st) (decode_frame d.frame)
      (clean-IsBound O c d.now id side a st s found at live)
