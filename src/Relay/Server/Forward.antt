-- ===== src/Relay/Server/Forward.antt =====
-- What pkg/mesh/relay/server.go forwards.
use mathlib.Core.Option.{some-injective}
use soyaos.Prelude.{
  ◌≡◌, refl, ◌∙◌, inl, inr, Bool, true, false, Option, none, some, Bytes, bytes_eq_refl, is_empty,
  length, Bool-cases,
}
use soyaos.Relay.Frame.{Side, other, decode_frame}
use soyaos.Relay.Token.{session_id, valid}
use soyaos.Relay.Server.{
  Address, Outside, Config, Datagram, Session, Server, Reply, address_of, set_address, clean,
  drop_frame, count_forwarded, store, allow, write_to, pass, route, same_address, bind, enter,
  admit, serve,
}
use soyaos.Relay.Server.Binding.{IsBound, find-put_session}

-- A reply that writes is one to the address of the other side, with the frame of the datagram, which is no registration.
pub IsForward : (O : Outside) → Datagram → Bytes → Side → Bytes → Reply O → Address → Bytes → Type 0
IsForward O d k side payload r b out =
    (out ≡ d.frame) × (is_empty payload ≡ false) × IsBound O k (other side) b r.0

module _ (O : Outside) (d : Datagram) (k : Bytes) (side : Side) (payload : Bytes) (b : Address)
    (out : Bytes) where
  write_sound :
      (st : Server O) (s : Session O) (o : Option Address)
      → address_of O (other side) s ≡ o
      → (write_to O d payload (store O k s st) o).1 ≡ some (b, out)
      → (out ≡ d.frame) × IsBound O k (other side) b (write_to O d payload (store O k s st) o).0
  unfolding write_to drop_frame count_forwarded IsBound
  write_sound st s none at e = cc
  write_sound st s (some a) at e = elim (Bool-cases d.sent) [
    | inl sent ↦
        let pair : ◌≡◌ {A = Address × Bytes} (a, d.frame) (b, out) =
          some-injective _ _ (kept sent) in
        rw sent (cc, (s, find-put_session O k k s st.sessions ∙ rw (bytes_eq_refl k) refl, cc))
    | inr lost ↦ cc
  ]
    where
      kept : d.sent ≡ true → ◌≡◌ {A = Option (Address × Bytes)} (some (a, d.frame)) (some (b, out))
      kept sent = rw sent at e

  pass_sound :
      (st : Server O) (r : Bool × Session O)
      → is_empty payload ≡ false
      → (pass O d k side payload st r).1 ≡ some (b, out)
      → IsForward O d k side payload (pass O d k side payload st r) b out
  unfolding pass IsForward
  pass_sound st (false, s) content e = cc
  pass_sound st (true, s) content e =
      let (same, bound) = write_sound st s (address_of O (other side) s) refl e in
      (same, content, bound)

  route_sound :
      (c : Config) (st : Server O) (s : Session O)
      → (route O c d k side payload st s).1 ≡ some (b, out)
      → IsForward O d k side payload (route O c d k side payload st s) b out
  unfolding route
  route_sound c st s e = elim (Bool-cases (is_empty payload)) [
    | inl registration ↦ absurd (no_reply registration)
    | inr content ↦
        rw content (pass_sound st (allow O c (length payload) d.now s) content (rw content at e))
  ]
    where
      no_reply : is_empty payload ≡ true → ⊥
      no_reply registration = let e' = rw registration at e in cc

  bind_sound :
      (c : Config) (st : Server O) (s : Session O) (o : Option Address)
      → (bind O c d k side payload st s o).1 ≡ some (b, out)
      → IsForward O d k side payload (bind O c d k side payload st s o) b out
  unfolding bind
  bind_sound c st s none e = route_sound c st (set_address O side d.source s) e
  bind_sound c st s (some a) e = elim (Bool-cases (same_address O a d.source)) [
    | inl known ↦ rw known (route_sound c st s (rw known at e))
    | inr stranger ↦ absurd (no_reply stranger)
  ]
    where
      no_reply : same_address O a d.source ≡ false → ⊥
      no_reply stranger = let e' = rw stranger at e in cc

module _ (O : Outside) (c : Config) (d : Datagram) (b : Address) (out : Bytes) where
  enter_sound :
      (token : Bytes) (side : Side) (payload : Bytes) (st : Server O) (o : Option (Session O))
      → (enter O c d token side payload st o).1 ≡ some (b, out)
      → IsForward O d (session_id token) side payload (enter O c d token side payload st o) b out
  unfolding enter
  enter_sound token side payload st none e =
      bind_sound O d (session_id token) side payload b out c _ _ none e
  enter_sound token side payload st (some s) e =
      bind_sound O d (session_id token) side payload b out c st _ _ e

  admit_sound :
      (st : Server O) (o : Option (Bytes × Side × Bytes))
      → (admit O c d st o).1 ≡ some (b, out)
      → (token : Bytes) × (side : Side) × (payload : Bytes) × (o ≡ some (token, side, payload))
        × (valid O.mac c.secret token d.now ≡ true)
        × IsForward O d (session_id token) side payload (admit O c d st o) b out
  unfolding admit
  admit_sound st none e = cc
  admit_sound st (some (token, side, payload)) e =
      elim (Bool-cases (valid O.mac c.secret token d.now)) [
        | inl good ↦ (
          token,
          side,
          payload,
          refl,
          good,
          rw good (enter_sound token side payload st _ (rw good at e)),
        )
        | inr bad ↦ absurd (no_reply bad)
      ]
    where
      no_reply : valid O.mac c.secret token d.now ≡ false → ⊥
      no_reply bad = let e' = rw bad at e in cc

-- What the server writes is a frame as it came, which carries a token that is valid then and a
-- payload, and it goes to the address that the session of the token has for the other side.
pub serve_sound :
    (O : Outside) (c : Config) (d : Datagram) (st : Server O) (b : Address) (out : Bytes)
    → (serve O c d st).1 ≡ some (b, out)
    → (token : Bytes) × (side : Side) × (payload : Bytes) × (decode_frame d.frame
        ≡ some (token, side, payload))
      × (valid O.mac c.secret token d.now ≡ true)
      × IsForward O d (session_id token) side payload (serve O c d st) b out
unfolding serve
serve_sound O c d st b out e = admit_sound O c d b out (clean O c d.now st) (decode_frame d.frame) e
