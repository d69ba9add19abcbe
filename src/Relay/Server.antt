-- ===== src/Relay/Server.antt =====
-- pkg/mesh/relay/server.go: the routing of one datagram. A single loop owns the sessions, so the server is a sequence of
-- these steps. The arithmetic of float64, the seconds of a duration and the equality of IP addresses are parameters, as
-- is whether the write of a datagram succeeds. The counters wrap at 64 bits; a time is a count of nanoseconds.
pub mod Binding
pub mod Forward
mod Tests
use soyaos.Prelude.{
  ℕ, ◌+◌, ◌-◌, ◌*◌, ◌/◌, ◌%◌, ◌^◌, ◌≡◌, Bool, true, false, not, ◌||◌, ◌&&◌, List, [], ◌∷◌, Option,
  none, some, Bytes, bytes_eq, is_empty, length, ltb, leb, ◌==◌, if◌then◌else◌,
}
use soyaos.Relay.Frame.{Side, moon, comet, other, decode_frame}
use soyaos.Relay.Token.{expires_at, session_id, valid}

pub record Address : Type 0 where
  pub ip : Bytes
  pub port : ℕ
  pub zone : Bytes

pub record Outside : Type 1 where
  pub Float : Type 0
  pub of_int : ℕ → Float
  pub seconds_between : ℕ → ℕ → Float
  pub add : Float → Float → Float
  pub sub : Float → Float → Float
  pub mul : Float → Float → Float
  pub gt : Float → Float → Bool
  pub ip_equal : Bytes → Bytes → Bool
  pub mac : Bytes → Bytes → Bytes

pub record Config : Type 0 where
  pub secret : Bytes
  pub rate : ℕ
  pub burst : ℕ
  pub idle : ℕ

-- The counters, `Stats`
pub record Counters : Type 0 where
  pub forwarded_bytes : ℕ
  pub forwarded_frames : ℕ
  pub dropped_frames : ℕ
  pub active_sessions : ℕ

-- What `ReadFrom` gives, when, and whether a write would succeed. The source is `none` where it is no UDP address.
pub record Datagram : Type 0 where
  pub frame : Bytes
  pub source : Option Address
  pub now : ℕ
  pub sent : Bool

abbrev pub wrap : ℕ → ℕ
wrap n = n % 2 ^ 64

-- `minDuration(time.Minute, s.idle/2)`, and a minute where that is not positive
abbrev pub cleanup_interval : Config → ℕ
cleanup_interval c =
    let half = c.idle / 2 in
    let least = if ltb 60_000_000_000 half then 60_000_000_000 else half in
    if least == 0 then 60_000_000_000 else least

module _ (O : Outside) where
  pub record Session : Type 0 where
    pub moon_at : Option Address
    pub comet_at : Option Address
    pub expires : ℕ
    pub last_seen : ℕ
    pub tokens : O.Float
    pub last : ℕ

  pub record Server : Type 0 where
    pub sessions : List (Bytes × Session)
    pub next_cleanup : ℕ
    pub counters : Counters

  abbrev pub address_of : Side → Session → Option Address
  address_of moon s = s.moon_at
  address_of comet s = s.comet_at

  abbrev pub set_address : Side → Option Address → Session → Session
  set_address moon a s = record s { moon_at = a }
  set_address comet a s = record s { comet_at = a }

  abbrev pub find_session : Bytes → List (Bytes × Session) → Option Session
  find_session id [] = none
  find_session id ((k, s) ∷ ss) = if bytes_eq k id then some s else find_session id ss

  -- The session at an identifier, in place of the one that is there
  abbrev pub put_session : Bytes → Session → List (Bytes × Session) → List (Bytes × Session)
  put_session id s [] = (id, s) ∷ []
  put_session id s ((k, t) ∷ ss) =
      let rest = put_session id s ss in if bytes_eq k id then (k, s) ∷ ss else (k, t) ∷ rest

  -- Whether the clean-up deletes a session
  pub stale : Config → ℕ → Session → Bool
  stale c now s = leb s.expires now || ltb c.idle (now - s.last_seen)

  pub sweep : Config → ℕ → List (Bytes × Session) → List (Bytes × Session) × ℕ
  unfolding stale
  sweep c now [] = ([], 0)
  sweep c now ((k, s) ∷ ss) =
      let (rest, n) = sweep c now ss in if stale c now s then (rest, n + 1) else ((k, s) ∷ rest, n)

  pub clean : Config → ℕ → Server → Server
  unfolding sweep
  clean c now st =
      let (kept, n) = sweep c now st.sessions in
      if leb st.next_cleanup now
      then record st {
        sessions = kept;
        next_cleanup = now + cleanup_interval c;
        counters = record st.counters {
          active_sessions = wrap (st.counters.active_sessions + (2 ^ 64 - n % 2 ^ 64));
        };
      }
      else st

  pub drop_frame : Server → Server
  drop_frame st = record st {
    counters = record st.counters { dropped_frames = wrap (st.counters.dropped_frames + 1) };
  }

  pub count_forwarded : Bytes → Server → Server
  count_forwarded payload st = record st {
    counters = record st.counters {
      forwarded_frames = wrap (st.counters.forwarded_frames + 1);
      forwarded_bytes = wrap (st.counters.forwarded_bytes + length payload);
    };
  }

  abbrev pub store : Bytes → Session → Server → Server
  store id s st = record st { sessions = put_session id s st.sessions }

  -- The tokens of the bucket after the time since the last datagram
  pub refill : Config → ℕ → Session → Session
  refill c now s =
      let grown = O.add s.tokens (O.mul (O.seconds_between s.last now) (O.of_int c.rate)) in
      let limit = O.of_int c.burst in
      if ltb s.last now
      then record s { tokens = if O.gt grown limit then limit else grown; last = now }
      else s

  -- `tokenBucket.allow`
  pub allow : Config → ℕ → ℕ → Session → Bool × Session
  unfolding refill
  allow c size now s =
      let s' = refill c now s in
      if O.gt (O.of_int size) s'.tokens
      then (false, s')
      else (true, record s' { tokens = O.sub s'.tokens (O.of_int size) })

  abbrev pub Reply : Type 0
  Reply = Server × Option (Address × Bytes)

  -- The write to the destination
  pub write_to : Datagram → Bytes → Server → Option Address → Reply
  unfolding drop_frame count_forwarded
  write_to d payload st none = (drop_frame st, none)
  write_to d payload st (some a) =
      if d.sent then (count_forwarded payload st, some (a, d.frame)) else (drop_frame st, none)

  pub pass : Datagram → Bytes → Side → Bytes → Server → Bool × Session → Reply
  unfolding write_to
  pass d id side payload st (false, s) = (drop_frame (store id s st), none)
  pass d id side payload st (true, s) =
      write_to d payload (store id s st) (address_of (other side) s)

  -- A datagram whose address is that of its side
  pub route : Config → Datagram → Bytes → Side → Bytes → Server → Session → Reply
  unfolding pass allow
  route c d id side payload st s =
      if is_empty payload
      then (store id s st, none)
      else pass d id side payload st (allow c (length payload) d.now s)

  abbrev pub same_address : Address → Option Address → Bool
  same_address a none = false
  same_address a (some b) = a.port == b.port && (bytes_eq a.zone b.zone && O.ip_equal a.ip b.ip)

  pub bind : Config → Datagram → Bytes → Side → Bytes → Server → Session → Option Address → Reply
  unfolding route
  bind c d id side payload st s none = route c d id side payload st (set_address side d.source s)
  bind c d id side payload st s (some a) =
      if same_address a d.source
      then route c d id side payload st s
      else (drop_frame (store id s st), none)

  pub open_session : Config → ℕ → Bytes → Session
  open_session c now token = record {
    moon_at = none;
    comet_at = none;
    expires = expires_at token;
    last_seen = now;
    tokens = O.of_int c.burst;
    last = now;
  }

  pub enter : Config → Datagram → Bytes → Side → Bytes → Server → Option Session → Reply
  unfolding bind open_session
  enter c d token side payload st none =
      let s = open_session c d.now token in
      let st' = record st {
        counters = record st.counters { active_sessions = wrap (st.counters.active_sessions + 1) };
      } in
      bind c d (session_id token) side payload st' s none
  enter c d token side payload st (some s) =
      let s' = record s { last_seen = d.now } in
      bind c d (session_id token) side payload st s' (address_of side s')

  pub admit : Config → Datagram → Server → Option (Bytes × Side × Bytes) → Reply
  unfolding enter
  admit c d st none = (drop_frame st, none)
  admit c d st (some (token, side, payload)) =
      if valid O.mac c.secret token d.now
      then enter c d token side payload st (find_session (session_id token) st.sessions)
      else (drop_frame st, none)

  -- One round of the loop of `Serve`, from `ReadFrom` on: the server after it, and what it writes to whom.
  unfoldable pub serve : Config → Datagram → Server → Reply
  unfolding admit clean
  serve c d st = admit c d (clean c d.now st) (decode_frame d.frame)
