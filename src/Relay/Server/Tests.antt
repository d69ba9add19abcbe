-- ===== src/Relay/Server/Tests.antt =====
-- A server with one session, and one datagram of its moon.
use soyaos.Prelude.{
  ℕ, ◌≡◌, ◌+◌, ◌-◌, ◌*◌, refl, true, false, [], ◌∷◌, ◌++◌, Bytes, some, replicate, ltb, bytes_eq,
}
use soyaos.Relay.Frame.{Side, moon, other, encode_frame, decode_frame}
use soyaos.Prelude.BigEndian.{read_big_endian}
use soyaos.Relay.Token.{session_id, valid, expires_at}
use soyaos.Relay.Server.{
  Address, Outside, Config, Datagram, Session, Server, serve, admit, enter, bind, route, allow,
  refill, pass, write_to, count_forwarded, clean, sweep, stale,
}
use soyaos.Relay.Server.Binding.{IsBound, serve-IsBound}
use soyaos.Relay.Server.Forward.{IsForward, serve_sound}

abbrev outside : Outside
outside = record {
  Float = ℕ;
  of_int = λ n. n;
  seconds_between = λ t u. u - t;
  add = λ x y. x + y;
  sub = λ x y. x - y;
  mul = λ x y. x * y;
  gt = λ x y. ltb y x;
  ip_equal = bytes_eq;
  mac = λ secret message. secret;
}

abbrev config : Config
config = record { secret = replicate 32 5; rate = 100; burst = 1000; idle = 600_000_000_000 }

-- It expires at 9 seconds.
abbrev token : Bytes
token = (replicate 7 0 ++ (9 ∷ replicate 16 3)) ++ replicate 32 5

abbrev home : Address
home = record { ip = 10 ∷ 1 ∷ []; port = 4000; zone = [] }

abbrev away : Address
away = record { ip = 10 ∷ 2 ∷ []; port = 4001; zone = [] }

abbrev session : Session outside
session = record {
  moon_at = some home;
  comet_at = some away;
  expires = 9_000_000_000;
  last_seen = 1_000_000_000;
  tokens = 1000;
  last = 1_000_000_000;
}

abbrev server : Server outside
server = record {
  sessions = (replicate 16 3, session) ∷ [];
  next_cleanup = 60_000_000_000;
  counters = record {
    forwarded_bytes = 0;
    forwarded_frames = 0;
    dropped_frames = 0;
    active_sessions = 1;
  };
}

abbrev datagram : Datagram
datagram = record {
  frame = encode_frame token moon (1 ∷ 2 ∷ []);
  source = some home;
  now = 2_000_000_000;
  sent = true;
}

forwarded :
    (serve outside config datagram server).1 ≡ some (away, encode_frame token moon (1 ∷ 2 ∷ []))
unfolding serve admit enter bind route allow refill pass write_to count_forwarded other clean sweep
    stale valid expires_at read_big_endian session_id decode_frame encode_frame
forwarded = refl

serve_sound_example :
    (t : Bytes) × (side : Side) × (payload : Bytes) × (decode_frame datagram.frame
      ≡ some (t, side, payload))
    × (valid outside.mac config.secret t datagram.now ≡ true)
    × IsForward outside datagram
        (session_id t)
        side
        payload
        (serve outside config datagram server)
        away
        (encode_frame token moon (1 ∷ 2 ∷ []))
serve_sound_example =
    serve_sound outside config datagram server away (encode_frame token moon (1 ∷ 2 ∷ [])) forwarded

-- The same datagram from elsewhere
abbrev stolen : Datagram
stolen = record datagram { source = some away }

session_live : stale outside config 2_000_000_000 session ≡ false
unfolding stale
session_live = refl

serve-IsBound_example :
    IsBound outside (replicate 16 3) moon home (serve outside config stolen server).0
serve-IsBound_example =
    serve-IsBound outside config stolen (replicate 16 3) moon home server session refl refl
      (λ _. session_live)
