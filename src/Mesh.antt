-- ===== src/Mesh.antt =====
-- pkg/mesh: the routes to a peer: the choice from advertised data (pathselector.go), and the dialing of one route after
-- the other (fallback.go). Whether the i-th attempt of a transport connects, and whether the context is still alive
-- after it, are parameters.
pub mod Choice
mod Tests
use soyaos.Prelude.{
  ℕ, suc, Bool, true, false, ◌&&◌, not, List, [], ◌∷◌, ◌++◌, Option, none, some, Bytes, is_empty,
  Result, ok, err, if◌then◌else◌,
}

pub record PeerCandidate : Type 0 where
  pub peer_id : Bytes
  pub direct_addr : Bytes
  pub same_lan : Bool
  pub overlay_ip : Bytes
  pub public_hints : List Bytes

pub data Strategy : Type 0 where
  direct_lan overlay_wg planet_relay : Strategy

pub record PathChoice : Type 0 where
  pub strategy : Strategy
  pub endpoint : Bytes

pub data PathError : Type 0 where
  no_path : PathError

abbrev pub path : Strategy → Bytes → PathChoice
path s e = record { strategy = s; endpoint = e }

-- The address in the local network, and the identity where it is not set
abbrev pub lan_endpoint : PeerCandidate → Bytes
lan_endpoint c = if is_empty c.direct_addr then c.peer_id else c.direct_addr

pub first_hint : List Bytes → Result PathError PathChoice → Result PathError PathChoice
first_hint [] next = next
first_hint (h ∷ hs) next = ok (path planet_relay h)

-- `DefaultPathStrategy.Select`
unfoldable pub select : List PeerCandidate → Result PathError PathChoice
unfolding first_hint
select [] = err no_path
select (c ∷ cs) =
    let next = first_hint c.public_hints (select cs) in
    if c.same_lan
    then ok (path direct_lan (lan_endpoint c))
    else if not (is_empty c.overlay_ip)
    then ok (path overlay_wg c.overlay_ip)
    else next

abbrev pub path_if : Bool → Strategy → Bytes → List PathChoice
path_if b s e = if b && not (is_empty e) then path s e ∷ [] else []

pub hint_paths : List Bytes → List PathChoice
hint_paths [] = []
hint_paths (h ∷ hs) = path_if true planet_relay h ++ hint_paths hs

-- `candidatePaths`
unfoldable pub candidate_paths : PeerCandidate → List PathChoice
unfolding hint_paths
candidate_paths c =
    path_if c.same_lan direct_lan (lan_endpoint c)
    ++ (path_if true overlay_wg c.overlay_ip ++ hint_paths c.public_hints)

module _ {Conn : Type 0} (dial_route : ℕ → Bytes → Bytes → Option Conn) (alive : ℕ → Bool) where
  -- The loop of `Dial`
  unfoldable pub dial_each : ℕ → Bytes → List PathChoice → Result PathError (Conn × PathChoice)
  dial_each i peer [] = err no_path
  dial_each i peer (p ∷ ps) =
      after_attempt (dial_route i peer p.endpoint)
        (if alive i then dial_each (suc i) peer ps else err no_path)
    where
      after_attempt :
          Option Conn → Result PathError (Conn × PathChoice) → Result PathError (Conn × PathChoice)
      after_attempt none rest = rest
      after_attempt (some conn) rest = ok (conn, p)

  -- `FallbackDialer.Dial`, of a transport that is there
  unfoldable pub dial : PeerCandidate → Result PathError (Conn × PathChoice)
  unfolding dial_each
  dial c = dial_each 0 c.peer_id (candidate_paths c)
