-- ===== src/Mesh/Tests.antt =====
-- The routes to one peer, of which only the second connects.
use soyaos.Prelude.{
  ℕ, ◌≡◌, refl, true, [], ◌∷◌, Option, none, some, Bytes, codes, bytes_eq, ok, err, if◌then◌else◌,
}
use soyaos.Mesh.{
  PeerCandidate, no_path, overlay_wg, path, select, candidate_paths, dial, dial_each, hint_paths,
}
use soyaos.Mesh.Choice.{
  first_path, all_paths, Connected, AllFailed, select-first_path, dial_sound, dial_failed,
}

abbrev comet : PeerCandidate
comet = record {
  peer_id = codes "comet";
  direct_addr = [];
  same_lan = true;
  overlay_ip = codes "10.0.0.2";
  public_hints = codes "1.2.3.4:5" ∷ [];
}

abbrev overlay_only : ℕ → Bytes → Bytes → Option ℕ
overlay_only i peer endpoint = if bytes_eq endpoint (codes "10.0.0.2") then some 7 else none

abbrev unreachable : ℕ → Bytes → Bytes → Option ℕ
unreachable i peer endpoint = none

select-first_path_example : select (comet ∷ []) ≡ first_path (all_paths (comet ∷ []))
select-first_path_example = select-first_path (comet ∷ []) (refl, tt)

dialed : dial overlay_only (λ _. true) comet ≡ ok (7, path overlay_wg (codes "10.0.0.2"))
unfolding dial dial_each candidate_paths hint_paths
dialed = refl

dial_sound_example :
    Connected overlay_only 0
      (codes "comet")
      (candidate_paths comet)
      7
      (path overlay_wg (codes "10.0.0.2"))
dial_sound_example =
    dial_sound overlay_only (λ _. true) comet 7 (path overlay_wg (codes "10.0.0.2")) dialed

no_route : dial unreachable (λ _. true) comet ≡ err no_path
unfolding dial dial_each candidate_paths hint_paths
no_route = refl

dial_failed_example : AllFailed unreachable 0 (codes "comet") (candidate_paths comet)
dial_failed_example = dial_failed unreachable (λ _. true) comet (λ _. refl) no_route
