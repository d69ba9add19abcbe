-- ===== src/Runtime/Gate/Tests.antt =====
-- The gate of pkg/runtime/gate.go on small capabilities.
use soyaos.Prelude.{◌≡◌, refl, ◌⊎◌, ◌≢◌, true, [], ◌∷◌, Bytes, codes, ok, In}
use soyaos.Runtime.FilePath.{slash, split_path, clean_stack, is_abs, elements, clean, render, base}
use soyaos.Runtime.FilePath.Segments.{all_names, IsAncestor}
use soyaos.Runtime.Gate.{Caps, Access, check_egress, check_fs, check_exec, authorize}
use soyaos.Runtime.Gate.Paths.{check_fs_sound}

abbrev workdir : Bytes
workdir = codes "/workdir"

abbrev caps : Caps
caps = record {
  network_out = record { host = codes "*"; port = 443; proto = codes "https" } ∷ [];
  fs_read = workdir ∷ [];
  fs_write = workdir ∷ [];
  exec = codes "python3" ∷ [];
}

abbrev access : Access
access = record {
  network_out = record { host = codes "api.example"; port = 443; proto = codes "HTTPS" } ∷ [];
  fs_read = codes "/workdir/in/../a" ∷ [];
  fs_write = codes "/workdir" ∷ [];
}

inside : check_fs (codes "fs_read") (workdir ∷ []) (codes "/workdir/in/../a") ≡ ok tt
unfolding check_fs clean elements split_path clean_stack render
inside = refl

outside : check_fs (codes "fs_read") (workdir ∷ []) (codes "/workdir/../etc") ≢ ok tt
unfolding check_fs clean elements split_path clean_stack render
outside e = cc e

authorized : authorize caps (codes "/usr/bin/python3") access ≡ ok tt
unfolding authorize check_exec check_egress check_fs clean elements split_path clean_stack render
    base
authorized = refl

check_fs_sound_example :
    (is_abs (codes "/workdir/in/../a") ≡ true)
    × (all_names (elements (codes "/workdir/in/../a")) ≡ true)
    × ((root : Bytes) × In root (workdir ∷ [])
        × ((clean (codes "/workdir/in/../a") ≡ clean root)
            ⊎ ((is_abs root ≡ true)
                × IsAncestor (elements root) (elements (codes "/workdir/in/../a")))))
check_fs_sound_example =
    check_fs_sound (codes "fs_read") (workdir ∷ []) (codes "/workdir/in/../a") inside

itself : check_fs (codes "fs_read") ((slash ∷ []) ∷ []) (codes "/etc/..") ≡ ok tt
unfolding check_fs clean elements split_path clean_stack render
itself = refl
