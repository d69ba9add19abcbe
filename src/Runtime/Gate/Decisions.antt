-- ===== src/Runtime/Gate/Decisions.antt =====
-- What the gate of pkg/runtime/gate.go lets through.
use soyaos.Prelude.{
  All, ℕ, ◌≡◌, refl, ◌↔◌, false, List, [], ◌∷◌, Bytes, Result, ok, err, ◌>>◌, is_ok, arith,
}
use soyaos.Runtime.Gate.{
  DeniedError, Caps, Access, each, check_egress, check_fs, check_fs_read, check_fs_write,
  check_exec, check_target, authorize,
}

-- The check lets it through.
abbrev pub IsAllowed : Result DeniedError (Unit {0}) → Type 0
IsAllowed r = r ≡ ok tt

seq-IsAllowed :
    (a b : Result DeniedError (Unit {0})) → IsAllowed (a >> b) ↔ (IsAllowed a × IsAllowed b)
seq-IsAllowed (ok u) b = (λ h. (refl, h), λ p. p.1)
seq-IsAllowed (err e) b = (λ h. cc, λ p. cc)

each-IsAllowed {ℓ} :
    {A : Type ℓ} (check : A → Result DeniedError (Unit {0})) (xs : List A)
    → IsAllowed (each check xs) ↔ All (λ x. IsAllowed (check x)) xs
each-IsAllowed check [] = (λ _. tt, λ _. refl)
each-IsAllowed check (x ∷ xs) =
    let s = seq-IsAllowed (check x) (each check xs) in
    let e = each-IsAllowed check xs in (λ h. ((s.0 h).0, e.0 (s.0 h).1), λ h. s.1 (h.0, e.1 h.1))

-- A request is authorized exactly when its program and every access that it names are allowed.
pub authorize_iff :
    (caps : Caps) (argv0 : Bytes) (access : Access)
    → IsAllowed (authorize caps argv0 access) ↔ (
        IsAllowed (check_exec caps argv0)
        × All (λ t. IsAllowed (check_egress caps t.host t.port t.proto)) access.network_out
        × All (λ p. IsAllowed (check_fs_read caps p)) access.fs_read
        × All (λ p. IsAllowed (check_fs_write caps p)) access.fs_write)
unfolding authorize
authorize_iff caps argv0 access =
    let net = each (check_target caps) access.network_out in
    let reads = each (check_fs_read caps) access.fs_read in
    let writes = each (check_fs_write caps) access.fs_write in
    let s1 = seq-IsAllowed (check_exec caps argv0) (net >> (reads >> writes)) in
    let s2 = seq-IsAllowed net (reads >> writes) in
    let s3 = seq-IsAllowed reads writes in
    let e1 = each-IsAllowed (check_target caps) access.network_out in
    let e2 = each-IsAllowed (check_fs_read caps) access.fs_read in
    let e3 = each-IsAllowed (check_fs_write caps) access.fs_write in
    (
      λ h.
          let a = s1.0 h in
          let b = s2.0 a.1 in let c = s3.0 b.1 in (a.0, e1.0 b.0, e2.0 c.0, e3.0 c.1),
      λ h. s1.1 (h.0, s2.1 (e1.1 h.1, s3.1 (e2.1 h.2, e3.1 h.3))),
    )

abbrev pub no_caps : Caps
no_caps = record { network_out = []; fs_read = []; fs_write = []; exec = [] }

-- Without capabilities every check of anything is a denial.
no_caps_denies :
    (host proto path argv0 : Bytes) (port : ℕ) (access : Access)
    → (is_ok (check_egress no_caps host port proto) ≡ false)
      × (is_ok (check_fs_read no_caps path) ≡ false)
      × (is_ok (check_fs_write no_caps path) ≡ false)
      × (is_ok (authorize no_caps argv0 access) ≡ false)
unfolding check_egress check_fs check_exec authorize
no_caps_denies host proto path argv0 port access = ground arith
