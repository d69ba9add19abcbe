-- ===== src/State/History.antt =====
-- Versions over a history of calls on the entries of pkg/state/state.go.
use soyaos.Prelude.{
  All, ℕ, suc, ◌+◌, ◌%◌, ◌^◌, ◌<◌, ◌≡◌, sym, ap, inl, inr, ◌∙◌, true, List, [], ◌∷◌, Bytes, arith,
  ◌&&◌, if◌then◌else◌, Bool-cases,
}
use mathlib.Core.Bool.{decide}
use mathlib.Core.Path.{subst}
use native.Mathlib.Decide.{ℕ_discrete}
use soyaos.Store.{Store}
use soyaos.State.{Codec, bump, get, Call, put_call, swap_call, delete_call, target, perform}
use soyaos.State.Versions.{current}
use soyaos.State.Cells.{IsPlain}
use soyaos.State.Keeps.{reads-perform}
use soyaos.State.Isolation.{get-perform_ne, get-perform_err}
use soyaos.State.Swaps.{get-put, get-swap}

-- The call stores an entry: it is no `Delete`.
abbrev IsWrite : Call → Type 0
IsWrite (put_call now sc owner k value) = Unit
IsWrite (swap_call now sc owner k base value) = Unit
IsWrite (delete_call sc owner k) = ⊥

abbrev Place : Type 0
Place = Bytes × Bytes × Bytes

Place-discrete : Discrete Place
Place-discrete = hlevel ℕ_discrete

module _ (S : Store) (J : Codec) where
  -- The store after a history of calls.
  pub run : S.Db → List Call → S.Db
  run d [] = d
  run d (c ∷ cs) = run (perform S J d c).1 cs

  -- How many calls at a place succeeded.
  pub successes : Place → S.Db → List Call → ℕ
  successes p d [] = 0
  successes p d (c ∷ cs) =
      let rest = successes p (perform S J d c).1 cs in
      if (perform S J d c).0 && decide (Place-discrete (target c) p) then suc rest else rest

  abbrev version : S.Db → Place → ℕ
  version d p = current (get S J d p.0 p.1 p.2)

  version_of_success :
      (d : S.Db) (c : Call)
      → S.Reads d
      → IsWrite c
      → IsPlain J (target c).0 (target c).1 (target c).2
      → (perform S J d c).0 ≡ true
      → version (perform S J d c).1 (target c) ≡ bump (version d (target c))
  unfolding perform
  version_of_success d (put_call now sc owner key value) h k plain done =
      ap current (get-put S J d now sc owner key value h plain done)
  version_of_success d (swap_call now sc owner key base value) h k plain done =
      let (after, b) = get-swap S J d now sc owner key base value h plain done in
      ap current after ∙ ap bump (sym b)
  version_of_success d (delete_call sc owner key) h k plain done = elim k [ ]

  version_step_self :
      (d : S.Db) (c : Call)
      → S.Reads d
      → IsWrite c
      → IsPlain J (target c).0 (target c).1 (target c).2
      → version (perform S J d c).1 (target c)
        ≡ (if (perform S J d c).0 then bump (version d (target c)) else version d (target c))
  version_step_self d c h k plain = elim (Bool-cases (perform S J d c).0) [
    | inl done ↦ rw done (version_of_success d c h k plain done)
    | inr failed ↦
        rw failed
          (ap current (get-perform_err S J d c (target c).0 (target c).1 (target c).2 h failed))
  ]

  version_step :
      (d : S.Db) (c : Call) (p : Place)
      → S.Reads d
      → IsWrite c
      → IsPlain J p.0 p.1 p.2
      → version (perform S J d c).1 p ≡ (
          if (perform S J d c).0 && decide (Place-discrete (target c) p)
          then bump (version d p)
          else version d p)
  unfolding decide
  version_step d c p h k plain =
      elim (Place-discrete (target c) p)
        as (λ z.
          version (perform S J d c).1 p
          ≡ (if (perform S J d c).0 && decide z then bump (version d p) else version d p)) [
            | yes e ↦
                let self =
                  subst
                    (λ (q : Place).
                      IsPlain J q.0 q.1 q.2
                      → version (perform S J d c).1 q
                        ≡ (if (perform S J d c).0 then bump (version d q) else version d q))
                    e (version_step_self d c h k) plain in
                ground (arith, self)
            | no n ↦ ground (arith, ap current (get-perform_ne S J d c p.0 p.1 p.2 h n))
          ]

  -- Over any calls but `Delete`, whoever makes them, the version of an entry, below 2^64 at the
  -- start, counts the writes of it that succeeded, modulo 2^64, where reads do not fail and the
  -- JSON codec keeps the strings of the place.
  pub run-version :
      (d : S.Db) (cs : List Call) (p : Place)
      → S.Reads d
      → IsPlain J p.0 p.1 p.2
      → All IsWrite cs
      → version d p < 2 ^ 64
      → version (run d cs) p ≡ (version d p + successes p d cs) % 2 ^ 64
  unfolding run successes
  run-version d [] p h plain k v = omega arith
  run-version d (c ∷ cs) p h plain k v = ground (
    arith,
    version_step d c p h k.0 plain,
    run-version (perform S J d c).1 cs p (reads-perform S J d c h) plain k.1,
  )
