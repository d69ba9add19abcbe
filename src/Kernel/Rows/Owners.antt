-- ===== src/Kernel/Rows/Owners.antt =====
-- Whose rows `rowStateOwner` of pkg/kernel/state.go names: the parts of an owner are joined by slashes.
use mathlib.Core.List.{append_assoc}
use soyaos.Prelude.{◌≡◌, refl, false, [], ◌∷◌, ◌++◌, some, Bytes, codes, is_empty}
use soyaos.Store.{Store}
use soyaos.State.{Codec}
use soyaos.Soyapack.{Unicode}
use soyaos.Kernel.Agents.{Agent}
use soyaos.Kernel.Rows.{
  Workbook, user_of, declared_state, completion_state_owner, row_state_owner, load_row_payload,
}

user_owner :
    {H : Type 0} (agent : Agent H) (key user row : Bytes)
    → declared_state agent.manifest ≡ some (codes "user")
    → is_empty user ≡ false
    → row_state_owner agent (record { subject = user; key_id = key }) row
      ≡ (agent.slug ++ (codes "/" ++ user)) ++ (codes "/" ++ row)
unfolding row_state_owner completion_state_owner user_of
user_owner agent key user row e h = rw (e, h) refl

not_empty : (s t : Bytes) → is_empty s ≡ false → is_empty (s ++ t) ≡ false
not_empty [] t h = cc
not_empty (c ∷ s) t h = refl

-- Of an agent whose state is of the scope user, a caller whose subject is `s` loads, under the row
-- `t/r`, what the user whose subject is `s/t` loads under the row `r`.
pub load_row-shared :
    (U : Unicode) (S : Store) (J : Codec) (W : Workbook) {H : Type 0} (agent : Agent H)
    (user part row key key' : Bytes) (d : S.Db)
    → declared_state agent.manifest ≡ some (codes "user")
    → is_empty user ≡ false
    → load_row_payload U S J W agent
        (record { subject = user; key_id = key })
        (part ++ (codes "/" ++ row))
        d
      ≡ load_row_payload U S J W agent
          (record { subject = user ++ (codes "/" ++ part); key_id = key' })
          row
          d
unfolding load_row_payload
load_row-shared U S J W agent user part row key key' d e h =
    let one = user_owner agent key user (part ++ (codes "/" ++ row)) e h in
    let two =
      user_owner agent key' (user ++ (codes "/" ++ part)) row e
        (not_empty user (codes "/" ++ part) h) in
    rw (one, two) (rw joined refl)
  where
    joined :
        (agent.slug ++ (codes "/" ++ user)) ++ (codes "/" ++ (part ++ (codes "/" ++ row)))
        ≡ (agent.slug ++ (codes "/" ++ (user ++ (codes "/" ++ part)))) ++ (codes "/" ++ row)
    joined = simp (append_assoc)
