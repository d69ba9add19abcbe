-- ===== src/Store/Bolt/Tests.antt =====
-- The theorem about pkg/store/bolt.go on a file of one bucket that takes no changes.
use mathlib.Core.Option.{some-injective}
use soyaos.Prelude.{
  ◌≡◌, ◌↔◌, refl, subst, Bool, true, false, [], ◌∷◌, Option, none, some, Bytes, bytes_eq, codes, ok,
  has_prefix, In,
}
use soyaos.Store.Bolt.{Pairs, IsOrdered, Bolt, get, list, list_bucket}
use soyaos.Store.Bolt.Instance.{list_exact}

abbrev cells : Pairs
cells =
    (codes "a", codes "1")
    ∷ (codes "ab", codes "2")
    ∷ (codes "abc", codes "3")
    ∷ (codes "b", codes "4")
    ∷ []

abbrev bucket_of : Bool → Option Pairs
bucket_of true = some cells
bucket_of false = none

cells-IsOrdered : (b : Bool) (ps : Pairs) → bucket_of b ≡ some ps → IsOrdered ps
cells-IsOrdered true ps h =
    let same : cells ≡ ps = some-injective _ _ h in
    subst IsOrdered same ((refl, (refl, (refl, tt))), ((refl, (refl, tt)), ((refl, tt), (tt, tt))))
cells-IsOrdered false ps h = cc

abbrev file : Bolt
file = record {
  Disk = Unit {0};
  bucket = λ d ns. bucket_of (bytes_eq ns (codes "n"));
  can_view = λ d. true;
  update = λ d c. (false, d);
  Accepts = λ d ns k. ⊥;
  ordered = λ d ns ps h. cells-IsOrdered (bytes_eq ns (codes "n")) ps h;
  cell-update = λ d c ns k. refl;
  view-update = λ d c h. refl;
  accepts_set = λ d ns k v h. absurd h;
  accepts_update = λ d c ns k h. h;
}

abbrev listed : Pairs
listed = (codes "ab", codes "2") ∷ (codes "abc", codes "3") ∷ []

list_exact_example : In {A = Bytes × Bytes} (codes "abc", codes "3") listed ↔ (
    (get file tt (codes "n") (codes "abc") ≡ ok (codes "3"))
    × (has_prefix (codes "abc") (codes "ab") ≡ true))
unfolding list list_bucket
list_exact_example =
    list_exact file tt (codes "n") (codes "ab") listed (codes "abc") (codes "3") refl
