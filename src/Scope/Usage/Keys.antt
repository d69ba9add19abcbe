-- ===== src/Scope/Usage/Keys.antt =====
-- The keys of the live rows, of pkg/scope/usage_aggregator.go: `bucketKey` tells the rows apart where the API key and
-- the agent hold no bar.
use soyaos.Prelude.{◌≡◌, refl, Bool, ◌&&◌, [], ◌∷◌, ◌++◌, Bytes, bytes_eq}
use soyaos.Store.Key.{composite_key_injective}
use soyaos.Scope.Usage.{HasNoBar, bucket_key, row_key}

-- The API key, the agent, the image and the minute of a row
abbrev pub RowId : Type 0
RowId = Bytes × Bytes × Bytes × Bytes

cut_bar :
    (a b x y : Bytes)
    → HasNoBar a
    → HasNoBar b
    → a ++ (b'|' ∷ x) ≡ b ++ (b'|' ∷ y)
    → (a ≡ b) × (x ≡ y)
cut_bar [] [] x y h k e = (refl, cc)
cut_bar [] (c ∷ b) x y h k e = absurd (k.0 (cc))
cut_bar (c ∷ a) [] x y h k e = absurd (h.0 (cc))
cut_bar (c ∷ a) (c' ∷ b) x y h k e =
    let rest = cut_bar a b x y h.1 k.1 (cc) in (cc (rest.0), rest.1)

abbrev pub id_key : RowId → Bytes
id_key (api, agent, image, w) = bucket_key api agent image w

abbrev pub id_row_key : RowId → Bytes
id_row_key (api, agent, image, w) = row_key api agent image w

-- Nothing but the image may hold a bar.
abbrev pub IsNamed : RowId → Type 0
IsNamed (api, agent, image, w) = HasNoBar api × HasNoBar agent × HasNoBar w

pub bucket_key_injective : (i j : RowId) → IsNamed i → IsNamed j → id_key i ≡ id_key j → i ≡ j
unfolding bucket_key
bucket_key_injective (a, b, c, w) (a', b', c', w') h k e =
    let (e1, r1) =
      cut_bar w w' (a ++ (b'|' ∷ (b ++ (b'|' ∷ c)))) (a' ++ (b'|' ∷ (b' ++ (b'|' ∷ c')))) h.2 k.2
        e in
    let (e2, r2) = cut_bar a a' (b ++ (b'|' ∷ c)) (b' ++ (b'|' ∷ c')) h.0 k.0 r1 in
    let (e3, e4) = cut_bar b b' c c' h.1 k.1 r2 in cc

pub row_key_injective : (i j : RowId) → id_row_key i ≡ id_row_key j → i ≡ j
row_key_injective (a, b, c, w) (a', b', c', w') e =
    cc (composite_key_injective (w ∷ a ∷ b ∷ c ∷ []) (w' ∷ a' ∷ b' ∷ c' ∷ []) e)

abbrev pub same_id : RowId → RowId → Bool
same_id (a, b, c, w) (a', b', c', w') =
    bytes_eq a a' && (bytes_eq b b' && (bytes_eq c c' && bytes_eq w w'))
