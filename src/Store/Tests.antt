-- ===== src/Store/Tests.antt =====
-- Composite keys of concrete parts.
use soyaos.Prelude.{◌≡◌, refl, List, [], ◌∷◌, Bytes, codes}
use soyaos.Store.Key.{composite_key_injective}

abbrev parts : List Bytes
parts = codes "user" ∷ codes "" ∷ codes "a:b" ∷ []

composite_key_injective_example : parts ≡ parts
composite_key_injective_example = composite_key_injective parts parts refl
