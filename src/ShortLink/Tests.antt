-- ===== src/ShortLink/Tests.antt =====
-- The theorems about pkg/shortlink/shortlink.go on the store in memory.
use soyaos.Prelude.{◌≡◌, refl, [], ◌∷◌, ◌++◌, Bytes, codes, ok, replicate}
use soyaos.Store.Memory.{memory}
use soyaos.ShortLink.{code_for, recorded, record_link, shorten_over, shorten, resolve}
use soyaos.ShortLink.Laws.{resolve-shorten}
use soyaos.ShortLink.Permanence.{shorten_all, link_stays}

-- A hash that repeats the first byte
abbrev sum : Bytes → Bytes
sum [] = replicate 32 0
sum (c ∷ s) = replicate 32 c

abbrev base : Bytes
base = codes "https://s/"

abbrev url : Bytes
url = codes "a.b"

abbrev short : Bytes
short = base ++ code_for memory sum base url

abbrev db : memory.Db
db = (shorten memory sum base url []).1

resolve-shorten_example : resolve memory sum base short db ≡ ok url
unfolding shorten shorten_over record_link recorded
resolve-shorten_example = resolve-shorten memory sum base url short [] tt refl

link_stays_example :
    resolve memory sum base short (shorten_all memory sum base (codes "b.c" ∷ codes "a.c" ∷ []) db)
    ≡ ok url
unfolding shorten shorten_over record_link recorded code_for
link_stays_example =
    link_stays memory sum base short url db (codes "b.c" ∷ codes "a.c" ∷ []) tt
      (resolve-shorten memory sum base url short [] tt shortened)
  where
    shortened : (shorten memory sum base url []).0 ≡ ok short
    shortened = refl
