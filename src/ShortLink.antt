-- ===== src/ShortLink.antt =====
-- pkg/shortlink/shortlink.go: short links in a store of pkg/store. SHA-256 is the parameter `sum`.
pub mod Laws
pub mod Permanence
mod Tests
use soyaos.Prelude.{
  ℕ, zero, suc, ◌+◌, ◌-◌, ◌/◌, ◌%◌, Bool, true, false, not, List, [], ◌∷◌, ◌++◌, Option, none, some,
  Bytes, codes, bytes_eq, is_empty, has_prefix, Result, ok, err, ltb, ◌==◌, if◌then◌else◌, length,
  take, drop, replicate,
}
use soyaos.Prelude.BigEndian.{read_big_endian}
use soyaos.Store.{Store, StoreError, not_found, backend}

abbrev pub namespace : Bytes
namespace = codes "shortlink"

abbrev pub code_len : ℕ
code_len = 8

pub data LinkError : Type 0 where
  empty_url collision empty_code missing store_failed : LinkError

-- `base62[n]`, where the alphabet is the digits, the capitals and the small letters
abbrev pub base62 : ℕ → ℕ
base62 n = if ltb n 10 then 48 + n else if ltb n 36 then 55 + n else 61 + n

-- The digits of a number, from the highest. A uint64 has 11 of them at most.
unfoldable pub digits : ℕ → ℕ → Bytes
digits zero v = []
digits (suc fuel) v =
    let rest = digits fuel (v / 62) in if v == 0 then [] else rest ++ (base62 (v % 62) ∷ [])

abbrev pub pad : ℕ → Bytes → Bytes
pad width s = if ltb (length s) width then replicate (width - length s) (base62 0) ++ s else s

abbrev pub cut : ℕ → Bytes → Bytes
cut width s = if ltb width (length s) then drop (length s - width) s else s

-- `encodeBase62`
unfoldable pub encode_base62 : ℕ → ℕ → Bytes
unfolding digits
encode_base62 v width =
    if v == 0 then replicate width (base62 0) else cut width (pad width (digits 11 v))

-- `strings.TrimPrefix`
abbrev pub trim_prefix : Bytes → Bytes → Bytes
trim_prefix s prefix = if has_prefix s prefix then drop (length prefix) s else s

module _ (S : Store) (sum : Bytes → Bytes) (base : Bytes) where
  -- `codeFor`
  pub code_for : Bytes → Bytes
  unfolding encode_base62 read_big_endian
  code_for url = encode_base62 (read_big_endian 0 (take 6 (sum url))) code_len

  pub recorded : Bytes → Result StoreError (Unit {0}) × S.Db → Result LinkError Bytes × S.Db
  recorded code (ok _, d) = (ok (base ++ code), d)
  recorded code (err _, d) = (err store_failed, d)

  pub record_link : Bytes → S.Db → Result LinkError Bytes × S.Db
  unfolding recorded code_for
  record_link url d = recorded (code_for url) (S.put d namespace (code_for url) url)

  -- Past the test for a collision
  pub shorten_over : Bytes → Result StoreError Bytes → S.Db → Result LinkError Bytes × S.Db
  unfolding record_link
  shorten_over url (ok existing) d =
      let (r, d') = record_link url d in
      if not (bytes_eq existing url) then (err collision, d) else (r, d')
  shorten_over url (err not_found) d = record_link url d
  shorten_over url (err backend) d = (err store_failed, d)

  -- `Store.Shorten`
  pub shorten : Bytes → S.Db → Result LinkError Bytes × S.Db
  unfolding shorten_over code_for
  shorten url d =
      if is_empty url
      then (err empty_url, d)
      else shorten_over url (S.get d namespace (code_for url)) d

  pub link_of : Result StoreError Bytes → Result LinkError Bytes
  link_of (ok raw) = ok raw
  link_of (err not_found) = err missing
  link_of (err backend) = err store_failed

  pub resolve_code : Bytes → S.Db → Result LinkError Bytes
  unfolding link_of
  resolve_code code d = if is_empty code then err empty_code else link_of (S.get d namespace code)

  -- `Store.Resolve`
  pub resolve : Bytes → S.Db → Result LinkError Bytes
  unfolding resolve_code
  resolve code d =
      if is_empty base then resolve_code code d else resolve_code (trim_prefix code base) d
