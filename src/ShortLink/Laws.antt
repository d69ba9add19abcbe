-- ===== src/ShortLink/Laws.antt =====
-- What the short links of pkg/shortlink/shortlink.go lead to.
use soyaos.Prelude.{
  ℕ, ◌-◌, ◌≤◌, ◌≡◌, refl, sym, ap, ◌∙◌, inl, inr, true, false, not, ◌&&◌, [], ◌∷◌, ◌++◌, some,
  Bytes, bytes_eq, bytes_eq_refl, is_empty, has_prefix-append, Result, ok, err, is_ok, ◌==◌,
  if◌then◌else◌, if_yes, if_no, length, take, replicate, length-append, length-drop,
  length-replicate, drop_append_length, arith, Bool-cases, subst,
}
use soyaos.Prelude.BigEndian.{read_big_endian}
use soyaos.Store.{Store, StoreError, not_found, backend, answer}
use soyaos.ShortLink.{
  namespace, LinkError, collision, empty_url, base62, digits, pad, cut, encode_base62, trim_prefix,
  code_for, recorded, record_link, shorten_over, shorten, link_of, resolve_code, resolve,
}

length-pad_le : (width : ℕ) (s : Bytes) → width ≤ length (pad width s)
length-pad_le width s = ground (
  arith,
  length-append (replicate (width - length s) (base62 0)) s,
  length-replicate (width - length s) (base62 0),
)

length-cut : (width : ℕ) (s : Bytes) → width ≤ length s → length (cut width s) ≡ width
length-cut width s h = ground (arith, h, length-drop (length s - width) s)

-- A code has the width that is asked for.
length-encode_base62 : (v width : ℕ) → length (encode_base62 v width) ≡ width
unfolding encode_base62
length-encode_base62 v width = elim (Bool-cases (v == 0)) [
  | inl none_left ↦
      ap (λ (s : Bytes). length s) (if_yes _ _ _ none_left) ∙ length-replicate width (base62 0)
  | inr some_left ↦
      ap (λ (s : Bytes). length s) (if_no _ _ _ some_left)
      ∙ length-cut width (pad width (digits 11 v)) (length-pad_le width (digits 11 v))
]

module _ (S : Store) (sum : Bytes → Bytes) (base : Bytes) where
  length-code_for : (url : Bytes) → length (code_for S sum base url) ≡ 8
  unfolding code_for
  length-code_for url = length-encode_base62 (read_big_endian 0 (take 6 (sum url))) 8

  full_code : (code : Bytes) → length code ≡ 8 → is_empty code ≡ false
  full_code [] h = absurd (omega arith)
  full_code (c ∷ code) h = refl

  trim_base : (code : Bytes) → trim_prefix (base ++ code) base ≡ code
  trim_base code = if_yes _ _ _ (has_prefix-append base code) ∙ drop_append_length base code

  empty_append : (b code : Bytes) → is_empty b ≡ true → b ++ code ≡ code
  empty_append [] code h = refl
  empty_append (c ∷ b) code h = cc

  resolve-base :
      (code : Bytes) (d : S.Db)
      → resolve S sum base (base ++ code) d ≡ resolve_code S sum base code d
  unfolding resolve
  resolve-base code d = elim (Bool-cases (is_empty base)) [
    | inl bare ↦
        if_yes _ _ _ bare ∙ ap (λ c. resolve_code S sum base c d) (empty_append base code bare)
    | inr full ↦ if_no _ _ _ full ∙ ap (λ c. resolve_code S sum base c d) (trim_base code)
  ]

  recorded-ok :
      (code short : Bytes) (r : Result StoreError (Unit {0}) × S.Db)
      → (recorded S sum base code r).0 ≡ ok short
      → (is_ok r.0 ≡ true) × (base ++ code ≡ short)
  unfolding recorded
  recorded-ok code short (ok _, d) h = (refl, cc)
  recorded-ok code short (err _, d) h = cc

  recorded_db :
      (code : Bytes) (r : Result StoreError (Unit {0}) × S.Db)
      → (recorded S sum base code r).1 ≡ r.1
  unfolding recorded
  recorded_db code (ok _, d) = refl
  recorded_db code (err _, d) = refl

  pub find-record_link :
      (url : Bytes) (d : S.Db) (k : Bytes)
      → S.find (record_link S sum base url d).1 namespace k ≡ (
          if is_ok (S.put d namespace (code_for S sum base url) url).0
            && bytes_eq (code_for S sum base url) k
          then some url
          else S.find d namespace k)
  unfolding record_link
  find-record_link url d k =
      let code = code_for S sum base url in
      rw (recorded_db code (S.put d namespace code url))
        (S.find-put d namespace code url namespace k)

  -- Unless it fails, `Shorten` records the link.
  shorten_over-ok :
      (url : Bytes) (r : Result StoreError Bytes) (d : S.Db) (short : Bytes)
      → (shorten_over S sum base url r d).0 ≡ ok short
      → shorten_over S sum base url r d ≡ record_link S sum base url d
  unfolding shorten_over
  shorten_over-ok url (ok existing) d short h = elim (Bool-cases (bytes_eq existing url)) [
    | inl same ↦ if_no _ _ _ (ap not same)
    | inr other ↦ cc (
      h,
      ap (λ (x : Result LinkError Bytes × S.Db). x.0)
          (if_yes (not (bytes_eq existing url)) (err collision, d) (record_link S sum base url d)
            (ap not other)),
    )
  ]
  shorten_over-ok url (err not_found) d short h = refl
  shorten_over-ok url (err backend) d short h = cc

  shorten-ok :
      (url : Bytes) (d : S.Db) (short : Bytes)
      → (shorten S sum base url d).0 ≡ ok short
      → shorten S sum base url d ≡ record_link S sum base url d
  unfolding shorten
  shorten-ok url d short h = elim (Bool-cases (is_empty url)) [
    | inl bare ↦ cc (
      h,
      ap (λ (x : Result LinkError Bytes × S.Db). x.0)
          (if_yes (is_empty url) (err empty_url, d)
            (shorten_over S sum base url (S.get d namespace (code_for S sum base url)) d) bare),
    )
    | inr full ↦
        let same =
          if_no (is_empty url) (err empty_url, d)
            (shorten_over S sum base url (S.get d namespace (code_for S sum base url)) d) full in
        same
        ∙ shorten_over-ok url (S.get d namespace (code_for S sum base url)) d short
            (sym (ap (λ (x : Result LinkError Bytes × S.Db). x.0) same) ∙ h)
  ]

  -- What a code that is not empty leads to
  resolve_code_find :
      (code : Bytes) (d : S.Db)
      → S.Reads d
      → is_empty code ≡ false
      → resolve_code S sum base code d ≡ link_of S sum base (answer (S.find d namespace code))
  unfolding resolve_code
  resolve_code_find code d reads h =
      if_no _ _ _ h ∙ ap (link_of S sum base) (S.get_reads d namespace code reads)

  pub reads_record_link :
      (url : Bytes) (d : S.Db) → S.Reads d → S.Reads (record_link S sum base url d).1
  unfolding record_link
  reads_record_link url d h =
      let code = code_for S sum base url in
      rw (recorded_db code (S.put d namespace code url)) (S.reads_put d namespace code url h)

  resolve-record_link :
      (url short : Bytes) (d : S.Db)
      → S.Reads d
      → (record_link S sum base url d).0 ≡ ok short
      → resolve S sum base short (record_link S sum base url d).1 ≡ ok url
  unfolding record_link link_of
  resolve-record_link url short d reads h =
      let code = code_for S sum base url in
      let (done, same) = recorded-ok code short (S.put d namespace code url) h in
      let after = (record_link S sum base url d).1 in
      let cell : S.find after namespace code ≡ some url =
        find-record_link url d code ∙ ground (arith, done, bytes_eq_refl code) in
      subst (λ k. resolve S sum base k after ≡ ok url) same
        (resolve-base code after
          ∙ (resolve_code_find code after (reads_record_link url d reads)
                (full_code code (length-code_for url))
              ∙ ap (λ o. link_of S sum base (answer o)) cell))

-- The link that `Shorten` returns is resolved to the address that it was given, where reads do not
-- fail.
pub resolve-shorten :
    (S : Store) (sum : Bytes → Bytes) (base url short : Bytes) (d : S.Db)
    → S.Reads d
    → (shorten S sum base url d).0 ≡ ok short
    → resolve S sum base short (shorten S sum base url d).1 ≡ ok url
resolve-shorten S sum base url short d reads h =
    let same = shorten-ok S sum base url d short h in
    subst (λ (x : Result LinkError Bytes × S.Db). resolve S sum base short x.1 ≡ ok url) (sym same)
      (resolve-record_link S sum base url short d reads
        (sym (ap (λ (x : Result LinkError Bytes × S.Db). x.0) same) ∙ h))
