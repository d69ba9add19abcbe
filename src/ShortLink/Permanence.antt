-- ===== src/ShortLink/Permanence.antt =====
-- The short links of pkg/shortlink/shortlink.go go on leading where they led.
use soyaos.Prelude.{
  ◌≡◌, refl, sym, ap, ◌∙◌, inl, inr, Bool, true, false, not, ◌&&◌, List, [], ◌∷◌, Option, none,
  some, Bytes, bytes_eq, bytes_eq_iff, is_empty, Result, ok, err, is_ok, if◌then◌else◌, if_yes,
  if_no, Bool-cases, subst,
}
use soyaos.Store.{Store, StoreError, not_found, backend, answer}
use soyaos.ShortLink.{
  namespace, LinkError, empty_code, trim_prefix, code_for, record_link, shorten_over, shorten,
  link_of, resolve_code, resolve,
}
use soyaos.ShortLink.Laws.{find-record_link, reads_record_link}

module _ (S : Store) (sum : Bytes → Bytes) (base : Bytes) where
  find-record_link_same :
      (url : Bytes) (d : S.Db) (k u : Bytes)
      → (bytes_eq (code_for S sum base url) k ≡ true → url ≡ u)
      → S.find d namespace k ≡ some u
      → S.find (record_link S sum base url d).1 namespace k ≡ some u
  find-record_link_same url d k u same h =
      let code = code_for S sum base url in
      find-record_link S sum base url d k
      ∙ kept (is_ok (S.put d namespace code url).0) (bytes_eq code k) refl
    where
      kept :
          (a b : Bool)
          → bytes_eq (code_for S sum base url) k ≡ b
          → (if a && b then some url else S.find d namespace k) ≡ some u
      kept true true e = ap some (same e)
      kept true false e = h
      kept false b e = h

  -- A link that is recorded stays, by the test for a collision.
  find-shorten_over :
      (url : Bytes) (d : S.Db) (k u : Bytes) (o : Option Bytes)
      → S.find d namespace (code_for S sum base url) ≡ o
      → S.find d namespace k ≡ some u
      → S.find (shorten_over S sum base url (answer o) d).1 namespace k ≡ some u
  unfolding shorten_over
  find-shorten_over url d k u none e h =
      find-record_link_same url d k u
        (λ c.
          let same = ap (S.find d namespace) ((bytes_eq_iff (code_for S sum base url) k).0 c) in
          cc (same, e, h))
        h
  find-shorten_over url d k u (some existing) e h = elim (Bool-cases (bytes_eq existing url)) [
    | inr other ↦
        ap (λ (x : Result LinkError Bytes × S.Db). S.find x.1 namespace k)
          (if_yes _ _ _ (ap not other))
        ∙ h
    | inl same ↦
        ap (λ (x : Result LinkError Bytes × S.Db). S.find x.1 namespace k)
          (if_no _ _ _ (ap not same))
        ∙ find-record_link_same url d k u
            (λ c.
              let cells =
                ap (S.find d namespace) ((bytes_eq_iff (code_for S sum base url) k).0 c) in
              let url_eq : existing ≡ url = (bytes_eq_iff existing url).0 same in
              cc (cells, e, h, url_eq))
            h
  ]

  reads_shorten_over :
      (url : Bytes) (d : S.Db) (r : Result StoreError Bytes)
      → S.Reads d
      → S.Reads (shorten_over S sum base url r d).1
  unfolding shorten_over
  reads_shorten_over url d (ok existing) h = elim (Bool-cases (bytes_eq existing url)) [
    | inr other ↦
        subst (λ (x : Result LinkError Bytes × S.Db). S.Reads x.1)
          (sym (if_yes _ _ _ (ap not other))) h
    | inl same ↦
        subst (λ (x : Result LinkError Bytes × S.Db). S.Reads x.1) (sym (if_no _ _ _ (ap not same)))
          (reads_record_link S sum base url d h)
  ]
  reads_shorten_over url d (err not_found) h = reads_record_link S sum base url d h
  reads_shorten_over url d (err backend) h = h

  -- Reads do not fail, and a code leads to an address.
  abbrev Leads : Bytes → Bytes → S.Db → Type 0
  Leads k u d = S.Reads d × (S.find d namespace k ≡ some u)

  Leads-shorten :
      (url : Bytes) (d : S.Db) (k u : Bytes) → Leads k u d → Leads k u (shorten S sum base url d).1
  unfolding shorten
  Leads-shorten url d k u (reads, h) = elim (Bool-cases (is_empty url)) [
    | inl bare ↦
        subst (λ (x : Result LinkError Bytes × S.Db). Leads k u x.1) (sym (if_yes _ _ _ bare))
          (reads, h)
    | inr full ↦
        let code = code_for S sum base url in
        subst (λ (x : Result LinkError Bytes × S.Db). Leads k u x.1) (sym (if_no _ _ _ full))
          (
            reads_shorten_over url d (S.get d namespace code) reads,
            subst (λ r. S.find (shorten_over S sum base url r d).1 namespace k ≡ some u)
                (sym (S.get_reads d namespace code reads))
                (find-shorten_over url d k u (S.find d namespace code) refl h),
          )
  ]

  -- Addresses shortened one after the other, whether that succeeds or fails
  unfoldable pub shorten_all : List Bytes → S.Db → S.Db
  shorten_all [] d = d
  shorten_all (url ∷ urls) d = shorten_all urls (shorten S sum base url d).1

  Leads-shorten_all :
      (urls : List Bytes) (d : S.Db) (k u : Bytes) → Leads k u d → Leads k u (shorten_all urls d)
  unfolding shorten_all
  Leads-shorten_all [] d k u h = h
  Leads-shorten_all (url ∷ urls) d k u h =
      Leads-shorten_all urls (shorten S sum base url d).1 k u (Leads-shorten url d k u h)

  link_of-ok : (r : Result StoreError Bytes) (u : Bytes) → link_of S sum base r ≡ ok u → r ≡ ok u
  unfolding link_of
  link_of-ok (ok raw) u h = cc
  link_of-ok (err not_found) u h = cc
  link_of-ok (err backend) u h = cc

  resolve_code_stays :
      (code u : Bytes) (d : S.Db) (urls : List Bytes)
      → S.Reads d
      → resolve_code S sum base code d ≡ ok u
      → resolve_code S sum base code (shorten_all urls d) ≡ ok u
  unfolding resolve_code link_of
  resolve_code_stays code u d urls reads h = elim (Bool-cases (is_empty code)) [
    | inl bare ↦ cc (
      h,
      if_yes (is_empty code) (err empty_code) (link_of S sum base (S.get d namespace code)) bare,
    )
    | inr full ↦
        let now = link_of-ok (S.get d namespace code) u (sym (if_no _ _ _ full) ∙ h) in
        let (reads', later) =
          Leads-shorten_all urls d code u (reads, S.get_ok d namespace code u now) in
        if_no _ _ _ full
        ∙ ap (link_of S sum base)
            (S.get_reads (shorten_all urls d) namespace code reads' ∙ ap answer later)
  ]

-- A short link that is resolved to an address is resolved to the same address whatever is
-- shortened after, where reads do not fail.
pub link_stays :
    (S : Store) (sum : Bytes → Bytes) (base code u : Bytes) (d : S.Db) (urls : List Bytes)
    → S.Reads d
    → resolve S sum base code d ≡ ok u
    → resolve S sum base code (shorten_all S sum base urls d) ≡ ok u
unfolding resolve
link_stays S sum base code u d urls reads h = elim (Bool-cases (is_empty base)) [
  | inl bare ↦
      if_yes _ _ _ bare
      ∙ resolve_code_stays S sum base code u d urls reads (sym (if_yes _ _ _ bare) ∙ h)
  | inr full ↦
      if_no _ _ _ full
      ∙ resolve_code_stays S sum base (trim_prefix code base) u d urls reads
          (sym (if_no _ _ _ full) ∙ h)
]
