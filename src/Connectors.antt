-- ===== src/Connectors.antt =====
-- pkg/connectors/degradation.go: a message is cut to what a channel can show. A text is the list of its runes. The
-- providers of a long image and of a short link are parameters, each with the error of its call.
use soyaos.Prelude.{
  ℕ, ◌-◌, ◌≤◌, Bool, false, ◌||◌, not, List, [], ◌∷◌, ◌++◌, Option, none, some, Bytes, codes,
  bytes_eq, is_empty, Result, ok, err, length, take, leb, ltb, ◌==◌, if◌then◌else◌, arith,
  length-take, length-append,
}
use mathlib.Core.List.{reverse}

pub record Attachment : Type 0 where
  pub kind : Bytes
  pub mime : Bytes
  pub url : Bytes
  pub content : Bytes
  pub filename : Bytes

pub record Message : Type 0 where
  pub channel_kind : Bytes
  pub binding_id : Bytes
  pub user_id : Bytes
  pub text : Bytes
  pub attachments : List Attachment
  pub metadata : List (Bytes × Bytes)

pub record ChannelCapabilities : Type 0 where
  pub supports_rich_card : Bool
  pub supports_markdown : Bool
  pub supports_image : Bool
  pub max_text_length : ℕ

abbrev ellipsis : ℕ
ellipsis = 8230

-- `truncate`
pub truncate : Bytes → ℕ → Bytes
truncate s n =
    if n == 0
    then []
    else if leb (length s) n
    then s
    else if n == 1
    then take n s
    else take (n - 1) s ++ (ellipsis ∷ [])

-- `hasNonImageAttachment`
has_non_image : List Attachment → Bool
has_non_image [] = false
has_non_image (a ∷ as') = not (bytes_eq a.kind (codes "image")) || has_non_image as'

-- `firstAttachmentURL`
first_url : List Attachment → Bytes
first_url [] = []
first_url (a ∷ as') = if is_empty a.url then first_url as' else a.url

-- `strings.TrimRight(s, "\n")`
abbrev trim_left_newlines : Bytes → Bytes
trim_left_newlines [] = []
trim_left_newlines (c ∷ s) = let rest = trim_left_newlines s in if c == 10 then rest else c ∷ s

abbrev trim_newlines : Bytes → Bytes
trim_newlines s = reverse (trim_left_newlines (reverse s))

abbrev cut_to : ℕ → Message → Message
cut_to n m = if ltb 0 n then record m { text = truncate m.text n } else m

abbrev image_at : Bytes → Attachment
image_at u = record {
  kind = codes "image";
  mime = codes "image/png";
  url = u;
  content = [];
  filename = [];
}

module _ (Error : Type 0) where
  -- A message, and the error of a provider that failed
  abbrev Degraded : Type 0
  Degraded = Message × Option Error

  with_image : ChannelCapabilities → Message → Result Error Bytes → Degraded
  unfolding truncate
  with_image t m (err e) = (m, some e)
  with_image t m (ok u) =
      (cut_to t.max_text_length (record m { attachments = image_at u ∷ [] }), none)

  with_link : ChannelCapabilities → Message → Result Error Bytes → Degraded
  unfolding truncate
  with_link t m (err e) = (m, some e)
  with_link t m (ok short) =
      let suffix = 10 ∷ short in
      let cut =
        if ltb 0 t.max_text_length
        then truncate m.text (t.max_text_length - length suffix)
        else m.text in
      (record m { text = trim_newlines cut ++ suffix; attachments = [] }, none)

  as_image : ChannelCapabilities → Option (Message → Result Error Bytes) → Message → Degraded
  unfolding with_image has_non_image
  as_image t none m = (cut_to t.max_text_length m, none)
  as_image t (some image_of) m =
      if has_non_image m.attachments
      then with_image t m (image_of m)
      else (cut_to t.max_text_length m, none)

  as_text : ChannelCapabilities → Option (Bytes → Result Error Bytes) → Message → Degraded
  unfolding with_link first_url
  as_text t none m = (record m { attachments = [] }, none)
  as_text t (some shorten) m =
      let url = first_url m.attachments in
      if is_empty url then (record m { attachments = [] }, none) else with_link t m (shorten url)

  -- `Degrade`
  degrade :
      ChannelCapabilities
      → Option (Message → Result Error Bytes)
      → Option (Bytes → Result Error Bytes)
      → Message
      → Degraded
  unfolding as_image as_text
  degrade t image_of shorten m =
      if t.supports_rich_card || t.supports_markdown
      then (m, none)
      else if t.supports_image
      then as_image t image_of m
      else as_text t shorten (cut_to t.max_text_length m)

-- A text that `truncate` returns is no longer than the limit that it is given.
length-truncate_le : (s : Bytes) (n : ℕ) → length (truncate s n) ≤ n
unfolding truncate
length-truncate_le s n =
    ground (
      arith,
      length-take n s,
      length-take (n - 1) s,
      length-append (take (n - 1) s) (ellipsis ∷ []),
    )
