-- ===== src/Soyapack.antt =====
-- pkg/soyapack: the declarations of a Pack. Here is what the modules share: the functions of Go's package `strings` that
-- read Unicode tables are the parameter `Unicode`.
pub mod IndexedTable
use soyaos.Prelude.{
  ℕ, Bool, true, false, ◌||◌, List, [], ◌∷◌, Bytes, bytes_eq, is_empty, has_prefix, ltb, length,
  drop, ◌-◌, ◌==◌, if◌then◌else◌,
}

-- `strings.TrimSpace`, `strings.Fields`, `strings.ToLower` and the number of runes
pub record Unicode : Type 0 where
  pub trim_space : Bytes → Bytes
  pub fields : Bytes → List Bytes
  pub to_lower : Bytes → Bytes
  pub rune_count : Bytes → ℕ

abbrev pub is_blank : Unicode → Bytes → Bool
is_blank U s = is_empty (U.trim_space s)

-- `strings.Contains`, `strings.HasSuffix` and `strings.ContainsAny` of ASCII characters
abbrev pub contains : Bytes → Bytes → Bool
contains [] p = is_empty p
contains (c ∷ s) p = has_prefix (c ∷ s) p || contains s p

abbrev pub has_suffix : Bytes → Bytes → Bool
has_suffix s p =
    if ltb (length s) (length p) then false else bytes_eq (drop (length s - length p) s) p

abbrev pub is_char_of : ℕ → Bytes → Bool
is_char_of c [] = false
is_char_of c (d ∷ ds) = c == d || is_char_of c ds

abbrev pub contains_any : Bytes → Bytes → Bool
contains_any [] chars = false
contains_any (c ∷ s) chars = is_char_of c chars || contains_any s chars

-- A key of a Go map of strings
abbrev pub is_member : Bytes → List Bytes → Bool
is_member s [] = false
is_member s (t ∷ ts) = bytes_eq t s || is_member s ts
