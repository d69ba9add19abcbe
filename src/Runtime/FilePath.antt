-- ===== src/Runtime/FilePath.antt =====
-- `filepath.Clean` and `filepath.Base` of the standard library, on Unix paths, as pkg/runtime/gate.go
-- uses them: a path is cut at its slashes, and its elements are taken one by one.
pub mod Segments
use mathlib.Core.List.{reverse}
use soyaos.Prelude.{
  ℕ, Bool, true, false, ◌||◌, List, [], ◌∷◌, ◌++◌, Bytes, bytes_eq, is_empty, has_prefix, codes,
  ◌==◌, if◌then◌else◌,
}

abbrev pub slash : ℕ
slash = b'/'

abbrev pub dot : Bytes
dot = codes "."

abbrev pub dot_dot : Bytes
dot_dot = codes ".."

abbrev pub cons_head : ℕ → List Bytes → List Bytes
cons_head c [] = (c ∷ []) ∷ []
cons_head c (x ∷ xs) = (c ∷ x) ∷ xs

-- The elements between the slashes.
unfoldable pub split_path : Bytes → List Bytes
split_path [] = [] ∷ []
split_path (c ∷ s) = let rest = split_path s in if c == slash then [] ∷ rest else cons_head c rest

-- `..` takes the element before it away; at the root it is dropped.
pub go_up : Bool → List Bytes → List Bytes
go_up true [] = []
go_up false [] = dot_dot ∷ []
go_up rooted (x ∷ xs) = if bytes_eq x dot_dot then dot_dot ∷ x ∷ xs else xs

pub clean_step : Bool → Bytes → List Bytes → List Bytes
unfolding go_up
clean_step rooted e stack =
    if is_empty e || bytes_eq e dot
    then stack
    else if bytes_eq e dot_dot
    then go_up rooted stack
    else e ∷ stack

-- The elements that are left, the last one first.
unfoldable pub clean_stack : Bool → List Bytes → List Bytes → List Bytes
unfolding clean_step
clean_stack rooted stack [] = stack
clean_stack rooted stack (e ∷ es) = clean_stack rooted (clean_step rooted e stack) es

abbrev pub slashed : List Bytes → Bytes
slashed [] = []
slashed (x ∷ xs) = slash ∷ (x ++ slashed xs)

unfoldable pub render : Bool → List Bytes → Bytes
render true [] = slash ∷ []
render true (x ∷ xs) = slashed (x ∷ xs)
render false [] = dot
render false (x ∷ xs) = x ++ slashed xs

abbrev pub is_abs : Bytes → Bool
is_abs path = has_prefix path (slash ∷ [])

unfoldable pub elements : Bytes → List Bytes
elements path = reverse (clean_stack (is_abs path) [] (split_path path))

unfoldable pub clean : Bytes → Bytes
clean path = if is_empty path then dot else render (is_abs path) (elements path)

abbrev last_of : Bytes → List Bytes → Bytes
last_of d [] = d
last_of d (x ∷ xs) = last_of (if is_empty x then d else x) xs

-- `filepath.Base`: the last element, without trailing slashes.
unfoldable pub base : Bytes → Bytes
unfolding split_path
base path =
    if is_empty path
    then dot
    else let b = last_of [] (split_path path) in if is_empty b then slash ∷ [] else b
