-- ===== src/Runtime/Gate/Paths.antt =====
-- Which paths the gate of pkg/runtime/gate.go lets through.
use mathlib.Core.List.{reverse, reverse-cons}
use soyaos.Prelude.{
  ◌≡◌, refl, ◌⊎◌, inl, inr, Bool, true, false, List, [], ◌∷◌, ◌++◌, ◌∙◌, sym, Bytes, bytes_eq, ok,
  arith, In, Bool-cases, has_prefix, bytes_eq_iff, is_empty,
}
use soyaos.Runtime.FilePath.{slash, split_path, clean_stack, is_abs, elements, render, clean}
use soyaos.Runtime.FilePath.Segments.{
  all_names, all_parts, clean_stack_parts, clean-slash, split_path_no_slash, clean_stack_names,
  IsAncestor, IsAncestor-of_prefix,
}
use soyaos.Runtime.Gate.{any, below_root, check_fs}

all_names-append :
    (xs ys : List Bytes) → all_names xs ≡ true → all_names ys ≡ true → all_names (xs ++ ys) ≡ true
all_names-append [] ys h k = k
all_names-append (x ∷ xs) ys h k = ground (arith, all_names-append xs ys)

all_names-reverse : (xs : List Bytes) → all_names xs ≡ true → all_names (reverse xs) ≡ true
all_names-reverse [] h = refl
all_names-reverse (x ∷ xs) h =
    rw reverse-cons
      (all_names-append (reverse xs) (x ∷ []) (all_names-reverse xs (ground arith)) (ground arith))

all_parts-append :
    (xs ys : List Bytes) → all_parts xs ≡ true → all_parts ys ≡ true → all_parts (xs ++ ys) ≡ true
all_parts-append [] ys h k = k
all_parts-append (x ∷ xs) ys h k = ground (arith, all_parts-append xs ys)

all_parts-reverse : (xs : List Bytes) → all_parts xs ≡ true → all_parts (reverse xs) ≡ true
all_parts-reverse [] h = refl
all_parts-reverse (x ∷ xs) h =
    rw reverse-cons
      (all_parts-append (reverse xs) (x ∷ []) (all_parts-reverse xs (ground arith)) (ground arith))

elements_parts : (p : Bytes) → all_parts (elements p) ≡ true
unfolding elements
elements_parts p =
    all_parts-reverse (clean_stack (is_abs p) [] (split_path p))
      (clean_stack_parts (is_abs p) [] (split_path p) (split_path_no_slash p) refl)

-- A rooted path comes out of `Clean` with proper names only: no `..` is left in it.
elements_names : (p : Bytes) → is_abs p ≡ true → all_names (elements p) ≡ true
unfolding elements
elements_names p h = rw h (
    all_names-reverse (clean_stack true [] (split_path p))
      (clean_stack_names [] (split_path p) (split_path_no_slash p) refl))

is_abs-render :
    (rooted : Bool) (xs : List Bytes) → all_parts xs ≡ true → is_abs (render rooted xs) ≡ rooted
unfolding render
is_abs-render true [] h = refl
is_abs-render true (x ∷ xs) h = refl
is_abs-render false [] h = refl
is_abs-render false ([] ∷ xs) h = cc
is_abs-render false ((c ∷ x) ∷ xs) h = ground arith

-- `Clean` keeps a path rooted, or relative.
is_abs-clean : (p : Bytes) → is_abs (clean p) ≡ is_abs p
unfolding clean
is_abs-clean [] = refl
is_abs-clean (c ∷ p) = is_abs-render (is_abs (c ∷ p)) (elements (c ∷ p)) (elements_parts (c ∷ p))

is_empty-render :
    (rooted : Bool) (xs : List Bytes) → all_parts xs ≡ true → is_empty (render rooted xs) ≡ false
unfolding render
is_empty-render true [] h = refl
is_empty-render true (x ∷ xs) h = refl
is_empty-render false [] h = refl
is_empty-render false ([] ∷ xs) h = cc
is_empty-render false ((c ∷ x) ∷ xs) h = refl

is_empty-clean : (p : Bytes) → is_empty (clean p) ≡ false
unfolding clean
is_empty-clean [] = refl
is_empty-clean (c ∷ p) =
    is_empty-render (is_abs (c ∷ p)) (elements (c ∷ p)) (elements_parts (c ∷ p))

clean_of_is_abs : (p : Bytes) → is_abs p ≡ true → clean p ≡ render true (elements p)
unfolding clean
clean_of_is_abs [] h = cc
clean_of_is_abs (c ∷ p) h = rw h

any_sound :
    {A : Type 0} (p : A → Bool) (xs : List A) → any p xs ≡ true → (x : A) × In x xs × (p x ≡ true)
any_sound p [] h = cc
any_sound p (x ∷ xs) h = elim (Bool-cases (p x)) [
  | inl here ↦ (x, inl refl, here)
  | inr not_here ↦ let (y, at, q) = any_sound p xs (ground arith) in (y, inr at, q)
]

abs_of_prefix :
    (s r t : Bytes)
    → is_abs s ≡ true
    → is_empty r ≡ false
    → has_prefix s (r ++ t) ≡ true
    → is_abs r ≡ true
abs_of_prefix [] r t h e p = cc
abs_of_prefix (c ∷ s) [] t h e p = cc
abs_of_prefix (c ∷ s) (d ∷ r) t h e p = ground arith

-- For rooted paths, what a string prefix with a slash behind it says.
IsAncestor-of_render :
    (xs ys : List Bytes)
    → all_names xs ≡ true
    → all_names ys ≡ true
    → has_prefix (render true ys) (render true xs ++ slash ∷ []) ≡ true
    → IsAncestor xs ys
unfolding render
IsAncestor-of_render [] ys h k p = (ys, refl)
IsAncestor-of_render ([] ∷ xs) [] h k p = cc
IsAncestor-of_render ((c ∷ x) ∷ xs) [] h k p = absurd (ground arith)
IsAncestor-of_render (x ∷ xs) (y ∷ ys) h k p = IsAncestor-of_prefix (x ∷ xs) (y ∷ ys) h k p

below_root_sound :
    (path root : Bytes)
    → is_abs path ≡ true
    → below_root (clean path) root ≡ true
    → (clean path ≡ clean root)
      ⊎ ((is_abs root ≡ true) × IsAncestor (elements root) (elements path))
unfolding below_root
below_root_sound path root rooted below = elim (Bool-cases (bytes_eq (clean path) (clean root))) [
  | inl same ↦ inl ((bytes_eq_iff _ _).0 same)
  | inr apart ↦
      let prefix : has_prefix (clean path) (clean root ++ slash ∷ []) ≡ true = ground arith in
      let root_abs : is_abs root ≡ true =
        sym (is_abs-clean root)
        ∙ abs_of_prefix (clean path) (clean root) (slash ∷ []) (is_abs-clean path ∙ rooted)
            (is_empty-clean root) prefix in
      let rendered : has_prefix (render true (elements path))
            (render true (elements root) ++ slash ∷ [])
          ≡ true =
        rw (← clean_of_is_abs path rooted, ← clean_of_is_abs root root_abs) prefix in
      inr (
        root_abs,
        IsAncestor-of_render (elements root) (elements path) (elements_names root root_abs)
            (elements_names path rooted) rendered,
      )
]

-- A path that passes the file check is rooted and, once cleaned, has proper names only; it is one
-- of the allowed roots once both are cleaned, or begins with all the elements of one that is
-- rooted too.
pub check_fs_sound :
    (cap : Bytes) (allowed : List Bytes) (path : Bytes)
    → check_fs cap allowed path ≡ ok tt
    → (is_abs path ≡ true)
      × (all_names (elements path) ≡ true)
      × ((root : Bytes) × In root allowed
          × ((clean path ≡ clean root)
              ⊎ ((is_abs root ≡ true) × IsAncestor (elements root) (elements path))))
unfolding check_fs below_root
check_fs_sound cap allowed path h =
    let rooted : is_abs path ≡ true = sym (is_abs-clean path) ∙ ground arith in
    let (root, at, below) = any_sound (below_root (clean path)) allowed (ground arith) in
    (rooted, elements_names path rooted, (root, at, below_root_sound path root rooted below))

no_double_slash :
    (ys : List Bytes)
    → all_names ys ≡ true
    → has_prefix (render true ys) (slash ∷ slash ∷ []) ≡ false
unfolding render
no_double_slash [] h = refl
no_double_slash ([] ∷ ys) h = cc
no_double_slash ((c ∷ y) ∷ ys) h = ground arith

below_slash :
    (s : Bytes)
    → has_prefix s (slash ∷ slash ∷ []) ≡ false
    → below_root s (slash ∷ []) ≡ true
    → s ≡ slash ∷ []
unfolding below_root
below_slash s h below = (bytes_eq_iff s (slash ∷ [])).0 (ground (arith, clean-slash))

-- The allowed root `/` lets no path through but itself, once cleaned.
pub root_slash_sound :
    (cap path : Bytes) → check_fs cap ((slash ∷ []) ∷ []) path ≡ ok tt → clean path ≡ slash ∷ []
unfolding check_fs
root_slash_sound cap path h =
    let rooted : is_abs path ≡ true = sym (is_abs-clean path) ∙ ground arith in
    let (root, at, below) =
      any_sound (below_root (clean path)) ((slash ∷ []) ∷ []) (ground arith) in
    below_slash (clean path)
      (rw (clean_of_is_abs path rooted)
        (no_double_slash (elements path) (elements_names path rooted)))
      (ground arith)
