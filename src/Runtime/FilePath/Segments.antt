-- ===== src/Runtime/FilePath/Segments.antt =====
-- The elements of a cleaned absolute path of pkg/runtime/gate.go.
use mathlib.Core.Path.{ap₂}
use mathlib.Core.List.{append_assoc}
use soyaos.Prelude.{
  ℕ, ◌≡◌, refl, sym, ap, ◌∙◌, Bool, true, false, ◌&&◌, ◌||◌, List, [], ◌∷◌, ◌++◌, Bytes, bytes_eq,
  is_empty, has_prefix, ◌==◌, if◌then◌else◌, arith,
}
use soyaos.Runtime.FilePath.{
  slash, dot, dot_dot, cons_head, split_path, go_up, clean_step, clean_stack, slashed, render,
  elements, clean,
}

abbrev pub no_slash : Bytes → Bool
no_slash [] = true
no_slash (c ∷ s) = (if c == slash then false else true) && no_slash s

-- A proper name: not empty, without a slash, and neither `.` nor `..`.
abbrev pub is_name : Bytes → Bool
is_name e =
    (no_slash e && (if is_empty e then false else true))
    && (if bytes_eq e dot || bytes_eq e dot_dot then false else true)

abbrev pub all_names : List Bytes → Bool
all_names [] = true
all_names (x ∷ xs) = is_name x && all_names xs

abbrev all_no_slash : List Bytes → Bool
all_no_slash [] = true
all_no_slash (x ∷ xs) = no_slash x && all_no_slash xs

cons_no_slash :
    (c : ℕ) (r : List Bytes)
    → all_no_slash r ≡ true
    → all_no_slash (if c == slash then [] ∷ r else cons_head c r) ≡ true
cons_no_slash c [] h = ground arith
cons_no_slash c (x ∷ xs) h = ground arith

pub split_path_no_slash : (p : Bytes) → all_no_slash (split_path p) ≡ true
unfolding split_path
split_path_no_slash [] = refl
split_path_no_slash (c ∷ s) = cons_no_slash c (split_path s) (split_path_no_slash s)

clean_step_names :
    (e : Bytes) (st : List Bytes)
    → no_slash e ≡ true
    → all_names st ≡ true
    → all_names (clean_step true e st) ≡ true
unfolding clean_step go_up
clean_step_names e [] h k = ground arith
clean_step_names e (x ∷ xs) h k = ground arith

pub clean_stack_names :
    (st es : List Bytes)
    → all_no_slash es ≡ true
    → all_names st ≡ true
    → all_names (clean_stack true st es) ≡ true
unfolding clean_stack
clean_stack_names st [] h k = k
clean_stack_names st (e ∷ es) h k =
    clean_stack_names (clean_step true e st) es (ground arith)
      (clean_step_names e st (ground arith) k)

-- Not empty, and without a slash: also `..`, which stays in front of a relative path.
abbrev pub is_part : Bytes → Bool
is_part e = no_slash e && (if is_empty e then false else true)

abbrev pub all_parts : List Bytes → Bool
all_parts [] = true
all_parts (x ∷ xs) = is_part x && all_parts xs

clean_step_parts :
    (rooted : Bool) (e : Bytes) (st : List Bytes)
    → no_slash e ≡ true
    → all_parts st ≡ true
    → all_parts (clean_step rooted e st) ≡ true
unfolding clean_step go_up
clean_step_parts true e [] h k = ground arith
clean_step_parts false e [] h k = ground arith
clean_step_parts rooted e (x ∷ xs) h k = ground arith

pub clean_stack_parts :
    (rooted : Bool) (st es : List Bytes)
    → all_no_slash es ≡ true
    → all_parts st ≡ true
    → all_parts (clean_stack rooted st es) ≡ true
unfolding clean_stack
clean_stack_parts rooted st [] h k = k
clean_stack_parts rooted st (e ∷ es) h k =
    clean_stack_parts rooted (clean_step rooted e st) es (ground arith)
      (clean_step_parts rooted e st (ground arith) k)

-- `xs` is where `ys` begins.
abbrev pub IsAncestor : List Bytes → List Bytes → Type 0
IsAncestor xs ys = (rest : List Bytes) × (ys ≡ xs ++ rest)

abbrev StartsAtSlash : Bytes → Type 0
StartsAtSlash [] = Unit
StartsAtSlash (c ∷ s) = c ≡ slash

slashed-StartsAtSlash : (xs : List Bytes) → StartsAtSlash (slashed xs)
slashed-StartsAtSlash [] = tt
slashed-StartsAtSlash (x ∷ xs) = refl

name_prefix :
    (x y r s : Bytes)
    → no_slash x ≡ true
    → no_slash y ≡ true
    → StartsAtSlash s
    → has_prefix (y ++ s) (x ++ slash ∷ r) ≡ true
    → (x ≡ y) × (has_prefix s (slash ∷ r) ≡ true)
name_prefix [] [] r s h k t p = (refl, p)
name_prefix [] (c ∷ y) r s h k t p = absurd (ground arith)
name_prefix (c ∷ x) [] r [] h k t p = cc
name_prefix (c ∷ x) [] r (d ∷ s) h k t p = absurd (ground arith)
name_prefix (c ∷ x) (d ∷ y) r s h k t p =
    let (e, q) = name_prefix x y r s (ground arith) (ground arith) t (ground arith) in
    let ce : c ≡ d = ground arith in (cc, q)

slashed_end : (xs : List Bytes) → (r : Bytes) × (slashed xs ++ slash ∷ [] ≡ slash ∷ r)
slashed_end [] = ([], refl)
slashed_end (x ∷ xs) = ((x ++ slashed xs) ++ slash ∷ [], refl)

-- A string prefix that ends at a slash is a prefix of the elements.
pub IsAncestor-of_prefix :
    (xs ys : List Bytes)
    → all_names xs ≡ true
    → all_names ys ≡ true
    → has_prefix (slashed ys) (slashed xs ++ slash ∷ []) ≡ true
    → IsAncestor xs ys
IsAncestor-of_prefix [] ys h k p = (ys, refl)
IsAncestor-of_prefix (x ∷ xs) [] h k p = cc
IsAncestor-of_prefix (x ∷ xs) (y ∷ ys) h k p =
    let (r, e) = slashed_end xs in
    let cut : (x ++ slashed xs) ++ slash ∷ [] ≡ x ++ slash ∷ r =
      append_assoc x (slashed xs) (slash ∷ []) ∙ ap (λ t. x ++ t) e in
    let p' : has_prefix (y ++ slashed ys) (x ++ slash ∷ r) ≡ true = rw (← cut) p in
    let (same, q) =
      name_prefix x y r (slashed ys) (ground arith) (ground arith) (slashed-StartsAtSlash ys) p' in
    let (rest, f) = IsAncestor-of_prefix xs ys (ground arith) (ground arith) (rw e q) in
    (rest, ap₂ {A = Bytes} {B = List Bytes} ◌∷◌ (sym same) f)

pub clean-slash : clean (slash ∷ []) ≡ slash ∷ []
unfolding clean elements render split_path clean_stack clean_step
clean-slash = refl
