-- ===== src/FlagOrder.antt =====
-- cmd/soyaos/flagorder.go: the flags of a command line are put before its positional arguments. What a flag set knows of
-- a name (`Lookup`, and whether the flag is a Boolean one) is a parameter.
use soyaos.Prelude.{
  Bool, true, false, ◌||◌, not, List, [], ◌∷◌, ◌++◌, Option, none, some, Bytes, codes, bytes_eq,
  has_prefix, ◌==◌, if◌then◌else◌,
}

abbrev contains : Bytes → Bytes → Bool
contains [] c = false
contains (x ∷ s) c = bytes_eq (x ∷ []) c || contains s c

-- `strings.TrimLeft(tok, "-")`
abbrev trim_dashes : Bytes → Bytes
trim_dashes [] = []
trim_dashes (x ∷ s) = let rest = trim_dashes s in if x == b'-' then rest else x ∷ s

-- The flags and the positional arguments
abbrev Split : Type 0
Split = List Bytes × List Bytes

abbrev flag : Bytes → Split → Split
flag t (flags, positional) = (t ∷ flags, positional)

abbrev positional_arg : Bytes → Split → Split
positional_arg t (flags, positional) = (flags, t ∷ positional)

-- Whether the next token is the value of the flag: `some true` is a Boolean flag that is known.
abbrev takes_value : Option Bool → Bool
takes_value none = false
takes_value (some is_bool) = not is_bool

-- The loop; `value` says that the token before is a flag that takes this one as its value.
split_args : (Bytes → Option Bool) → (value : Bool) → List Bytes → Split
split_args lookup value [] = ([], [])
split_args lookup true (t ∷ ts) = flag t (split_args lookup false ts)
split_args lookup false (t ∷ ts) =
    let alone = split_args lookup false ts in
    let valued = split_args lookup true ts in
    if bytes_eq t (codes "--")
    then ([], ts)
    else if not (has_prefix t (codes "-")) || bytes_eq t (codes "-")
    then positional_arg t alone
    else if contains t (codes "=")
    then flag t alone
    else flag t (if takes_value (lookup (trim_dashes t)) then valued else alone)

-- `reorderForFlagSet`
reorder_for_flag_set : (Bytes → Option Bool) → List Bytes → List Bytes
unfolding split_args
reorder_for_flag_set lookup args =
    let (flags, positional) = split_args lookup false args in flags ++ positional
