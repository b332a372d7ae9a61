-- ===== src/Strings/Path.antt =====
-- `path/filepath` on Unix: `Clean`, `Join` of two names, `Rel`, `Base`, `Ext`; and `HasSuffix`,
-- `HasPrefix` and `TrimSuffix` of `strings`.
pub mod Suffix
use dev_box.Common.{
  ℕ, Bool, true, false, ◌&&◌, ◌||◌, not, List, [], ◌∷◌, ◌++◌, reverse, map, Option, none, some,
  Text, ◌==◌, if◌then◌else◌, number_eq, text_eq,
}
use dev_box.Strings.Split.{split, join}

unfoldable pub has_prefix : Text → Text → Bool
has_prefix s [] = true
has_prefix [] (p ∷ prefix) = false
has_prefix (c ∷ s) (p ∷ prefix) = c == p && has_prefix s prefix

abbrev prepend : ℕ → Option Text → Option Text
prepend b none = none
prepend b (some t) = some (b ∷ t)

-- What stands before the suffix, if the text ends in it.
unfoldable pub cut_suffix : Text → Text → Option Text
cut_suffix suffix [] = if suffix == [] then some [] else none
cut_suffix suffix (c ∷ s) =
    let rest = cut_suffix suffix s in if suffix == c ∷ s then some [] else prepend c rest

unfoldable pub has_suffix : Text → Text → Bool
unfolding cut_suffix
has_suffix s suffix = elim (cut_suffix suffix s) [ none ↦ false | some t ↦ true ]

unfoldable pub trim_suffix : Text → Text → Text
unfolding cut_suffix
trim_suffix s suffix = elim (cut_suffix suffix s) [ none ↦ s | some t ↦ t ]

abbrev is_rooted : Text → Bool
is_rooted [] = false
is_rooted (c ∷ s) = c == b'/'

abbrev dots : Text
dots = b'.' ∷ b'.' ∷ []

-- `..` takes the last part away, except at the front of a path that is not rooted.
back : Bool → List Text → List Text
back rooted [] = if rooted then [] else dots ∷ []
back rooted (top ∷ stack) = if top == dots then dots ∷ top ∷ stack else stack

-- The parts of a clean path; the stack has the last part at its head.
clean_parts : Bool → List Text → List Text → List Text
unfolding back
clean_parts rooted stack [] = reverse stack
clean_parts rooted stack (part ∷ parts) =
    clean_parts rooted
      (if part == [] || part == b'.' ∷ []
        then stack
        else if part == dots
        then back rooted stack
        else part ∷ stack)
      parts

abbrev parts_of : Text → List Text
parts_of path = clean_parts (is_rooted path) [] (split b'/' path)

abbrev print_path : Bool → List Text → Text
print_path true parts = b'/' ∷ join b'/' parts
print_path false [] = b'.' ∷ []
print_path false (part ∷ parts) = join b'/' (part ∷ parts)

unfoldable pub clean : Text → Text
unfolding clean_parts
clean path = print_path (is_rooted path) (parts_of path)

unfoldable pub join_path : Text → Text → Text
unfolding clean
join_path dir name =
    if dir == []
    then (if name == [] then [] else clean name)
    else if name == []
    then clean dir
    else clean (dir ++ b'/' ∷ name)

-- The way from the parts of `base` to those of `target`; `none` is the error.
rel_parts : List Text → List Text → Option (List Text)
rel_parts [] target = some target
rel_parts (b ∷ base) [] = if b == dots then none else some (map (λ part. dots) (b ∷ base))
rel_parts (b ∷ base) (t ∷ target) =
    let deeper = rel_parts base target in
    if b == t
    then deeper
    else if b == dots
    then none
    else some (map (λ part. dots) (b ∷ base) ++ t ∷ target)

abbrev differ : Bool → Bool → Bool
differ a b = if a then not b else b

unfoldable pub rel : Text → Text → Option Text
unfolding rel_parts clean_parts
rel base target =
    if differ (is_rooted base) (is_rooted target)
    then none
    else elim (rel_parts (parts_of base) (parts_of target)) [
      | none ↦ none
      | some parts ↦ some (print_path false parts)
    ]
