-- ===== src/Strings/Split.antt =====
-- `strings.Split` at one byte, and `strings.Join` with one.
use dev_box.Common.{
  ℕ, ◌≡◌, refl, ap, true, not, List, [], ◌∷◌, ◌++◌, arith, Text, all, ◌==◌, if◌then◌else◌,
  number_eq,
}

abbrev push_front : ℕ → List Text → List Text
push_front b [] = (b ∷ []) ∷ []
push_front b (part ∷ parts) = (b ∷ part) ∷ parts

unfoldable pub split : ℕ → Text → List Text
split c [] = [] ∷ []
split c (b ∷ s) = let rest = split c s in if b == c then [] ∷ rest else push_front b rest

unfoldable pub join : ℕ → List Text → Text
join c [] = []
join c (part ∷ []) = part
join c (part ∷ next ∷ parts) = part ++ c ∷ join c (next ∷ parts)

-- The last part of a split, which is never empty.
abbrev pub last_part : List Text → Text
last_part [] = []
last_part (part ∷ []) = part
last_part (part ∷ next ∷ parts) = last_part (next ∷ parts)

abbrev pub Lacks : ℕ → Text → Type 0
Lacks c s = all (λ b. not (b == c)) s ≡ true

split_of_Lacks : (c : ℕ) (s : Text) → Lacks c s → split c s ≡ s ∷ []
unfolding split
split_of_Lacks c [] h = refl
split_of_Lacks c (b ∷ s) h = ground (arith, split_of_Lacks c s)

split-append : (c : ℕ) (s rest : Text) → Lacks c s → split c (s ++ c ∷ rest) ≡ s ∷ split c rest
unfolding split
split-append c [] rest h = ground arith
split-append c (b ∷ s) rest h = ground (arith, split-append c s rest)

abbrev pub AllLack : ℕ → List Text → Type 0
AllLack c [] = Unit
AllLack c (s ∷ parts) = Lacks c s × AllLack c parts

-- Splitting undoes joining, for one part at least and parts without the separator.
pub split-join :
    (c : ℕ) (part : Text) (parts : List Text)
    → Lacks c part
    → AllLack c parts
    → split c (join c (part ∷ parts)) ≡ part ∷ parts
unfolding join
split-join c part [] h hs = split_of_Lacks c part h
split-join c part (next ∷ parts) h (k, ks) =
    rw (split-append c part (join c (next ∷ parts)) h)
      (ap (◌∷◌ part) (split-join c next parts k ks))
