-- ===== src/Strings/Sort/Members.antt =====
-- Sorting keeps the members.
use dev_box.Common.{
  ◌≡◌, refl, false, ◌||◌, List, [], ◌∷◌, ◌++◌, Text, All, contains, Distinct, Bool-cases, inl, inr,
  ◌==◌, text_eq, arith,
}
use dev_box.Strings.Sort.{text_leb, place, sort}

contains-place : (x y : Text) (l : List Text) → contains (place x l) y ≡ (y == x || contains l y)
unfolding place
contains-place x y [] = refl
contains-place x y (z ∷ l) = ground (arith, contains-place x y l)

pub contains-sort : (y : Text) (l : List Text) → contains (sort l) y ≡ contains l y
unfolding sort
contains-sort y [] = refl
contains-sort y (x ∷ l) = rw contains-place (rw (contains-sort y l))

place-Distinct :
    (x : Text) (l : List Text) → contains l x ≡ false → Distinct l → Distinct (place x l)
unfolding place
place-Distinct x [] h d = (refl, tt)
place-Distinct x (z ∷ l) h (fresh, d) = ground (arith, contains-place x z l, place-Distinct x l)

pub sort-Distinct : (l : List Text) → Distinct l → Distinct (sort l)
unfolding sort
sort-Distinct [] d = tt
sort-Distinct (x ∷ l) (fresh, d) =
    place-Distinct x (sort l) (rw (contains-sort x l) fresh) (sort-Distinct l d)

module _ (P : Text → Type 0) where
  place-All : (x : Text) (l : List Text) → P x → All P l → All P (place x l)
  unfolding place
  place-All x [] p h = (p, tt)
  place-All x (y ∷ l) p (q, h) = elim (Bool-cases (text_leb x y)) [
    | inl first ↦ rw (first, place) (p, (q, h))
    | inr later ↦ rw (later, place) (q, place-All x l p h)
  ]

  pub sort-All : (l : List Text) → All P l → All P (sort l)
  unfolding sort
  sort-All [] h = tt
  sort-All (x ∷ l) (p, h) = place-All x (sort l) p (sort-All l h)

contains-snoc_ne :
    (x t : Text) (l : List Text)
    → contains l x ≡ false
    → (x == t) ≡ false
    → contains (l ++ t ∷ []) x ≡ false
contains-snoc_ne x t [] h k = ground arith
contains-snoc_ne x t (y ∷ l) h k = ground (arith, contains-snoc_ne x t l)

pub Distinct-snoc :
    (t : Text) (l : List Text) → Distinct l → contains l t ≡ false → Distinct (l ++ t ∷ [])
Distinct-snoc t [] d h = (refl, tt)
Distinct-snoc t (x ∷ l) (fresh, d) h =
    (contains-snoc_ne x t l fresh (ground arith), Distinct-snoc t l d (ground arith))
