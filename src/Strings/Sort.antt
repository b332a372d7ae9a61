-- ===== src/Strings/Sort.antt =====
-- `sort.Strings`: the ascending order of texts by bytes. As the order is total, the sorted list is
-- determined, and insertion sort gives it.
pub mod Members
use dev_box.Common.{
  ℕ, ◌≡◌, refl, ap, Bool, true, false, ◌&&◌, ◌||◌, List, [], ◌∷◌, arith, Text, ltb, ◌==◌,
  if◌then◌else◌, number_eq,
}
use mathlib.Core.List.{Perm}
use mathlib.Core.List.Perm

-- `a <= b`
unfoldable pub text_leb : Text → Text → Bool
text_leb [] t = true
text_leb (a ∷ s) [] = false
text_leb (a ∷ s) (b ∷ t) = ltb a b || (a == b && text_leb s t)

unfoldable pub place : Text → List Text → List Text
place x [] = x ∷ []
place x (y ∷ l) = if text_leb x y then x ∷ y ∷ l else y ∷ place x l

unfoldable pub sort : List Text → List Text
unfolding place text_leb
sort [] = []
sort (x ∷ l) = place x (sort l)

abbrev pub IsSorted : List Text → Type 0
IsSorted [] = Unit
IsSorted (x ∷ []) = Unit
IsSorted (x ∷ y ∷ l) = (text_leb x y ≡ true) × IsSorted (y ∷ l)

pub text_leb_total : (s t : Text) → text_leb s t ≡ false → text_leb t s ≡ true
unfolding text_leb
text_leb_total [] t h = ground arith
text_leb_total (a ∷ s) [] h = refl
text_leb_total (a ∷ s) (b ∷ t) h = ground (arith, text_leb_total s t)

place-IsSorted : (x : Text) (l : List Text) → IsSorted l → IsSorted (place x l)
unfolding place
place-IsSorted x [] h = tt
place-IsSorted x (y ∷ []) h = ground (arith, text_leb_total x y)
place-IsSorted x (y ∷ z ∷ l) h = ground (arith, text_leb_total x y, place-IsSorted x (z ∷ l) h.1)

pub sort-IsSorted : (l : List Text) → IsSorted (sort l)
unfolding sort
sort-IsSorted [] = tt
sort-IsSorted (x ∷ l) = place-IsSorted x (sort l) (sort-IsSorted l)

place_first : (x : Text) (l : List Text) → IsSorted (x ∷ l) → place x l ≡ x ∷ l
unfolding place
place_first x [] h = refl
place_first x (y ∷ l) h = ground arith

IsSorted-tail : (x : Text) (l : List Text) → IsSorted (x ∷ l) → IsSorted l
IsSorted-tail x [] h = tt
IsSorted-tail x (y ∷ l) h = h.1

-- A sorted list is left as it is.
pub sort-eq_self : (l : List Text) → IsSorted l → sort l ≡ l
unfolding sort
sort-eq_self [] h = refl
sort-eq_self (x ∷ l) h = rw (sort-eq_self l (IsSorted-tail x l h)) (place_first x l h)

place-perm : (x : Text) (l : List Text) → Perm (place x l) (x ∷ l)
unfolding place
place-perm x [] = Perm.refl (x ∷ [])
place-perm x (y ∷ l) =
    elim (text_leb x y) as (λ b. Perm (if b then x ∷ y ∷ l else y ∷ place x l) (x ∷ y ∷ l)) [
      | true ↦ Perm.refl (x ∷ y ∷ l)
      | false ↦ Perm.trans (Perm.cons y (place-perm x l)) (Perm.swap x y l)
    ]

pub sort-perm : (l : List Text) → Perm (sort l) l
unfolding sort
sort-perm [] = Perm.refl []
sort-perm (x ∷ l) = Perm.trans (place-perm x (sort l)) (Perm.cons x (sort-perm l))
