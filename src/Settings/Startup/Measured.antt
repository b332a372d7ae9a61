-- ===== src/Settings/Startup/Measured.antt =====
-- The size of the terminal that the application starts with.
use dev_box.Common.{
  ℕ, ◌<◌, ◌≡◌, refl, ap, ◌⊎◌, inl, inr, true, false, List, [], ◌∷◌, ◌++◌, map, Option, none, some,
  All, Bool-cases, arith,
}
use dev_box.Settings.Startup.{is_empty, measure}

abbrev IsVisible : ℕ × ℕ → Type 0
IsVisible size = (0 < size.0) × (0 < size.1)

abbrev IsHidden : ℕ × ℕ → Type 0
IsHidden size = (size.0 ≡ 0) ⊎ (size.1 ≡ 0)

-- Of the answers to what the size is, the first positive one; all before it are sizes, and are zero.
abbrev pub IsFirstSize : List (Option (ℕ × ℕ)) → ℕ × ℕ → Type 0
IsFirstSize answers size =
    (before : List (ℕ × ℕ)) × (after : List (Option (ℕ × ℕ))) × (answers
      ≡ map some before ++ some size ∷ after)
    × All IsHidden before
    × IsVisible size

is_empty-IsHidden : (size : ℕ × ℕ) → is_empty size ≡ true → IsHidden size
is_empty-IsHidden size h = ground arith

IsHidden-is_empty : (size : ℕ × ℕ) → IsHidden size → is_empty size ≡ true
IsHidden-is_empty size h = ground arith

IsVisible-is_empty : (size : ℕ × ℕ) → IsVisible size → is_empty size ≡ false
IsVisible-is_empty size h = ground arith

pub measure-IsFirstSize :
    (first : Option (ℕ × ℕ)) (later : List (Option (ℕ × ℕ))) (size : ℕ × ℕ)
    → measure first later ≡ some size
    → is_empty size ≡ false
    → IsFirstSize (first ∷ later) size
unfolding measure
measure-IsFirstSize none later size h shown = absurd (ground arith)
measure-IsFirstSize (some z) [] size h shown =
    let same : z ≡ size = ground arith in ([], [], rw same refl, tt, ground arith)
measure-IsFirstSize (some z) (next ∷ later) size h shown = elim (Bool-cases (is_empty z)) [
  | inl hidden ↦
      let rest = rw hidden at h in
      let (before, after, e, zero, visible) = measure-IsFirstSize next later size rest shown in
      (z ∷ before, after, ap (λ l. some z ∷ l) e, (is_empty-IsHidden z hidden, zero), visible)
  | inr visible ↦
      let same : z ≡ size = ground arith in ([], next ∷ later, rw same refl, tt, ground arith)
]

found-measure :
    (before : List (ℕ × ℕ)) (after : List (Option (ℕ × ℕ))) (size : ℕ × ℕ) (first : Option (ℕ × ℕ))
    (later : List (Option (ℕ × ℕ)))
    → first ∷ later ≡ map some before ++ some size ∷ after
    → All IsHidden before
    → IsVisible size
    → measure first later ≡ some size
unfolding measure
found-measure [] after size first [] e zero visible = ground arith
found-measure [] after size first (next ∷ later) e zero visible =
    let same : first ≡ some size = ground arith in
    rw same (rw (IsVisible-is_empty size visible) refl)
found-measure (z ∷ []) after size first [] e zero visible = absurd (ground arith)
found-measure (z ∷ y ∷ before) after size first [] e zero visible = absurd (ground arith)
found-measure (z ∷ before) after size first (next ∷ later) e (hidden, zero) visible =
    let same : first ≡ some z = ground arith in
    let rest : next ∷ later ≡ map some before ++ some size ∷ after = ground arith in
    rw same (
      rw (IsHidden-is_empty z hidden)
        (found-measure before after size next later rest zero visible))

pub IsFirstSize-measure :
    (first : Option (ℕ × ℕ)) (later : List (Option (ℕ × ℕ))) (size : ℕ × ℕ)
    → IsFirstSize (first ∷ later) size
    → (measure first later ≡ some size) × (is_empty size ≡ false)
IsFirstSize-measure first later size (before, after, e, zero, visible) =
    (found-measure before after size first later e zero visible, IsVisible-is_empty size visible)
