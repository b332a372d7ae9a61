-- ===== src/Settings/View/Scroll.antt =====
-- The window of the rows that do not fit.
use dev_box.Common.{
  ℕ, zero, suc, ◌+◌, ◌-◌, ◌<◌, ◌≡◌, refl, ◌∙◌, min, List, [], ◌∷◌, length, get_elem?, take, drop,
  length-take, length-drop, Text, ltb, leb, if◌then◌else◌, Bool-cases, inl, inr, arith, ap,
}
use dev_box.Settings.View.Rows.{scroll_rows}

module _ {ℓ} {A : Type ℓ} where
  get_elem?-take : (n i : ℕ) (xs : List A) → i < n → get_elem? (take n xs) i ≡ get_elem? xs i
  get_elem?-take zero i xs h = absurd (omega arith)
  get_elem?-take (suc n) i [] h = refl
  get_elem?-take (suc n) zero (x ∷ xs) h = refl
  get_elem?-take (suc n) (suc i) (x ∷ xs) h = get_elem?-take n i xs (omega arith)

  get_elem?-drop : (n i : ℕ) (xs : List A) → get_elem? (drop n xs) i ≡ get_elem? xs (n + i)
  get_elem?-drop zero i xs = let e : i ≡ 0 + i = omega arith in ap (get_elem? xs) e
  get_elem?-drop (suc n) i [] = refl
  get_elem?-drop (suc n) i (x ∷ xs) =
      let e : suc (n + i) ≡ suc n + i = omega arith in
      get_elem?-drop n i xs ∙ ap (get_elem? (x ∷ xs)) e

pub length-scroll_rows :
    (rows : List Text) (visible selected : ℕ)
    → length (scroll_rows rows visible selected) ≡ min (length rows) visible
unfolding scroll_rows
length-scroll_rows rows visible selected =
    let top = selected + 1 - visible in
    let start = if ltb (length rows) (top + visible) then length rows - visible else top in
    ground (arith, length-take visible (drop start rows), length-drop start rows)

-- As many rows are shown as fit, in their order, from some row on; the selected one is among them.
pub scroll_rows-shows :
    (rows : List Text) (visible selected : ℕ)
    → 0 < visible
    → selected < length rows
    → (length (scroll_rows rows visible selected) ≡ min (length rows) visible)
      × (start : ℕ) × (i : ℕ) × (start + i ≡ selected)
      × (i < min (length rows) visible)
      × ((k : ℕ)
          → k < min (length rows) visible
          → get_elem? (scroll_rows rows visible selected) k ≡ get_elem? rows (start + k))
unfolding scroll_rows
scroll_rows-shows rows visible selected h k = elim (Bool-cases (leb (length rows) visible)) [
  | inl fits ↦ (
    length-scroll_rows rows visible selected,
    0,
    selected,
    omega arith,
    ground arith,
    λ j below. rw fits (ap (get_elem? rows) (omega arith)),
  )
  | inr scrolls ↦
      let top = selected + 1 - visible in
      let start = if ltb (length rows) (top + visible) then length rows - visible else top in
      (
        length-scroll_rows rows visible selected,
        start,
        selected - start,
        ground arith,
        ground arith,
        λ j below. rw scrolls (
            get_elem?-take visible j (drop start rows) (omega arith) ∙ get_elem?-drop start j rows),
      )
]
