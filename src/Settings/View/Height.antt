-- ===== src/Settings/View/Height.antt =====
-- The count of the lines.
use dev_box.Common.{
  ℕ, zero, suc, ◌+◌, ◌-◌, ◌≤◌, ◌≡◌, refl, ap, inl, inr, max, Bool, List, [], ◌∷◌, ◌++◌, map, length,
  length-append, length-map, some, Text, codes, ltb, ◌==◌, number_eq, text_eq, Bool-cases, arith,
  ◌/◌,
}
use dev_box.Settings.Boxes.{Time}
use dev_box.Settings.Rows.{
  RowState, BoxRow, checking, running, pending, terminating, error, not_created, unavailable,
  refused,
}
use dev_box.Settings.Model.{SettingsModel}
use dev_box.Settings.View.Style.{Display, sanitize, repeat, separator}
use dev_box.Settings.View.Frame.{zip_lines, pane_top, widest}
use dev_box.Settings.View.Rows.{master_rows_from, master_row_lines, rows_from, row_lines}
use dev_box.Settings.View.Scroll.{length-scroll_rows}
use dev_box.Settings.View.Dialog.{dialog_lines, popup, popup_content, blanks, delete_popup}
use dev_box.Settings.View.Panes.{
  chrome, empty_lines, fill_to, cap_block, master_pane, strip, ledger, data_lines, detail_lines,
  detail_pane, honesty,
}

module _ (d : Display) (on : Bool) where
  length-master_rows_from :
      (width i selected : ℕ) (rows : List BoxRow)
      → length (master_rows_from d on width i selected rows) ≡ length rows
  unfolding master_rows_from
  length-master_rows_from width i selected [] = refl
  length-master_rows_from width i selected (r ∷ rows) =
      ap suc (length-master_rows_from width (suc i) selected rows)

  pub length-master_row_lines :
      (m : SettingsModel) → length (master_row_lines d on m) ≡ length m.rows
  unfolding master_row_lines
  length-master_row_lines m = length-master_rows_from _ 0 m.selected m.rows

  length-empty_lines : (inner n : ℕ) → length (empty_lines d inner n) ≡ n
  unfolding empty_lines
  length-empty_lines inner zero = refl
  length-empty_lines inner (suc n) = ap suc (length-empty_lines inner n)

  length-fill_to :
      (inner target : ℕ) (lines : List Text)
      → length (fill_to d inner target lines) ≡ max (length lines) target
  unfolding fill_to
  length-fill_to inner target lines = omega (
    arith,
    length-append lines (empty_lines d inner (target - length lines)),
    length-empty_lines inner (target - length lines),
  )

  length-cap_block :
      (m : SettingsModel) (inner : ℕ) → length (cap_block d on m inner) + 2 ≡ chrome m
  unfolding cap_block chrome
  length-cap_block m inner = ground arith

  chrome-le : (m : SettingsModel) → chrome m ≤ 5
  unfolding chrome
  chrome-le m = ground arith

  -- The master pane fills its budget.
  pub length-master_pane :
      (m : SettingsModel) (inner budget : ℕ)
      → 6 ≤ budget
      → length (master_pane d on m inner budget) ≡ budget
  unfolding master_pane
  length-master_pane m inner budget h =
      simp
        (length-append, length-map, length-empty_lines, length-scroll_rows, length-master_row_lines)
        (omega (arith, length-cap_block m inner, chrome-le m))

module _ (d : Display) (on : Bool) (now : Time) where
  length-rows_from :
      (width i selected : ℕ) (rows : List BoxRow)
      → length (rows_from d on now width i selected rows) ≡ length rows
  unfolding rows_from
  length-rows_from width i selected [] = refl
  length-rows_from width i selected (r ∷ rows) =
      ap suc (length-rows_from width (suc i) selected rows)

  pub length-row_lines : (m : SettingsModel) → length (row_lines d on now m) ≡ length m.rows
  unfolding row_lines
  length-row_lines m = length-rows_from _ 0 m.selected m.rows

  length-data_lines :
      (r : BoxRow) (inner budget : ℕ) (lines : List Text)
      → length lines ≡ 1
      → 9 ≤ budget
      → length (data_lines d on now r inner budget lines) ≡ budget - 1
  unfolding data_lines strip ledger
  length-data_lines r inner budget lines one h = elim (Bool-cases (honesty d on r == [])) [
    | inl quiet ↦ rw quiet (simp (length-append, length-map, length-fill_to) (omega arith))
    | inr told ↦ elim (Bool-cases (ltb budget 10)) [
      | inl small ↦
          rw told (rw small (simp (length-append, length-map, length-fill_to) (ground arith)))
      | inr large ↦
          rw told (rw large (simp (length-append, length-map, length-fill_to) (ground arith)))
    ]
  ]

  length-detail_lines :
      (state : RowState) (r : BoxRow) (inner budget : ℕ) (lines : List Text)
      → length lines ≡ 1
      → 9 ≤ budget
      → length (detail_lines d on state now r inner budget lines) ≤ budget - 1
  unfolding detail_lines
  length-detail_lines not_created r inner budget lines one h = simp length-append (omega arith)
  length-detail_lines checking r inner budget lines one h = simp length-append (omega arith)
  length-detail_lines refused r inner budget lines one h = simp length-append (omega arith)
  length-detail_lines unavailable r inner budget lines one h = simp length-append (omega arith)
  length-detail_lines running r inner budget lines one h =
      omega (arith, length-data_lines r inner budget lines one h)
  length-detail_lines pending r inner budget lines one h =
      omega (arith, length-data_lines r inner budget lines one h)
  length-detail_lines terminating r inner budget lines one h =
      omega (arith, length-data_lines r inner budget lines one h)
  length-detail_lines error r inner budget lines one h =
      omega (arith, length-data_lines r inner budget lines one h)

  -- So does the detail pane, so that both close on one line.
  pub length-detail_pane :
      (r : BoxRow) (inner budget : ℕ)
      → 9 ≤ budget
      → length (detail_pane d on now r inner budget) ≡ budget
  unfolding detail_pane
  length-detail_pane r inner budget h =
      simp (length-append, length-fill_to)
        (omega (
          arith,
          length-detail_lines r.state r inner budget
              (pane_top d (sanitize d r.template ++ separator ++ r.name) inner ∷ []) refl h,
        ))

pub length-zip_lines :
    (blank : Text) (left right : List Text)
    → length (zip_lines blank left right) ≡ max (length left) (length right)
unfolding zip_lines
length-zip_lines blank [] [] = refl
length-zip_lines blank [] (r ∷ right) = omega (arith, length-zip_lines blank [] right)
length-zip_lines blank (l ∷ left) [] = omega (arith, length-zip_lines blank left [])
length-zip_lines blank (l ∷ left) (r ∷ right) = omega (arith, length-zip_lines blank left right)

length-blanks : (on : Bool) (d : Display) (n : ℕ) → length (blanks on d n) ≡ n
unfolding blanks
length-blanks on d zero = refl
length-blanks on d (suc n) = ap suc (length-blanks on d n)

length-popup :
    (on : Bool) (d : Display) (r : BoxRow) (budget inner : ℕ)
    → 8 ≤ budget
    → length (popup on d r budget inner) ≤ budget
unfolding popup
length-popup on d r budget inner h = simp (length-append, length-map) (ground arith)

-- The popup fits the budget.
pub length-delete_popup :
    (on : Bool) (d : Display) (r : BoxRow) (width budget : ℕ) (lines : List Text)
    → 8 ≤ budget
    → delete_popup on d r width budget ≡ some lines
    → length lines ≤ budget
unfolding delete_popup
length-delete_popup on d r width budget lines h e =
    let inner = widest d.string_width (popup_content on d r budget) in
    let box = popup on d r budget inner in
    let indent = repeat ((width - (inner + 4)) / 2) (codes " ") in
    elim (Bool-cases (ltb width (inner + 4))) [
      | inl narrow ↦ absurd (ground arith)
      | inr wide ↦
          let same : blanks on d ((budget - length box) / 2) ++ map (λ line. indent ++ line) box
              ≡ lines =
            ground arith in
          rw (← same) (
            simp (length-append, length-blanks, length-map)
              (omega (arith, length-popup on d r budget inner h)))
    ]

pub length-dialog_lines :
    (on : Bool) (r : BoxRow) (budget : ℕ) → 1 ≤ budget → length (dialog_lines on r budget) ≤ budget
unfolding dialog_lines
length-dialog_lines on r budget h = ground arith
