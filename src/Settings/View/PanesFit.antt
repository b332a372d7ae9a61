-- ===== src/Settings/View/PanesFit.antt =====
-- Whether the two panes, and the popup, fit the lines that are left for them.
use dev_box.Common.{
  ℕ, ◌≤◌, ◌<◌, ◌≡◌, inl, inr, Bool, List, length, get_elem?-some, Option, some, none, Text, ltb,
  leb, ◌==◌, number_eq, text_eq, Bool-cases, Option-cases, arith,
}
use dev_box.Settings.Boxes.{Time}
use dev_box.Settings.Rows.{BoxRow}
use dev_box.Settings.Model.{SettingsModel, clamp}
use dev_box.Settings.View.Style.{Display}
use dev_box.Settings.View.Frame.{zip_panes}
use dev_box.Settings.View.Dialog.{delete_popup}
use dev_box.Settings.View.Panes.{pane_widths, master_pane, detail_pane}
use dev_box.Settings.View.Height.{
  length-master_pane, length-detail_pane, length-zip_lines, length-delete_popup,
}
use dev_box.Settings.View.Screen.{is_open, selected_row, both_panes}

-- There is a row that is selected, if there are rows.
pub selected_row-some :
    (m : SettingsModel) → 0 < length m.rows → (r : BoxRow) × (selected_row m ≡ some r)
unfolding selected_row clamp
selected_row-some m h = get_elem?-some m.rows (clamp m.selected (length m.rows)) (ground arith)

-- Panes that do not fit are no fault; a panic is.
abbrev pub PanesFit : ℕ → Option (Option (List Text)) → Type 0
PanesFit budget none = ⊥
PanesFit budget (some none) = Unit
PanesFit budget (some (some lines)) = length lines ≤ budget

module _ (d : Display) (on : Bool) (now : Time) (m : SettingsModel) where
  popup-PanesFit :
      (r : BoxRow) (budget : ℕ)
      → 8 ≤ budget
      → PanesFit budget (some (delete_popup on d r m.width budget))
  popup-PanesFit r budget h = elim (Option-cases (delete_popup on d r m.width budget)) [
    | inl narrow ↦ rw narrow tt
    | inr (lines, fits) ↦ rw fits (length-delete_popup on d r m.width budget lines h fits)
  ]

  zipped-le :
      (r : BoxRow) (master detail budget : ℕ)
      → 9 ≤ budget
      → length
          (zip_panes d (master_pane d on m master budget) (detail_pane d on now r detail budget))
        ≤ budget
  unfolding zip_panes
  zipped-le r master detail budget h = simp length-zip_lines (
      omega (
        arith,
        length-master_pane d on m master budget (omega arith),
        length-detail_pane d on now r detail budget h,
      ))

  pane_widths-detail : (budget : ℕ) → 0 < (pane_widths m budget).1 → 9 ≤ budget
  unfolding pane_widths
  pane_widths-detail budget h = ground arith

  pub both_panes-PanesFit :
      (budget : ℕ) → 0 < length m.rows → 6 ≤ budget → PanesFit budget (both_panes d on now m budget)
  unfolding both_panes
  both_panes-PanesFit budget filled h =
      let (r, selected) = selected_row-some m filled in
      let (master, detail) = pane_widths m budget in
      elim (Bool-cases (is_open m.dialog)) [
        | inl about ↦ elim (Bool-cases (leb 8 budget)) [
          | inl room ↦ rw about (rw room (rw selected (popup-PanesFit r budget (ground arith))))
          | inr small ↦ rw about (rw small tt)
        ]
        | inr shut ↦ elim (Bool-cases (master == 0)) [
          | inl none_fits ↦ rw shut (rw none_fits tt)
          | inr one ↦ elim (Bool-cases (ltb 0 detail)) [
            | inl two ↦ rw shut (
                rw one (
                  rw two (
                    rw selected (
                      zipped-le r master detail budget
                        (pane_widths-detail budget (ground arith))))))
            | inr only ↦
                rw shut
                  (rw one (rw only (omega (arith, length-master_pane d on m master budget h))))
          ]
        ]
      ]
