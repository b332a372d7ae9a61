-- ===== src/Settings/View/Fits.antt =====
-- Whether the lines fit the terminal.
use dev_box.Common.{
  ℕ, ◌+◌, ◌-◌, ◌≤◌, ◌≡◌, ◌≢◌, refl, inl, inr, max, Bool, true, false, ◌&&◌, List, [], ◌∷◌, length,
  length-append, get_elem?-some, Option, some, none, Text, ltb, leb, ◌==◌, number_eq, text_eq,
  if◌then◌else◌, Bool-cases, arith, subst, bytes_dec,
}
use mathlib.Core.Option
use dev_box.Settings.Boxes.{Time}
use dev_box.Settings.Model.{SettingsModel, DialogState, no_dialog}
use dev_box.Settings.Model.Invariant.{IsValid}
use dev_box.Settings.View.Style.{Display}
use dev_box.Settings.View.Rows.{row_lines}
use dev_box.Settings.View.Scroll.{length-scroll_rows}
use dev_box.Settings.View.Dialog.{dialog_compact}
use dev_box.Settings.View.Height.{length-row_lines, length-dialog_lines}
use dev_box.Settings.View.PanesFit.{selected_row-some, PanesFit, both_panes-PanesFit}
use dev_box.Settings.View.Screen.{
  is_open, selected_row, message_lines, budget_of, footer, header, body_lines, selected_line, body,
  single_column, both_panes, or_column, tall, render_lines,
}

open-ne-no_dialog : (s : DialogState) → is_open s ≡ true → s ≢ no_dialog
open-ne-no_dialog s h e = ground arith

module _ (d : Display) (on : Bool) (now : Time) (m : SettingsModel) where
  length-body_lines : (budget : ℕ) → 1 ≤ budget → length (body_lines d on now m budget) ≤ budget
  unfolding body_lines
  length-body_lines budget h =
      ground (arith, length-scroll_rows (row_lines d on now m) budget m.selected)

  length-message_lines : length (message_lines d on m) ≡ (if m.message == [] then 0 else 1)
  unfolding message_lines
  length-message_lines = ground arith

  -- A panic does not fit.
  abbrev pub FitsIn : ℕ → Option (List Text) → Type 0
  FitsIn budget none = ⊥
  FitsIn budget (some lines) = length lines ≤ budget

  pub body-FitsIn : IsValid m → (budget : ℕ) → 1 ≤ budget → FitsIn budget (body d on now m budget)
  unfolding body
  body-FitsIn v budget h = elim (Bool-cases (is_open m.dialog)) [
    | inr shut ↦ rw shut (length-body_lines budget h)
    | inl about ↦
        let (r, selected) = selected_row-some m (v.about_row (open-ne-no_dialog m.dialog about)) in
        rw about (rw selected (length-dialog_lines on r budget h))
  ]

  FitsIn-map :
      (budget most : ℕ) (f : List Text → List Text) (o : Option (List Text))
      → ((lines : List Text) → length lines ≤ budget → length (f lines) ≤ most)
      → FitsIn budget o
      → FitsIn most (Option.map f o)
  FitsIn-map budget most f none h fits = fits
  FitsIn-map budget most f (some lines) h fits = h lines fits

  length-header : length (header d on now m) ≡ (if ltb m.height 7 then 1 else 3)
  unfolding header
  length-header = ground arith

  -- The lines that the message takes.
  abbrev message_height : ℕ
  message_height = if m.message == [] then 0 else 1

  single_column-FitsIn :
      IsValid m → 3 + message_height ≤ m.height → FitsIn m.height (single_column d on now m)
  unfolding single_column budget_of
  single_column-FitsIn v h =
      let budget = max 1 (m.height - (length (header d on now m) + 1) - message_height) in
      FitsIn-map budget m.height _ (body d on now m budget)
        (λ lines fits.
          simp (length-append, length-message_lines) (ground (arith, length-header, fits)))
        (body-FitsIn v budget (omega arith))

  -- The lines that the message takes, and the footer, are left free.
  or_column-FitsIn :
      IsValid m
      → 3 + message_height ≤ m.height
      → (o : Option (Option (List Text))) → PanesFit (m.height - 1 - message_height) o
      → FitsIn m.height (or_column d on now m o)
  unfolding or_column
  or_column-FitsIn v h none fits = fits
  or_column-FitsIn v h (some none) fits = single_column-FitsIn v h
  or_column-FitsIn v h (some (some lines)) fits =
      simp (length-append, length-message_lines) (omega arith)

  tall-FitsIn : IsValid m → 3 + message_height ≤ m.height → FitsIn m.height (tall d on now m)
  unfolding tall budget_of
  tall-FitsIn v h =
      let budget = max 1 (m.height - 1 - message_height) in
      elim (Bool-cases (ltb 0 (length m.rows) && leb 6 budget)) [
        | inr flat ↦ rw flat (single_column-FitsIn v h)
        | inl room ↦
            let same : budget ≡ m.height - 1 - message_height = omega arith in
            rw room (
              or_column-FitsIn v h (both_panes d on now m budget) (
                subst (λ n. PanesFit n (both_panes d on now m budget)) same
                  (both_panes-PanesFit d on now m budget (ground arith) (ground arith))))
      ]

  compact-FitsIn :
      IsValid m
      → FitsIn 2 (
          Option.map
            (λ line. line ∷ footer d on now m false ∷ [])
            (if is_open m.dialog
              then Option.map (dialog_compact on) (selected_row m)
              else selected_line d on now m))
  unfolding selected_line
  compact-FitsIn v = elim (Bool-cases (is_open m.dialog)) [
    | inl about ↦
        let (r, selected) = selected_row-some m (v.about_row (open-ne-no_dialog m.dialog about)) in
        rw about (rw selected (omega arith))
    | inr shut ↦ elim (Bool-cases (length m.rows == 0)) [
      | inl empty ↦ rw shut (rw empty (omega arith))
      | inr filled ↦
          let (line, found) =
            get_elem?-some (row_lines d on now m) m.selected
              (rw (length-row_lines d on now m) (let range = v.in_range in ground arith)) in
          rw shut (rw filled (rw found (omega arith)))
    ]
  ]

  FitsIn-le :
      (budget most : ℕ) (o : Option (List Text)) → budget ≤ most → FitsIn budget o → FitsIn most o
  FitsIn-le budget most none le fits = fits
  FitsIn-le budget most (some lines) le fits = omega arith

  message_room : (m.height ≡ 3 → m.message ≡ []) → 3 ≤ m.height → 3 + message_height ≤ m.height
  unfolding bytes_dec
  message_room quiet h = elim (Bool-cases (m.height == 3)) [
    | inl three ↦
        let none_said : m.message ≡ [] = quiet (ground arith) in rw none_said (omega arith)
    | inr more ↦ ground arith
  ]

  pub render_lines-FitsIn :
      IsValid m
      → (m.height ≡ 3 → m.message ≡ [])
      → FitsIn (max 1 m.height) (render_lines d on now m)
  unfolding render_lines
  render_lines-FitsIn v quiet = elim (Bool-cases (leb m.height 1)) [
    | inl one ↦ rw one (omega arith)
    | inr more ↦ elim (Bool-cases (m.height == 2)) [
      | inl two ↦
          rw more (rw two (FitsIn-le 2 (max 1 m.height) _ (ground arith) (compact-FitsIn v)))
      | inr taller ↦ rw more (
          rw taller (
            FitsIn-le m.height (max 1 m.height) _ (omega arith)
              (tall-FitsIn v (message_room quiet (ground arith)))))
    ]
  ]

  -- What fits is there.
  pub FitsIn-some :
      (budget : ℕ) (o : Option (List Text))
      → FitsIn budget o
      → (lines : List Text) × ((o ≡ some lines) × (length lines ≤ budget))
  FitsIn-some budget none fits = absurd fits
  FitsIn-some budget (some lines) fits = (lines, (refl, fits))
