-- ===== src/Settings/View/Layout.antt =====
-- What the terminal shows: as many lines as it has, as wide as it is, the footer at the end.
use dev_box.Common.{
  ℕ, ◌+◌, ◌≤◌, ◌≡◌, refl, max, Bool, true, false, ◌&&◌, List, [], ◌∷◌, ◌++◌, map, length,
  length-map, All, Option, some, none, Text, ltb, leb, ◌==◌, number_eq, Bool-cases, inl, inr, arith,
}
use dev_box.Settings.Boxes.{Time}
use dev_box.Settings.Model.{SettingsModel}
use dev_box.Settings.Model.Invariant.{IsValid}
use dev_box.Settings.View.Style.{Display, ellipsis}
use dev_box.Settings.View.Screen.{
  message_lines, budget_of, footer, header, body, single_column, both_panes, or_column, tall,
  render_lines, view,
}
use dev_box.Settings.View.PanesFit.{PanesFit, both_panes-PanesFit}
use dev_box.Settings.View.Fits.{FitsIn-some, body-FitsIn, render_lines-FitsIn}

module _ (d : Display) (on : Bool) (now : Time) (m : SettingsModel) where
  truncated-FitWidth :
      ((text : Text) (n : ℕ) → d.string_width (d.truncate text n ellipsis) ≤ n)
      → (width : ℕ) (lines : List Text)
      → All
          (λ line. d.string_width line ≤ width)
          (map (λ line. d.truncate line width ellipsis) lines)
  truncated-FitWidth narrows width [] = tt
  truncated-FitWidth narrows width (line ∷ lines) =
      (narrows line width, truncated-FitWidth narrows width lines)

  -- When truncation gives a text that is at most as wide as asked for, the model is valid and a terminal of three rows has no message to show, the view does not panic, has at most as many lines as the terminal has rows (one where it has none), and each line is at most as wide as the terminal (one cell where it has none).
  pub view-fits :
      ((text : Text) (n : ℕ) → d.string_width (d.truncate text n ellipsis) ≤ n)
      → IsValid m
      → (m.height ≡ 3 → m.message ≡ [])
      → (lines : List Text) × ((view d on now m ≡ some lines)
          × ((length lines ≤ max 1 m.height)
              × All (λ line. d.string_width line ≤ max 1 m.width) lines))
  unfolding view
  view-fits narrows v quiet =
      let (lines, (shown, fits)) =
        FitsIn-some d on now m (max 1 m.height) (render_lines d on now m)
          (render_lines-FitsIn d on now m v quiet) in
      (
        map (λ line. d.truncate line (max 1 m.width) ellipsis) lines,
        (
          rw shown refl,
          (
            rw (length-map (λ line. d.truncate line (max 1 m.width) ellipsis) lines) fits,
            truncated-FitWidth narrows (max 1 m.width) lines,
          ),
        ),
      )

  -- The message and the footer, after the other lines.
  abbrev pub EndsWithFooter : Option (List Text) → Type 0
  EndsWithFooter shown =
      (lines : List Text) × ((identity : Bool) × (shown
          ≡ some (lines ++ message_lines d on m ++ footer d on now m identity ∷ [])))

  single_column-EndsWithFooter : IsValid m → EndsWithFooter (single_column d on now m)
  unfolding single_column budget_of
  single_column-EndsWithFooter v =
      let budget = budget_of m (length (header d on now m) + 1) in
      let (lines, (shown, _)) =
        FitsIn-some d on now m budget (body d on now m budget)
          (body-FitsIn d on now m v budget (omega arith)) in
      (header d on now m ++ lines, (false, rw shown refl))

  or_column-EndsWithFooter :
      IsValid m
      → (budget : ℕ) (o : Option (Option (List Text))) → PanesFit budget o
      → EndsWithFooter (or_column d on now m o)
  unfolding or_column
  or_column-EndsWithFooter v budget none fits = absurd fits
  or_column-EndsWithFooter v budget (some none) fits = single_column-EndsWithFooter v
  or_column-EndsWithFooter v budget (some (some lines)) fits = (lines, (true, refl))

  -- On a terminal of three rows or more, the view of a valid model has the footer as its last line, and before it the message, if there is one.
  pub render_lines-EndsWithFooter :
      IsValid m → 3 ≤ m.height → EndsWithFooter (render_lines d on now m)
  unfolding render_lines tall
  render_lines-EndsWithFooter v h =
      let budget = budget_of m 1 in
      let small : leb m.height 1 ≡ false = ground arith in
      let two : (m.height == 2) ≡ false = ground arith in
      elim (Bool-cases (ltb 0 (length m.rows) && leb 6 budget)) [
        | inr flat ↦ rw small (rw two (rw flat (single_column-EndsWithFooter v)))
        | inl room ↦ rw small (
            rw two (
              rw room (
                or_column-EndsWithFooter v budget (both_panes d on now m budget)
                  (both_panes-PanesFit d on now m budget (ground arith) (ground arith)))))
      ]
