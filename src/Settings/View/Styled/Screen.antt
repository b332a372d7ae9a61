-- ===== src/Settings/View/Styled/Screen.antt =====
-- The screen holds no escape sequence but those of the styles.
use dev_box.Common.{
  ℕ, ◌≡◌, refl, Bool, true, false, ◌&&◌, List, [], ◌∷◌, map, length, get_elem?, All, Text, codes,
  ltb, leb, max, Option, none, some, if◌then◌else◌, ◌==◌, text_eq, number_eq, Bool-cases,
  Option-cases, inl, inr, arith,
}
use mathlib.Core.Option
use dev_box.Settings.Boxes.{Time}
use dev_box.Settings.Rows.{BoxRow}
use dev_box.Settings.Model.{SettingsModel}
use dev_box.Settings.Model.Invariant.{IsValid}
use dev_box.Settings.View.Style.{Display, ellipsis}
use dev_box.Settings.View.Frame.{zip_panes}
use dev_box.Settings.View.Rows.{row_lines}
use dev_box.Settings.View.Dialog.{dialog_compact, delete_popup}
use dev_box.Settings.View.Panes.{pane_widths, master_pane, detail_pane}
use dev_box.Settings.View.Screen.{
  is_open, selected_row, budget_of, footer, selected_line, both_panes, or_column, tall,
  render_lines, view,
}
use dev_box.Settings.View.Fits.{FitsIn-some, render_lines-FitsIn}
use dev_box.Settings.View.Layout.{render_lines-EndsWithFooter}
use dev_box.Settings.View.Styled.{plain, Shows, styled_dim, styled_ellipsis}
use dev_box.Settings.View.Styled.Frames.{AllStyled, map-AllStyled, zip_panes-AllStyled}
use dev_box.Settings.View.Styled.Rows.{IsClean}
use dev_box.Settings.View.Styled.Single.{row_lines-AllStyled, styled_compact}
use dev_box.Settings.View.Styled.Popup.{delete_popup-AllStyled}
use dev_box.Settings.View.Styled.Panes.{master_pane-AllStyled, detail_pane-AllStyled}
use dev_box.Settings.View.Styled.Whole.{
  MayShow, selected_row-IsClean, styled_footer, ended, single_column-MayShow, get_elem?-AllStyled,
}

module _ (d : Display) (shows : Shows d) (on : Bool) (now : Time) (m : SettingsModel)
    (c : All IsClean m.rows) where
  -- Panes that do not fit show nothing either.
  MayShowPanes : Option (Option (List Text)) → Type 0
  MayShowPanes none = Unit
  MayShowPanes (some shown) = MayShow shown

  of_row-MayShowPanes :
      (f : BoxRow → Option (List Text))
      → ((row : BoxRow) → IsClean row → MayShow (f row))
      → MayShowPanes (Option.map f (selected_row m))
  unfolding MayShowPanes
  of_row-MayShowPanes f keeps = elim (Option-cases (selected_row m)) [
    | inl missing ↦ rw missing tt
    | inr (row, found) ↦ rw found (keeps row (selected_row-IsClean d shows on now m c row found))
  ]

  popup-MayShow :
      (row : BoxRow) (budget : ℕ) → IsClean row → MayShow (delete_popup on d row m.width budget)
  popup-MayShow row budget (t, n) = elim (delete_popup-AllStyled d shows on row m.width budget n) [
    | inl narrow ↦ rw narrow tt
    | inr (lines, (found, s)) ↦ rw found s
  ]

  both_panes-MayShowPanes : (budget : ℕ) → MayShowPanes (both_panes d on now m budget)
  unfolding both_panes MayShowPanes
  both_panes-MayShowPanes budget =
      let (master, detail) = pane_widths m budget in
      let left = master_pane-AllStyled d shows on m master budget in
      elim (Bool-cases (is_open m.dialog)) [
        | inl about ↦ elim (Bool-cases (leb 8 budget)) [
          | inl room ↦ rw about (
              rw room (
                of_row-MayShowPanes (λ row. delete_popup on d row m.width budget)
                  (λ row clean. popup-MayShow row budget clean)))
          | inr small ↦ rw about (rw small tt)
        ]
        | inr shut ↦ elim (Bool-cases (master == 0)) [
          | inl none_fits ↦ rw shut (rw none_fits tt)
          | inr one ↦ elim (Bool-cases (ltb 0 detail)) [
            | inl two ↦ rw shut (
                rw one (
                  rw two (
                    of_row-MayShowPanes
                      (λ row. some (
                        zip_panes d (master_pane d on m master budget)
                          (detail_pane d on now row detail budget)))
                      (λ row clean.
                        zip_panes-AllStyled d shows (master_pane d on m master budget)
                          (detail_pane d on now row detail budget) left
                          (detail_pane-AllStyled d shows on now row detail budget)))))
            | inr only ↦ rw shut (rw one (rw only left))
          ]
        ]
      ]

  or_column-MayShow :
      (o : Option (Option (List Text))) → MayShowPanes o → MayShow (or_column d on now m o)
  unfolding or_column MayShowPanes
  or_column-MayShow none s = tt
  or_column-MayShow (some none) s = single_column-MayShow d shows on now m c
  or_column-MayShow (some (some lines)) s = ended d shows on now m c true lines s

  tall-MayShow : MayShow (tall d on now m)
  unfolding tall
  tall-MayShow = elim (Bool-cases (ltb 0 (length m.rows) && leb 6 (budget_of m 1))) [
    | inl room ↦
        rw room
          (or_column-MayShow (both_panes d on now m (budget_of m 1)) (both_panes-MayShowPanes _))
    | inr flat ↦ rw flat (single_column-MayShow d shows on now m c)
  ]

  compact-MayShow : MayShow (
      Option.map
        (λ line. line ∷ footer d on now m false ∷ [])
        (if is_open m.dialog
          then Option.map (dialog_compact on) (selected_row m)
          else selected_line d on now m))
  unfolding selected_line codes
  compact-MayShow = elim (Bool-cases (is_open m.dialog)) [
    | inl about ↦ elim (Option-cases (selected_row m)) [
      | inl missing ↦ rw about (rw missing tt)
      | inr (row, found) ↦ rw about (
          rw found (
            styled_compact on row (selected_row-IsClean d shows on now m c row found),
            (styled_footer d shows on now m c false, tt),
          ))
    ]
    | inr shut ↦ elim (Bool-cases (length m.rows == 0)) [
      | inl empty ↦ rw shut (
          rw empty (
            styled_dim on (plain (codes "no box templates") refl),
            (styled_footer d shows on now m c false, tt),
          ))
      | inr filled ↦ elim (Option-cases (get_elem? (row_lines d on now m) m.selected)) [
        | inl missing ↦ rw shut (rw filled (rw missing tt))
        | inr (line, found) ↦ rw shut (
            rw filled (
              rw found (
                get_elem?-AllStyled (row_lines d on now m) m.selected line
                    (row_lines-AllStyled d shows on now m c) found,
                (styled_footer d shows on now m c false, tt),
              )))
      ]
    ]
  ]

  render_lines-MayShow : MayShow (render_lines d on now m)
  unfolding render_lines
  render_lines-MayShow = elim (Bool-cases (leb m.height 1)) [
    | inl one ↦ rw one (styled_footer d shows on now m c false, tt)
    | inr more ↦ elim (Bool-cases (m.height == 2)) [
      | inl two ↦ rw more (rw two compact-MayShow)
      | inr taller ↦ rw more (rw taller tall-MayShow)
    ]
  ]

  -- A valid model has lines.
  render_lines-some : IsValid m → (lines : List Text) × (render_lines d on now m ≡ some lines)
  render_lines-some v = elim (Bool-cases (leb 3 m.height)) [
    | inl room ↦
        let (lines, (identity, shown)) = render_lines-EndsWithFooter d on now m v (ground arith) in
        (_, shown)
    | inr small ↦
        let (lines, (shown, _)) =
          FitsIn-some d on now m (max 1 m.height) (render_lines d on now m)
            (render_lines-FitsIn d on now m v (λ three. absurd (ground arith))) in
        (lines, shown)
  ]

  -- When the terminal's library calls no control character printable and cuts no code in two, and the rows' templates and names hold no control byte, the view of a valid model does not panic, and no line of it holds a control byte of ASCII except in one of the six codes of the styles: whatever the owner, the messages and the API's texts are, they bring no other escape sequence to the terminal.
  pub view-AllStyled :
      IsValid m → (lines : List Text) × ((view d on now m ≡ some lines) × AllStyled lines)
  unfolding view
  view-AllStyled v =
      let (lines, shown) = render_lines-some v in
      let s = rw shown at render_lines-MayShow in
      let cut : Text → Text = λ line. d.truncate line (max 1 m.width) ellipsis in
      (
        map cut lines,
        (
          rw shown refl,
          map-AllStyled cut lines
              (λ line h. shows.cuts line ellipsis (max 1 m.width) h styled_ellipsis) s,
        ),
      )
