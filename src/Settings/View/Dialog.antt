-- ===== src/Settings/View/Dialog.antt =====
-- settings-tui/view.go: the confirmation of a deletion, in the body and as a popup. `row` is the
-- selected row.
use dev_box.Common.{
  ℕ, zero, suc, ◌+◌, ◌-◌, ◌/◌, Bool, List, [], ◌∷◌, ◌++◌, map, Option, none, some, Text, codes,
  length, ltb, leb, ◌==◌, if◌then◌else◌, number_eq,
}
use dev_box.Strings.Utf8.{utf8}
use dev_box.Settings.Rows.{BoxRow}
use dev_box.Settings.View.Style.{Display, repeat, sanitize, dim, bold, red, separator}
use dev_box.Settings.View.Frame.{pane_top, pane_line, pane_bottom, widest}
use dev_box.Settings.View.Rows.{host_placeholder}

abbrev pub delete_data_warning : Text
delete_data_warning = codes "Local disk data is destroyed; data on retained PVCs is kept."

module _ (on : Bool) where
  abbrev pub keys_line : Text
  keys_line = red on (codes "y delete") ++ separator ++ dim on (codes "n/Esc cancel")

  abbrev pub prompt : Text → BoxRow → Text
  prompt template row =
      bold on (codes "Delete box \"" ++ template ++ codes "\" (" ++ row.name ++ codes ")?")

  unfoldable pub dialog_compact : BoxRow → Text
  dialog_compact row =
      bold on (codes "Delete " ++ row.template ++ codes "?")
      ++ codes " "
      ++ dim on delete_data_warning
      ++ codes " "
      ++ keys_line

  unfoldable pub dialog_lines : BoxRow → ℕ → List Text
  dialog_lines row budget =
      if leb 5 budget
      then prompt row.template row
        ∷ dim on (utf8 "· " ++ delete_data_warning)
        ∷ dim on (utf8 "· active sessions in the box are killed")
        ∷ dim on (
            utf8 "· a fresh box is created on your next login: ssh "
            ++ row.template
            ++ codes "@"
            ++ host_placeholder)
        ∷ keys_line
        ∷ []
      else if leb 3 budget
      then prompt row.template row
        ∷ dim on (delete_data_warning ++ utf8 " · kills its sessions · recreated on next login")
        ∷ keys_line
        ∷ []
      else if budget == 2
      then dim on delete_data_warning ∷ (prompt row.template row ++ codes " " ++ keys_line) ∷ []
      else dialog_compact row ∷ []

  module _ (d : Display) where
    abbrev pub popup_content : BoxRow → ℕ → List Text
    popup_content row budget =
        prompt (sanitize d row.template) row
        ∷ dim on (utf8 "· " ++ delete_data_warning)
        ∷ dim on (utf8 "· active sessions in the box are killed")
        ∷ dim on (utf8 "· a fresh box is created on your next login:")
        ∷ dim on (codes "  ssh " ++ sanitize d row.template ++ codes "@" ++ host_placeholder)
        ∷ (if leb 9 budget then [] ∷ keys_line ∷ [] else keys_line ∷ [])

    -- The frame round the content.
    unfoldable pub popup : BoxRow → ℕ → ℕ → List Text
    popup row budget inner =
        pane_top d (codes "delete box") inner
        ∷ (map (λ line. pane_line d line inner) (popup_content row budget)
            ++ pane_bottom inner ∷ [])

    unfoldable pub blanks : ℕ → List Text
    blanks zero = []
    blanks (suc n) = [] ∷ blanks n

    -- `none` where the popup does not fit.
    unfoldable pub delete_popup : BoxRow → ℕ → ℕ → Option (List Text)
    delete_popup row width budget =
        let inner = widest d.string_width (popup_content row budget) in
        let lines = popup row budget inner in
        let indent = repeat ((width - (inner + 4)) / 2) (codes " ") in
        if ltb width (inner + 4)
        then none
        else some (blanks ((budget - length lines) / 2) ++ map (λ line. indent ++ line) lines)
