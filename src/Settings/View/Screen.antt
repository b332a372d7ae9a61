-- ===== src/Settings/View/Screen.antt =====
-- settings-tui/view.go: the lines for a terminal of any size. `none` is Go's panic at an index out of
-- range.
use dev_box.Common.{
  ℕ, ◌+◌, ◌-◌, max, Bool, true, false, ◌&&◌, List, [], ◌∷◌, ◌++◌, map, Option, none, some, Text,
  codes, length, get_elem?, ltb, leb, ◌==◌, if◌then◌else◌, number_eq, text_eq,
}
use mathlib.Core.Option
use dev_box.Strings.Utf8.{utf8}
use dev_box.Settings.Boxes.{Time}
use dev_box.Settings.Rows.{BoxRow}
use dev_box.Settings.Model.{SettingsModel, DialogState, no_dialog, clamp}
use dev_box.Settings.View.Style.{Display, sanitize, dim, bold, red, ellipsis, separator}
use dev_box.Settings.View.Frame.{zip_panes}
use dev_box.Settings.View.Rows.{host_placeholder, conn_styled, scroll_rows, row_lines}
use dev_box.Settings.View.Dialog.{dialog_compact, dialog_lines, delete_popup}
use dev_box.Settings.View.Panes.{pane_widths, master_pane, detail_pane}

abbrev pub is_open : DialogState → Bool
is_open no_dialog = false
is_open _ = true

unfoldable pub selected_row : SettingsModel → Option BoxRow
selected_row m = get_elem? m.rows (clamp m.selected (length m.rows))

-- The line for the message, if there is one.
unfoldable pub message_lines : Display → Bool → SettingsModel → List Text
message_lines d on m = if m.message == [] then [] else red on (sanitize d m.message) ∷ []

-- What is left of `height` lines but for `used` and the message; one line at least.
unfoldable pub budget_of : SettingsModel → ℕ → ℕ
budget_of m used = max 1 (m.height - used - (if m.message == [] then 0 else 1))

module _ (d : Display) (on : Bool) (now : Time) where
  open d use {string_width, truncate}

  abbrev pub all_keys : Text
  all_keys = utf8 "↑/↓ select · r refresh · d delete · q: quit"

  abbrev pub short_keys : Text
  short_keys = utf8 "j/k · r · d · q: quit"

  unfoldable pub with_identity : SettingsModel → Text → Text
  with_identity m keys =
      let suffix = separator ++ conn_styled d on m.conn in
      let avail = m.width - string_width keys - 2 - 7 - string_width suffix in
      if ltb avail 1
      then keys
      else keys
        ++ codes "  "
        ++ codes "Owner: "
        ++ truncate (sanitize d m.owner) avail ellipsis
        ++ suffix

  unfoldable pub footer : SettingsModel → Bool → Text
  footer m identity =
      if leb 44 m.width
      then (if identity then with_identity m all_keys else all_keys)
      else if leb 22 m.width
      then (if identity then with_identity m short_keys else short_keys)
      else codes "q: quit"

  unfoldable pub header_line : SettingsModel → Text
  header_line m =
      codes "settings"
      ++ separator
      ++ (codes "Owner: " ++ sanitize d m.owner)
      ++ separator
      ++ conn_styled d on m.conn

  unfoldable pub header : SettingsModel → List Text
  header m =
      if ltb m.height 7
      then header_line m ∷ []
      else bold on (codes "dev.box settings")
        ∷ (codes "Owner: " ++ bold on (sanitize d m.owner))
        ∷ (codes "Connection: " ++ conn_styled d on m.conn)
        ∷ []

  unfoldable pub body_lines : SettingsModel → ℕ → List Text
  body_lines m budget =
      if length m.rows == 0
      then codes "No box templates are available."
        ∷ (if ltb 1 budget
            then dim on
                (codes "Each published template becomes a box: ssh <template>@" ++ host_placeholder)
              ∷ []
            else [])
      else scroll_rows (row_lines d on now m) budget m.selected

  unfoldable pub selected_line : SettingsModel → Option Text
  selected_line m =
      if length m.rows == 0
      then some (dim on (codes "no box templates"))
      else get_elem? (row_lines d on now m) m.selected

  -- The body without the panes.
  unfoldable pub body : SettingsModel → ℕ → Option (List Text)
  body m budget =
      if is_open m.dialog
      then Option.map (λ row. dialog_lines on row budget) (selected_row m)
      else some (body_lines m budget)

  -- The layout without the panes.
  unfoldable pub single_column : SettingsModel → Option (List Text)
  single_column m =
      Option.map (λ lines. header m ++ lines ++ message_lines d on m ++ footer m false ∷ [])
        (body m (budget_of m (length (header m) + 1)))

  -- `some none` where the panes do not fit.
  unfoldable pub both_panes : SettingsModel → ℕ → Option (Option (List Text))
  both_panes m budget =
      let (master, detail) = pane_widths m budget in
      let left = master_pane d on m master budget in
      if is_open m.dialog
      then (if leb 8 budget
          then Option.map (λ row. delete_popup on d row m.width budget) (selected_row m)
          else some none)
      else if master == 0
      then some none
      else if ltb 0 detail
      then Option.map (λ row. some (zip_panes d left (detail_pane d on now row detail budget)))
          (selected_row m)
      else some (some left)

  -- The panes, or the single column where they do not fit.
  unfoldable pub or_column : SettingsModel → Option (Option (List Text)) → Option (List Text)
  or_column m none = none
  or_column m (some none) = single_column m
  or_column m (some (some lines)) = some (lines ++ message_lines d on m ++ footer m true ∷ [])

  -- A terminal of three lines or more.
  unfoldable pub tall : SettingsModel → Option (List Text)
  tall m =
      let budget = budget_of m 1 in
      if ltb 0 (length m.rows) && leb 6 budget
      then or_column m (both_panes m budget)
      else single_column m

  unfoldable pub render_lines : SettingsModel → Option (List Text)
  render_lines m =
      if leb m.height 1
      then some (footer m false ∷ [])
      else if m.height == 2
      then Option.map (λ line. line ∷ footer m false ∷ [])
          (if is_open m.dialog
            then Option.map (dialog_compact on) (selected_row m)
            else selected_line m)
      else tall m

  -- `View`, with the lines apart.
  unfoldable pub view : SettingsModel → Option (List Text)
  view m = Option.map (map (λ line. truncate line (max 1 m.width) ellipsis)) (render_lines m)
