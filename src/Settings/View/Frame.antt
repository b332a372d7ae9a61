-- ===== src/Settings/View/Frame.antt =====
-- settings-tui/view.go: the frames of the panes.
use dev_box.Common.{ℕ, ◌+◌, ◌-◌, max, List, [], ◌∷◌, ◌++◌, Text, codes, ltb, if◌then◌else◌}
use dev_box.Strings.Utf8.{utf8}
use dev_box.Settings.View.Style.{Display, repeat, sanitize, pad_to, ellipsis}

unfoldable pub pane_bottom : ℕ → Text
pane_bottom inner = utf8 "└" ++ repeat (inner + 2) (utf8 "─") ++ utf8 "┘"

unfoldable pub pane_sep : ℕ → Text
pane_sep inner = utf8 "├" ++ repeat (inner + 2) (utf8 "─") ++ utf8 "┤"

-- The blank line, for the shorter of two panes.
unfoldable pub widest : (Text → ℕ) → List Text → ℕ
widest width [] = 0
widest width (line ∷ lines) = max (width line) (widest width lines)

-- The loop of `zipPanes`, over the rest of each pane.
unfoldable pub zip_lines : Text → List Text → List Text → List Text
zip_lines blank [] [] = []
zip_lines blank [] (r ∷ right) = (blank ++ codes " " ++ r) ∷ zip_lines blank [] right
zip_lines blank (l ∷ left) [] = (l ++ codes " " ++ []) ∷ zip_lines blank left []
zip_lines blank (l ∷ left) (r ∷ right) = (l ++ codes " " ++ r) ∷ zip_lines blank left right

module _ (d : Display) where
  open d use {string_width, truncate}

  unfoldable pub pane_line : Text → ℕ → Text
  pane_line content inner =
      let fitted =
        if ltb inner (string_width content)
        then truncate content inner ellipsis
        else pad_to d content inner in
      utf8 "│ " ++ fitted ++ utf8 " │"

  -- The title is no wider than `inner - 2`, since truncation keeps to the width that it is given, so
  -- the count of dashes is not negative. With a truncation that does not, the program would panic.
  unfoldable pub pane_top : Text → ℕ → Text
  pane_top title inner =
      let clean = sanitize d title in
      let most = inner - 2 in
      let fitted = if ltb most (string_width clean) then truncate clean most ellipsis else clean in
      if ltb most 1
      then utf8 "┌" ++ repeat (inner + 2) (utf8 "─") ++ utf8 "┐"
      else utf8 "┌─ "
        ++ fitted
        ++ codes " "
        ++ repeat (inner - 1 - string_width fitted) (utf8 "─")
        ++ utf8 "┐"

  unfoldable pub zip_panes : List Text → List Text → List Text
  zip_panes left right = zip_lines (repeat (widest string_width left) (codes " ")) left right
