-- ===== src/Settings/View/Style.antt =====
-- settings-tui/view.go: sanitizing, styles, and padding.
use dev_box.Common.{
  ℕ, ◌-◌, Bool, false, ◌&&◌, ◌||◌, not, [], ◌∷◌, ◌++◌, Text, codes, ltb, ◌==◌, if◌then◌else◌,
  text_eq, zero, suc,
}
use dev_box.Strings.Utf8.{map_runes, utf8}

-- What is not the program's own: the width of a text on a terminal and its truncation to a width,
-- with a tail, of `x/ansi`; and whether a rune is one that `unicode.IsPrint` accepts and that is not
-- in `unicode.Cf`.
pub record Display : Type 0 where
  pub string_width : Text → ℕ
  pub truncate : Text → ℕ → Text → Text
  pub is_printable : ℕ → Bool

-- `strings.Repeat`
unfoldable pub repeat : ℕ → Text → Text
repeat zero s = []
repeat (suc n) s = s ++ repeat n s

abbrev pub esc : ℕ
esc = 27

abbrev pub sgr_reset : Text
sgr_reset = esc ∷ codes "[0m"

abbrev pub sgr_bold : Text
sgr_bold = esc ∷ codes "[1m"

abbrev pub sgr_dim : Text
sgr_dim = esc ∷ codes "[2m"

abbrev pub sgr_red : Text
sgr_red = esc ∷ codes "[31m"

abbrev pub sgr_green : Text
sgr_green = esc ∷ codes "[32m"

abbrev pub sgr_yellow : Text
sgr_yellow = esc ∷ codes "[33m"

-- `colorsEnabled`, of the two variables; an unset one is empty.
unfoldable pub colors_enabled : Text → Text → Bool
colors_enabled no_color term =
    if no_color == [] then not (term == []) && not (term == codes "dumb") else false

unfoldable pub wrap : Bool → Text → Text → Text
wrap on code text = if not on || text == [] then text else code ++ text ++ sgr_reset

abbrev pub dim : Bool → Text → Text
dim on = wrap on sgr_dim

abbrev pub bold : Bool → Text → Text
bold on = wrap on sgr_bold

abbrev pub red : Bool → Text → Text
red on = wrap on sgr_red

abbrev pub green : Bool → Text → Text
green on = wrap on sgr_green

abbrev pub yellow : Bool → Text → Text
yellow on = wrap on sgr_yellow

abbrev pub ellipsis : Text
ellipsis = utf8 "…"

abbrev pub separator : Text
separator = utf8 " · "

module _ (d : Display) where
  open d use {string_width, truncate, is_printable}

  unfoldable pub sanitize : Text → Text
  sanitize = map_runes (λ r. if is_printable r then r else b'?')

  -- A text that is as wide is returned unchanged.
  unfoldable pub pad_to : Text → ℕ → Text
  unfolding repeat
  pad_to text width =
      let gap = width - string_width text in
      if ltb 0 gap then text ++ repeat gap (codes " ") else text

  unfoldable pub right_in : Text → ℕ → Text
  unfolding repeat
  right_in text width =
      let gap = width - string_width text in
      if ltb 0 gap then repeat gap (codes " ") ++ text else text
