-- ===== src/Settings/View/Styled/Frames.antt =====
-- The frames and the lists of lines.
use dev_box.Common.{
  ℕ, zero, suc, ◌+◌, ◌-◌, refl, Bool, true, false, List, [], ◌∷◌, ◌++◌, map, length, take, drop,
  All, Text, codes, ltb, leb, if◌then◌else◌, Bool-cases, inl, inr,
}
use dev_box.Strings.Utf8.{utf8}
use dev_box.Settings.View.Style.{Display, repeat, sanitize, ellipsis, pad_to}
use dev_box.Settings.View.Frame.{
  pane_bottom, pane_sep, pane_line, pane_top, zip_lines, zip_panes, widest,
}
use dev_box.Settings.View.Rows.{scroll_rows}
use dev_box.Settings.View.Styled.{
  IsStyled, done, plain, ◌⊕◌, Shows, styled_repeat, spaces, styled_ellipsis, styled_sanitize,
  styled_pad_to,
}

abbrev pub AllStyled : List Text → Type 0
AllStyled = All IsStyled

pub append-AllStyled : (a b : List Text) → AllStyled a → AllStyled b → AllStyled (a ++ b)
append-AllStyled [] b s t = t
append-AllStyled (line ∷ a) b (h, s) t = (h, append-AllStyled a b s t)

pub if-AllStyled :
    (b : Bool) (x y : List Text) → AllStyled x → AllStyled y → AllStyled (if b then x else y)
if-AllStyled true x y s t = s
if-AllStyled false x y s t = t

pub take-AllStyled : (n : ℕ) (lines : List Text) → AllStyled lines → AllStyled (take n lines)
take-AllStyled zero lines s = tt
take-AllStyled (suc n) [] s = tt
take-AllStyled (suc n) (line ∷ lines) (h, s) = (h, take-AllStyled n lines s)

pub drop-AllStyled : (n : ℕ) (lines : List Text) → AllStyled lines → AllStyled (drop n lines)
drop-AllStyled zero lines s = s
drop-AllStyled (suc n) [] s = tt
drop-AllStyled (suc n) (line ∷ lines) (h, s) = drop-AllStyled n lines s

pub map-AllStyled :
    (f : Text → Text) (lines : List Text)
    → ((line : Text) → IsStyled line → IsStyled (f line))
    → AllStyled lines
    → AllStyled (map f lines)
map-AllStyled f [] keeps s = tt
map-AllStyled f (line ∷ lines) keeps (h, s) = (keeps line h, map-AllStyled f lines keeps s)

pub scroll_rows-AllStyled :
    (rows : List Text) (visible selected : ℕ)
    → AllStyled rows
    → AllStyled (scroll_rows rows visible selected)
unfolding scroll_rows
scroll_rows-AllStyled rows visible selected s = elim (Bool-cases (leb (length rows) visible)) [
  | inl fits ↦ rw fits s
  | inr scrolls ↦ rw scrolls (take-AllStyled visible _ (drop-AllStyled _ rows s))
]

-- A row of a border.
border : (n : ℕ) → IsStyled (repeat n (utf8 "─"))
unfolding utf8 codes
border n = styled_repeat n (plain (utf8 "─") refl)

pub styled_bottom : (inner : ℕ) → IsStyled (pane_bottom inner)
unfolding pane_bottom utf8 codes
styled_bottom inner = plain (utf8 "└") refl ⊕ border (inner + 2) ⊕ plain (utf8 "┘") refl

pub styled_sep : (inner : ℕ) → IsStyled (pane_sep inner)
unfolding pane_sep utf8 codes
styled_sep inner = plain (utf8 "├") refl ⊕ border (inner + 2) ⊕ plain (utf8 "┤") refl

zip_lines-AllStyled :
    (blank : Text) (left right : List Text)
    → IsStyled blank
    → AllStyled left
    → AllStyled right
    → AllStyled (zip_lines blank left right)
unfolding zip_lines codes
zip_lines-AllStyled blank [] [] b s t = tt
zip_lines-AllStyled blank [] (r ∷ right) b s (h, t) =
    (b ⊕ plain (codes " ") refl ⊕ h, zip_lines-AllStyled blank [] right b s t)
zip_lines-AllStyled blank (l ∷ left) [] b (h, s) t =
    (h ⊕ plain (codes " ") refl ⊕ done, zip_lines-AllStyled blank left [] b s t)
zip_lines-AllStyled blank (l ∷ left) (r ∷ right) b (h, s) (k, t) =
    (h ⊕ plain (codes " ") refl ⊕ k, zip_lines-AllStyled blank left right b s t)

module _ (d : Display) (shows : Shows d) where
  pub styled_line :
      {content : Text} (inner : ℕ) → IsStyled content → IsStyled (pane_line d content inner)
  unfolding pane_line utf8 codes
  styled_line {content} inner t = plain (utf8 "│ ") refl ⊕ fitted ⊕ plain (utf8 " │") refl
    where
      fitted : IsStyled (
          if ltb inner (d.string_width content)
          then d.truncate content inner ellipsis
          else pad_to d content inner)
      fitted = elim (Bool-cases (ltb inner (d.string_width content))) [
        | inl wide ↦ rw wide (shows.cuts content ellipsis inner t styled_ellipsis)
        | inr narrow ↦ rw narrow (styled_pad_to d shows inner t)
      ]

  pub styled_top : (title : Text) (inner : ℕ) → IsStyled (pane_top d title inner)
  unfolding pane_top utf8 codes
  styled_top title inner = elim (Bool-cases (ltb (inner - 2) 1)) [
    | inl narrow ↦ rw narrow (plain (utf8 "┌") refl ⊕ border (inner + 2) ⊕ plain (utf8 "┐") refl)
    | inr room ↦
        let clean = sanitize d title in
        elim (Bool-cases (ltb (inner - 2) (d.string_width clean))) [
          | inl wide ↦ rw room (
              rw wide (
                plain (utf8 "┌─ ") refl
                ⊕ shows.cuts clean ellipsis (inner - 2) (styled_sanitize d shows title)
                    styled_ellipsis
                ⊕ plain (codes " ") refl
                ⊕ border _
                ⊕ plain (utf8 "┐") refl))
          | inr narrow ↦ rw room (
              rw narrow (
                plain (utf8 "┌─ ") refl
                ⊕ styled_sanitize d shows title
                ⊕ plain (codes " ") refl
                ⊕ border _
                ⊕ plain (utf8 "┐") refl))
        ]
  ]

  pub zip_panes-AllStyled :
      (left right : List Text)
      → AllStyled left
      → AllStyled right
      → AllStyled (zip_panes d left right)
  unfolding zip_panes
  zip_panes-AllStyled left right =
      zip_lines-AllStyled (repeat (widest d.string_width left) (codes " ")) left right (spaces _)

  pub framed-AllStyled :
      (inner : ℕ) (lines : List Text)
      → AllStyled lines
      → AllStyled (map (λ line. pane_line d line inner) lines)
  framed-AllStyled inner lines =
      map-AllStyled (λ line. pane_line d line inner) lines (λ line. styled_line inner)
