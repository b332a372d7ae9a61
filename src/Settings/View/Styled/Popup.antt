-- ===== src/Settings/View/Styled/Popup.antt =====
-- The popup of the confirmation.
use dev_box.Common.{
  ℕ, zero, suc, ◌+◌, ◌-◌, ◌/◌, ◌≡◌, refl, Bool, List, [], ◌∷◌, ◌++◌, map, length, Text, codes, ltb,
  leb, none, some, text_eq, number_eq, Bool-cases, inl, inr, ◌⊎◌,
}
use dev_box.Strings.Utf8.{utf8}
use dev_box.Settings.Rows.{BoxRow}
use dev_box.Settings.View.Style.{Display, repeat}
use dev_box.Settings.View.Frame.{widest, pane_line, pane_bottom}
use dev_box.Settings.View.Dialog.{keys_line, popup_content, popup, blanks, delete_popup}
use dev_box.Settings.View.Styled.{
  IsStyled, done, plain, ◌⊕◌, Shows, spaces, styled_sanitize, styled_dim,
}
use dev_box.Settings.View.Styled.Frames.{
  AllStyled, append-AllStyled, map-AllStyled, if-AllStyled, framed-AllStyled, styled_top,
  styled_bottom,
}
use dev_box.Settings.View.Styled.Single.{host, warning, keys, styled_prompt}

module _ (d : Display) (shows : Shows d) (on : Bool) where
  popup_content-AllStyled :
      (r : BoxRow) (budget : ℕ) → IsStyled r.name → AllStyled (popup_content on d r budget)
  unfolding utf8 codes
  popup_content-AllStyled r budget n = (
    styled_prompt on r (styled_sanitize d shows r.template) n,
    (
      styled_dim on (plain (utf8 "· ") refl ⊕ warning on),
      (
        styled_dim on (plain (utf8 "· active sessions in the box are killed") refl),
        (
          styled_dim on (plain (utf8 "· a fresh box is created on your next login:") refl),
          (
            styled_dim on (
                plain (codes "  ssh ") refl
                ⊕ styled_sanitize d shows r.template
                ⊕ plain (codes "@") refl
                ⊕ host),
            if-AllStyled (leb 9 budget) ([] ∷ keys_line on ∷ []) (keys_line on ∷ [])
                (done, (keys on, tt)) (keys on, tt),
          ),
        ),
      ),
    ),
  )

  popup-AllStyled :
      (r : BoxRow) (budget inner : ℕ) → IsStyled r.name → AllStyled (popup on d r budget inner)
  unfolding popup
  popup-AllStyled r budget inner n = (
    styled_top d shows (codes "delete box") inner,
    append-AllStyled (map (λ line. pane_line d line inner) (popup_content on d r budget))
        (pane_bottom inner ∷ [])
        (framed-AllStyled d shows inner (popup_content on d r budget)
          (popup_content-AllStyled r budget n))
        (styled_bottom inner, tt),
  )

  blanks-AllStyled : (n : ℕ) → AllStyled (blanks on d n)
  unfolding blanks
  blanks-AllStyled zero = tt
  blanks-AllStyled (suc n) = (done, blanks-AllStyled n)

  pub delete_popup-AllStyled :
      (r : BoxRow) (width budget : ℕ)
      → IsStyled r.name
      → (delete_popup on d r width budget ≡ none)
        ⊎ ((lines : List Text) × ((delete_popup on d r width budget ≡ some lines)
              × AllStyled lines))
  unfolding delete_popup
  delete_popup-AllStyled r width budget n =
      let inner = widest d.string_width (popup_content on d r budget) in
      elim (Bool-cases (ltb width (inner + 4))) [
        | inl narrow ↦ inl (rw narrow refl)
        | inr wide ↦
            let lines = popup on d r budget inner in
            let indent = repeat ((width - (inner + 4)) / 2) (codes " ") in
            inr (
              blanks on d ((budget - length lines) / 2) ++ map (λ line. indent ++ line) lines,
              (
                rw wide refl,
                append-AllStyled _ _ (blanks-AllStyled ((budget - length lines) / 2)) (
                    map-AllStyled (λ line. indent ++ line) lines (λ line h. spaces _ ⊕ h)
                      (popup-AllStyled r budget inner n)),
              ),
            )
      ]
