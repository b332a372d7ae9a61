-- ===== src/Settings/View/Styled/Single.antt =====
-- The rows of the single column, and the confirmation.
use dev_box.Common.{
  ℕ, suc, ◌+◌, refl, Bool, ◌||◌, List, [], ◌∷◌, All, Text, codes, leb, ◌==◌, text_eq, number_eq,
  Bool-cases, inl, inr,
}
use dev_box.Strings.Utf8.{utf8}
use dev_box.Settings.Boxes.{Time}
use dev_box.Settings.Rows.{
  RowState, BoxRow, checking, running, pending, terminating, error, not_created, unavailable,
  refused,
}
use dev_box.Settings.Model.{SettingsModel}
use dev_box.Settings.View.Style.{Display}
use dev_box.Settings.View.Rows.{
  host_placeholder, signed32, data_line, line_of_state, row_line, rows_from, row_lines,
}
use dev_box.Settings.View.Dialog.{
  delete_data_warning, keys_line, prompt, dialog_compact, dialog_lines,
}
use dev_box.Settings.View.Styled.{
  IsStyled, plain, ◌⊕◌, styled_if, Shows, styled_sanitize, styled_dim, styled_bold, styled_red,
  styled_separator,
}
use dev_box.Settings.View.Styled.Frames.{AllStyled}
use dev_box.Settings.View.Styled.Rows.{
  IsClean, styled_itoa, styled_uptime, styled_marker, styled_pad_runes, styled_status,
  styled_tinted,
}

pub host : IsStyled host_placeholder
unfolding codes
host = plain host_placeholder refl

module _ (d : Display) (shows : Shows d) (on : Bool) (now : Time) where
  styled_data :
      {prefix : Text} (r : BoxRow) → IsStyled prefix → IsStyled (data_line d on now prefix r)
  unfolding data_line codes
  styled_data r p =
      let status = styled_tinted d on (λ text. text) r.state (styled_status r) (styled_status r) in
      let details =
        styled_pad_runes 20 status
        ⊕ plain (codes " ") refl
        ⊕ styled_uptime r.started now
        ⊕ plain (codes "  ") refl
        ⊕ styled_sanitize d shows r.image
        ⊕ plain (codes "  ") refl
        ⊕ styled_sanitize d shows r.runtime_class
        ⊕ plain (codes "  restarts ") refl
        ⊕ styled_itoa (signed32 r.restarts)
        ⊕ plain (codes "  ") refl
        ⊕ styled_sanitize d shows r.limits in
      styled_if (r.stale || r.reconnect) (styled_dim on (p ⊕ details)) (p ⊕ details)

  styled_state :
      (s : RowState) {prefix : Text} (r : BoxRow)
      → IsClean r
      → IsStyled prefix
      → IsStyled (line_of_state d on now s prefix r)
  unfolding line_of_state codes utf8
  styled_state not_created r (t, n) p =
      p ⊕ styled_dim on (plain (utf8 "not created · ssh ") refl ⊕ t ⊕ plain (codes "@") refl ⊕ host)
  styled_state checking r c p = p ⊕ styled_dim on (plain (utf8 "…") refl)
  styled_state unavailable r c p = styled_dim on (p ⊕ plain (codes "unreachable") refl)
  styled_state refused r c p =
      styled_if (r.phase == [])
        (styled_dim on (p ⊕ plain (utf8 "reconnect · authorization changed") refl))
        (styled_data r p)
  styled_state running r c p = styled_data r p
  styled_state pending r c p = styled_data r p
  styled_state terminating r c p = styled_data r p
  styled_state error r c p = styled_data r p

  rows_from-AllStyled :
      (width i selected : ℕ) (rows : List BoxRow)
      → All IsClean rows
      → AllStyled (rows_from d on now width i selected rows)
  unfolding rows_from row_line
  rows_from-AllStyled width i selected [] c = tt
  rows_from-AllStyled width i selected (r ∷ rows) ((t, n), c) = (
    styled_state r.state r (t, n) (styled_marker (i == selected) ⊕ styled_pad_runes (width + 2) t),
    rows_from-AllStyled width (suc i) selected rows c,
  )

  pub row_lines-AllStyled :
      (m : SettingsModel) → All IsClean m.rows → AllStyled (row_lines d on now m)
  unfolding row_lines
  row_lines-AllStyled m c = rows_from-AllStyled _ 0 m.selected m.rows c

module _ (on : Bool) where
  pub warning : IsStyled delete_data_warning
  unfolding codes
  warning = plain delete_data_warning refl

  pub keys : IsStyled (keys_line on)
  unfolding codes
  keys =
      styled_red on (plain (codes "y delete") refl)
      ⊕ styled_separator
      ⊕ styled_dim on (plain (codes "n/Esc cancel") refl)

  pub styled_prompt :
      {template : Text} (r : BoxRow)
      → IsStyled template
      → IsStyled r.name
      → IsStyled (prompt on template r)
  unfolding codes
  styled_prompt r t n = styled_bold on (
      plain (codes "Delete box \"") refl
      ⊕ t
      ⊕ plain (codes "\" (") refl
      ⊕ n
      ⊕ plain (codes ")?") refl)

  pub styled_compact : (r : BoxRow) → IsClean r → IsStyled (dialog_compact on r)
  unfolding dialog_compact codes
  styled_compact r (t, n) =
      styled_bold on (plain (codes "Delete ") refl ⊕ t ⊕ plain (codes "?") refl)
      ⊕ plain (codes " ") refl
      ⊕ styled_dim on warning
      ⊕ plain (codes " ") refl
      ⊕ keys

  pub dialog_lines-AllStyled :
      (r : BoxRow) (budget : ℕ) → IsClean r → AllStyled (dialog_lines on r budget)
  unfolding dialog_lines codes utf8
  dialog_lines-AllStyled r budget (t, n) = elim (Bool-cases (leb 5 budget)) [
    | inl all ↦ rw all (
      styled_prompt r t n,
      (
        styled_dim on (plain (utf8 "· ") refl ⊕ warning),
        (
          styled_dim on (plain (utf8 "· active sessions in the box are killed") refl),
          (
            styled_dim on (
                plain (utf8 "· a fresh box is created on your next login: ssh ") refl
                ⊕ t
                ⊕ plain (codes "@") refl
                ⊕ host),
            (keys, tt),
          ),
        ),
      ),
    )
    | inr less ↦ elim (Bool-cases (leb 3 budget)) [
      | inl three ↦ rw less (
          rw three (
            styled_prompt r t n,
            (
              styled_dim on
                  (warning ⊕ plain (utf8 " · kills its sessions · recreated on next login") refl),
              (keys, tt),
            ),
          ))
      | inr fewer ↦ elim (Bool-cases (budget == 2)) [
        | inl two ↦ rw less (
            rw fewer (
              rw two
                (styled_dim on warning, (styled_prompt r t n ⊕ plain (codes " ") refl ⊕ keys, tt))))
        | inr one ↦ rw less (rw fewer (rw one (styled_compact r (t, n), tt)))
      ]
    ]
  ]
