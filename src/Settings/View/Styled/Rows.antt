-- ===== src/Settings/View/Styled/Rows.antt =====
-- The rows of both layouts.
use dev_box.Common.{
  ℕ, suc, ◌+◌, ◌-◌, ◌*◌, ◌/◌, ◌%◌, refl, ℤ, pos, Bool, true, false, ◌&&◌, ◌||◌, not, List, [], ◌∷◌,
  Text, codes, ltb, leb, min, ◌==◌, text_eq, number_eq, Bool-cases, inl, inr,
}
use dev_box.Strings.Utf8.{utf8}
use dev_box.Strings.Decimal.{itoa}
use dev_box.Strings.Decimal.Laws.{all-itoa}
use dev_box.Settings.Boxes.{Time, minute, em_dash, format_uptime}
use dev_box.Settings.Rows.{
  RowState, BoxRow, checking, running, pending, terminating, error, not_created, unavailable,
  refused,
}
use dev_box.Settings.Model.{
  SettingsModel, ConnState, conn_checking, live, partial, unreachable, conn_text, created_count,
}
use dev_box.Settings.View.Style.{Display, sanitize, dim}
use dev_box.Settings.View.Rows.{
  state_word, status_text, pad_runes, marker, tinted, conn_styled, master_row_line,
  master_rows_from, master_row_lines, cap_line,
}
use dev_box.Settings.View.Styled.{
  IsStyled, plain, graphic, styled_if, ◌⊕◌, Shows, styled_repeat, spaces, styled_sanitize,
  styled_pad_to, styled_right_in, styled_dim, styled_bold, styled_red, styled_green, styled_yellow,
}
use dev_box.Settings.View.Styled.Frames.{AllStyled}

-- What is shown of a row without sanitizing it.
abbrev pub IsClean : BoxRow → Type 0
IsClean r = IsStyled r.template × IsStyled r.name

pub styled_word : (s : RowState) → IsStyled (state_word s)
unfolding state_word utf8 codes
styled_word running = plain (codes "Running") refl
styled_word pending = plain (codes "Pending") refl
styled_word terminating = plain (codes "Terminating") refl
styled_word error = plain (codes "Error") refl
styled_word not_created = plain (codes "not created") refl
styled_word refused = plain (codes "reconnect") refl
styled_word unavailable = plain (codes "unreachable") refl
styled_word checking = plain (utf8 "…") refl

pub styled_status : (r : BoxRow) → IsStyled (status_text r)
unfolding status_text codes
styled_status r = elim (Bool-cases (r.reconnect && not (state_word r.state == codes "reconnect"))) [
  | inl again ↦ rw again (styled_word r.state ⊕ plain (codes " (reconnect)") refl)
  | inr settled ↦ elim (Bool-cases r.stale) [
    | inl old ↦ rw settled (rw old (styled_word r.state ⊕ plain (codes " (last known)") refl))
    | inr fresh ↦ rw settled (rw fresh (styled_word r.state))
  ]
]

pub styled_itoa : (i : ℤ) → IsStyled (itoa i)
styled_itoa i = graphic (itoa i) (all-itoa i)

pub styled_uptime : (started now : Time) → IsStyled (format_uptime started now)
unfolding format_uptime codes
styled_uptime started now =
    let d = min (now - started) 9223372036854775807 in
    let days = pos (d / (60 * minute) / 24) in
    let hours = pos (d / (60 * minute) % 24) in
    let minutes = pos (d / minute % 60) in
    styled_if (started == 0) (plain em_dash refl) (
      styled_if (ltb d minute) (plain (codes "up <1m") refl) (
        styled_if (ltb 0 (d / (60 * minute) / 24))
          (plain (codes "up ") refl
            ⊕ styled_itoa days
            ⊕ plain (codes "d") refl
            ⊕ styled_itoa hours
            ⊕ plain (codes "h") refl)
          (styled_if (ltb 0 (d / (60 * minute) % 24))
            (plain (codes "up ") refl
              ⊕ styled_itoa hours
              ⊕ plain (codes "h") refl
              ⊕ styled_itoa minutes
              ⊕ plain (codes "m") refl)
            (plain (codes "up ") refl ⊕ styled_itoa minutes ⊕ plain (codes "m") refl))))

pub styled_marker : (selected : Bool) → IsStyled (marker selected)
unfolding utf8 codes
styled_marker true = plain (utf8 "▸ ") refl
styled_marker false = plain (codes "  ") refl

pub styled_pad_runes : {text : Text} (width : ℕ) → IsStyled text → IsStyled (pad_runes text width)
unfolding pad_runes
styled_pad_runes width t = t ⊕ spaces _

module _ (d : Display) (on : Bool) where
  pub styled_tinted :
      (other : Text → Text) (s : RowState) {text : Text}
      → IsStyled text
      → IsStyled (other text)
      → IsStyled (tinted d on other s text)
  unfolding tinted
  styled_tinted other running t o = styled_green on t
  styled_tinted other pending t o = styled_yellow on t
  styled_tinted other terminating t o = styled_yellow on t
  styled_tinted other error t o = styled_red on t
  styled_tinted other not_created t o = o
  styled_tinted other refused t o = o
  styled_tinted other unavailable t o = o
  styled_tinted other checking t o = o

  pub styled_conn : (c : ConnState) → IsStyled (conn_styled d on c)
  unfolding conn_styled conn_text codes
  styled_conn live = styled_green on (plain (codes "Live") refl)
  styled_conn partial = styled_yellow on (plain (codes "Partial") refl)
  styled_conn unreachable = styled_red on (plain (codes "Unreachable") refl)
  styled_conn conn_checking = styled_dim on (plain (conn_text conn_checking) refl)

  module _ (shows : Shows d) where
    clean_template : (text : Text) → IsStyled (sanitize d text)
    clean_template = styled_sanitize d shows

    styled_master_row :
        (width : ℕ) (selected : Bool) (r : BoxRow)
        → IsStyled (master_row_line d on width selected r)
    unfolding master_row_line codes
    styled_master_row width selected r =
        let line =
          styled_pad_to d shows (2 + width) (
            styled_marker selected
            ⊕ styled_if selected (styled_bold on (clean_template r.template))
                (clean_template r.template))
          ⊕ plain (codes "  ") refl
          ⊕ styled_right_in d shows 11 (
              styled_tinted (dim on) r.state (styled_word r.state)
                (styled_dim on (styled_word r.state))) in
        styled_if (r.stale || r.reconnect) (styled_dim on line) line

    master_rows_from-AllStyled :
        (width i selected : ℕ) (rows : List BoxRow)
        → AllStyled (master_rows_from d on width i selected rows)
    unfolding master_rows_from
    master_rows_from-AllStyled width i selected [] = tt
    master_rows_from-AllStyled width i selected (r ∷ rows) = (
      styled_master_row width (i == selected) r,
      master_rows_from-AllStyled width (suc i) selected rows,
    )

    pub master_row_lines-AllStyled : (m : SettingsModel) → AllStyled (master_row_lines d on m)
    unfolding master_row_lines
    master_row_lines-AllStyled m = master_rows_from-AllStyled _ 0 m.selected m.rows

    pub styled_cap : (m : SettingsModel) → IsStyled (cap_line d on m)
    unfolding cap_line codes utf8
    styled_cap m =
        let created = created_count m.rows in
        let filled = min (created * 10 / m.max_boxes) 10 in
        let blocks = styled_repeat filled (plain (utf8 "█") refl) in
        let bar =
          styled_if (leb m.max_boxes created) (styled_yellow on blocks) (styled_green on blocks) in
        plain (codes "created ") refl
        ⊕ styled_bold on
            (styled_itoa (pos created) ⊕ plain (codes "/") refl ⊕ styled_itoa (pos m.max_boxes))
        ⊕ plain (codes " ") refl
        ⊕ styled_if (ltb 0 (10 - filled))
            (bar ⊕ styled_dim on (styled_repeat (10 - filled) (plain (utf8 "░") refl))) bar
