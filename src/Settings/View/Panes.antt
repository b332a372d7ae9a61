-- ===== src/Settings/View/Panes.antt =====
-- settings-tui/view.go: the master and the detail pane.
use dev_box.Common.{
  ℕ, zero, suc, ◌+◌, ◌-◌, max, Bool, ◌||◌, List, [], ◌∷◌, ◌++◌, map, Text, codes, length, ltb, leb,
  ◌==◌, if◌then◌else◌, number_eq, text_eq,
}
use dev_box.Strings.Decimal.{itoa}
use dev_box.Strings.Utf8.{utf8}
use dev_box.Settings.Boxes.{Time, format_uptime}
use dev_box.Settings.Rows.{RowState, BoxRow, checking, not_created, unavailable, refused}
use dev_box.Settings.Model.{SettingsModel, created_count}
use dev_box.Settings.View.Style.{Display, sanitize, pad_to, dim, separator}
use dev_box.Settings.View.Frame.{pane_top, pane_line, pane_sep, pane_bottom}
use dev_box.Settings.View.Rows.{
  host_placeholder, state_word, scroll_rows, template_width, signed32, tinted, master_row_lines,
  cap_line,
}

-- The widths of the two panes; 0 is a pane that does not fit.
unfoldable pub pane_widths : SettingsModel → ℕ → ℕ × ℕ
pane_widths m budget =
    let master = 2 + template_width 6 m.rows + 2 + 11 in
    let avail = m.width - (master + 4) - 1 - 4 in
    if ltb budget 6 || ltb m.width (master + 4)
    then (0, 0)
    else if ltb avail 31 || ltb budget 9
    then (master, 0)
    else (master, avail)

-- The lines of the master pane that are not rows.
unfoldable pub chrome : SettingsModel → ℕ
chrome m =
    if ltb 0 m.max_boxes then (if leb m.max_boxes (created_count m.rows) then 5 else 4) else 2

module _ (d : Display) where
  -- `n` empty lines of a pane.
  unfoldable pub empty_lines : ℕ → ℕ → List Text
  empty_lines inner zero = []
  empty_lines inner (suc n) = pane_line d [] inner ∷ empty_lines inner n

  -- The loop `for len(lines) < target`.
  unfoldable pub fill_to : ℕ → ℕ → List Text → List Text
  fill_to inner target lines = lines ++ empty_lines inner (target - length lines)

module _ (d : Display) (on : Bool) where
  unfoldable pub cap_block : SettingsModel → ℕ → List Text
  cap_block m inner =
      if ltb 0 m.max_boxes
      then pane_sep inner
        ∷ pane_line d (cap_line d on m) inner
        ∷ (if leb m.max_boxes (created_count m.rows)
            then pane_line d (dim on (utf8 "cap reached — delete one")) inner ∷ []
            else [])
      else []

  unfoldable pub master_pane : SettingsModel → ℕ → ℕ → List Text
  master_pane m inner budget =
      let rows = scroll_rows (master_row_lines d on m) (max 1 (budget - chrome m)) m.selected in
      pane_top d (codes "boxes") inner
      ∷ (map (λ row. pane_line d row inner) rows
          ++ empty_lines d inner (budget - chrome m - length rows)
          ++ cap_block m inner
          ++ pane_bottom inner ∷ [])

  unfoldable pub honesty : BoxRow → Text
  honesty r =
      if r.reconnect
      then utf8 "authorization changed — reconnect settings to refresh"
      else if r.stale
      then utf8 "last known state — refresh failed"
      else []

  unfoldable pub strip : Time → BoxRow → List Text
  strip now r =
      dim on (pad_to d (codes "STATUS") 12 ++ pad_to d (codes "UPTIME") 11 ++ codes "RESTARTS")
      ∷ (pad_to d (tinted d on (λ text. text) r.state (state_word r.state)) 12
          ++ pad_to d (format_uptime r.started now) 11
          ++ itoa (signed32 r.restarts))
      ∷ []

  abbrev pub entry : Text → Text → Text
  entry label value = dim on (pad_to d label 10) ++ value

  unfoldable pub ledger : BoxRow → List Text
  ledger r =
      entry (codes "IMAGE") (sanitize d r.image)
      ∷ entry (codes "RUNTIME") (sanitize d r.runtime_class)
      ∷ entry (codes "REQUESTS") (sanitize d r.requests)
      ∷ entry (codes "LIMITS") (sanitize d r.limits)
      ∷ []

  abbrev pub framed : ℕ → List Text → List Text
  framed inner = map (λ line. pane_line d line inner)

  -- The honesty line is dropped where the pane has no room for it: 2 lines are the strip, 4 the
  -- ledger, and 4 the borders, the separator and the line itself.
  unfoldable pub data_lines : Time → BoxRow → ℕ → ℕ → List Text → List Text
  data_lines now r inner budget lines =
      let told = honesty r in
      let hint = if told == [] || ltb budget 10 then [] else dim on told ∷ [] in
      fill_to d inner (budget - 4 - 1)
        (lines ++ framed inner (strip now r) ++ framed inner hint ++ pane_sep inner ∷ [])
      ++ framed inner (ledger r)

  -- What stands under the title.
  unfoldable pub detail_lines : RowState → Time → BoxRow → ℕ → ℕ → List Text → List Text
  detail_lines not_created now r inner budget lines =
      lines
      ++ framed inner (
          dim on (codes "not created")
          ∷ dim on (
              codes "ssh "
              ++ sanitize d r.template
              ++ codes "@"
              ++ host_placeholder
              ++ codes " creates this box")
          ∷ [])
  detail_lines checking now r inner budget lines =
      lines ++ framed inner (dim on (utf8 "checking…") ∷ [])
  detail_lines refused now r inner budget lines =
      lines
      ++ framed inner (
          dim on (codes "authorization changed")
          ∷ dim on (codes "reconnect settings to refresh")
          ∷ [])
  detail_lines unavailable now r inner budget lines =
      lines
      ++ framed inner (
          dim on (codes "unreachable")
          ∷ dim on (utf8 "retrying — last known state when it returns")
          ∷ [])
  detail_lines state now r inner budget lines = data_lines now r inner budget lines

  unfoldable pub detail_pane : Time → BoxRow → ℕ → ℕ → List Text
  detail_pane now r inner budget =
      let title = sanitize d r.template ++ separator ++ r.name in
      fill_to d inner (budget - 1)
        (detail_lines r.state now r inner budget (pane_top d title inner ∷ []))
      ++ pane_bottom inner ∷ []
