-- ===== src/Settings/View/Rows.antt =====
-- settings-tui/view.go: the words for a row, the rows of the single-column layout and of the master
-- pane, and scrolling.
use dev_box.Common.{
  ℕ, suc, ◌+◌, ◌-◌, ◌*◌, ◌/◌, min, Bool, ◌&&◌, ◌||◌, not, List, [], ◌∷◌, ◌++◌, Text, codes, length,
  take, drop, ℤ, pos, negsuc, ltb, leb, ◌==◌, if◌then◌else◌, text_eq, number_eq,
}
use dev_box.Strings.Decimal.{itoa}
use dev_box.Strings.Utf8.{utf8, rune_count}
use dev_box.Settings.Boxes.{Time, format_uptime}
use dev_box.Settings.Rows.{
  RowState, BoxRow, checking, running, pending, terminating, error, not_created, unavailable,
  refused,
}
use dev_box.Settings.Model.{
  SettingsModel, ConnState, conn_checking, live, partial, unreachable, conn_text, created_count,
}
use dev_box.Settings.View.Style.{
  Display, repeat, sanitize, pad_to, right_in, dim, bold, red, green, yellow,
}

abbrev pub host_placeholder : Text
host_placeholder = codes "<host>"

unfoldable pub state_word : RowState → Text
state_word running = codes "Running"
state_word pending = codes "Pending"
state_word terminating = codes "Terminating"
state_word error = codes "Error"
state_word not_created = codes "not created"
state_word refused = codes "reconnect"
state_word unavailable = codes "unreachable"
state_word checking = utf8 "…"

unfoldable pub status_text : BoxRow → Text
status_text r =
    let status = state_word r.state in
    if r.reconnect && not (status == codes "reconnect")
    then status ++ codes " (reconnect)"
    else if r.stale
    then status ++ codes " (last known)"
    else status

-- The window of `visible` rows that ends at the selected one, if that is not near the start.
unfoldable pub scroll_rows : List Text → ℕ → ℕ → List Text
scroll_rows rows visible selected =
    let top = selected + 1 - visible in
    let start = if ltb (length rows) (top + visible) then length rows - visible else top in
    if leb (length rows) visible then rows else take visible (drop start rows)

-- The loop over the lengths of the names.
unfoldable pub template_width : ℕ → List BoxRow → ℕ
template_width width [] = width
template_width width (r ∷ rows) =
    template_width (if ltb width (length r.template) then length r.template else width) rows

-- `%-*s`, which counts runes.
unfoldable pub pad_runes : Text → ℕ → Text
pad_runes s width = s ++ repeat (width - rune_count s) (codes " ")

-- The `int32` whose bits these are.
unfoldable pub signed32 : ℕ → ℤ
signed32 n = if ltb n 2147483648 then pos n else negsuc (4294967295 - n)

abbrev pub marker : Bool → Text
marker selected = if selected then utf8 "▸ " else codes "  "

module _ (d : Display) (on : Bool) where
  -- The colour of a state that vouches for a pod; another state has that of `other`.
  unfoldable pub tinted : (Text → Text) → RowState → Text → Text
  tinted other running text = green on text
  tinted other pending text = yellow on text
  tinted other terminating text = yellow on text
  tinted other error text = red on text
  tinted other state text = other text

  unfoldable pub conn_styled : ConnState → Text
  conn_styled live = green on (conn_text live)
  conn_styled partial = yellow on (conn_text partial)
  conn_styled unreachable = red on (conn_text unreachable)
  conn_styled conn_checking = dim on (conn_text conn_checking)

  -- One round of the loop of `masterRowLines`.
  unfoldable pub master_row_line : ℕ → Bool → BoxRow → Text
  master_row_line width selected r =
      let clean = sanitize d r.template in
      let name = if selected then bold on clean else clean in
      let state = tinted (dim on) r.state (state_word r.state) in
      let line =
        pad_to d (marker selected ++ name) (2 + width) ++ codes "  " ++ right_in d state 11 in
      if r.stale || r.reconnect then dim on line else line

  unfoldable pub master_rows_from : ℕ → ℕ → ℕ → List BoxRow → List Text
  master_rows_from width i selected [] = []
  master_rows_from width i selected (r ∷ rows) =
      master_row_line width (i == selected) r ∷ master_rows_from width (suc i) selected rows

  unfoldable pub master_row_lines : SettingsModel → List Text
  master_row_lines m = master_rows_from (template_width 6 m.rows) 0 m.selected m.rows

  -- `max_boxes` is positive where this is called.
  unfoldable pub cap_line : SettingsModel → Text
  cap_line m =
      let created = created_count m.rows in
      let filled = min (created * 10 / m.max_boxes) 10 in
      let blocks = repeat filled (utf8 "█") in
      let bar = if leb m.max_boxes created then yellow on blocks else green on blocks in
      let rest = 10 - filled in
      let whole = if ltb 0 rest then bar ++ dim on (repeat rest (utf8 "░")) else bar in
      codes "created "
      ++ bold on (itoa (pos created) ++ codes "/" ++ itoa (pos m.max_boxes))
      ++ codes " "
      ++ whole

module _ (d : Display) (on : Bool) (now : Time) where
  -- The line of a row with data.
  unfoldable pub data_line : Text → BoxRow → Text
  data_line prefix r =
      let status = tinted d on (λ text. text) r.state (status_text r) in
      let details =
        pad_runes status 20
        ++ codes " "
        ++ format_uptime r.started now
        ++ codes "  "
        ++ sanitize d r.image
        ++ codes "  "
        ++ sanitize d r.runtime_class
        ++ codes "  restarts "
        ++ itoa (signed32 r.restarts)
        ++ codes "  "
        ++ sanitize d r.limits in
      if r.stale || r.reconnect then dim on (prefix ++ details) else prefix ++ details

  unfoldable pub line_of_state : RowState → Text → BoxRow → Text
  line_of_state not_created prefix r =
      prefix ++ dim on (utf8 "not created · ssh " ++ r.template ++ codes "@" ++ host_placeholder)
  line_of_state checking prefix r = prefix ++ dim on (utf8 "…")
  line_of_state unavailable prefix r = dim on (prefix ++ codes "unreachable")
  line_of_state refused prefix r =
      if r.phase == []
      then dim on (prefix ++ utf8 "reconnect · authorization changed")
      else data_line prefix r
  line_of_state state prefix r = data_line prefix r

  -- One round of the loop of `rowLines`.
  unfoldable pub row_line : ℕ → Bool → BoxRow → Text
  row_line width selected r =
      line_of_state r.state (marker selected ++ pad_runes r.template (width + 2)) r

  unfoldable pub rows_from : ℕ → ℕ → ℕ → List BoxRow → List Text
  rows_from width i selected [] = []
  rows_from width i selected (r ∷ rows) =
      row_line width (i == selected) r ∷ rows_from width (suc i) selected rows

  unfoldable pub row_lines : SettingsModel → List Text
  row_lines m = rows_from (template_width 8 m.rows) 0 m.selected m.rows
