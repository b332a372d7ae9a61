-- ===== src/Settings/Model.antt =====
-- settings-tui/model.go: the Bubble Tea model and its updates.
pub mod Invariant
pub mod Deletion
pub mod Refresh
pub mod World
pub mod Dialog
pub mod Sound
pub mod Recovery
pub mod Outcome
pub mod Kept
pub mod Asks
pub mod Rounds
mod State
unfoldable pub use State.*
use dev_box.Common.{
  ℕ, ℤ, pos, zero, suc, ◌+◌, ◌-◌, Bool, true, false, ◌&&◌, ◌||◌, not, List, [], ◌∷◌, ◌++◌, map,
  length, get_elem?, Option, none, some, Text, codes, contains, Result, ok, err, ltb, leb, ◌==◌,
  if◌then◌else◌, number_eq, text_eq,
}
use dev_box.Settings.Boxes.{em_dash}
use dev_box.Settings.Pod.{PodInfo}
use dev_box.Settings.Kube.{
  ApiError, not_found, forbidden, token_rejected, api_error, other_error, Cluster, BoxClient,
  get_pod, delete_pod,
}
use dev_box.Settings.Rows.{BoxRow, box_exists, new_row, apply_results, count_answers, is_answer}
use dev_box.Strings.Decimal.{itoa}

abbrev pub conn_after : ℕ → ℕ → ConnState
conn_after answered failed =
    if failed == 0 then live else if answered == 0 then unreachable else partial

abbrev pub is_live : ConnState → Bool
is_live live = true
is_live _ = false

unfoldable pub apply_refresh : SettingsModel → List (Result ApiError PodInfo) → SettingsModel
unfolding clamp
apply_refresh m results =
    let answered = count_answers results in
    let conn = conn_after answered (length results - answered) in
    if length results == length m.rows
    then record m {
      rows = apply_results m.rows results;
      conn = conn;
      message = if is_live conn then [] else m.message;
      selected = clamp m.selected (length m.rows);
    }
    else m

-- A refresh in flight, unless there is nothing to list.
unfoldable pub start_refresh : SettingsModel → SettingsModel × List Command
start_refresh m =
    if length m.rows == 0 then (m, []) else (record m { refreshing = true }, refresh_of m ∷ [])

unfoldable pub refresh_if_idle : SettingsModel → SettingsModel × List Command
unfolding start_refresh
refresh_if_idle m = if m.refreshing then (m, []) else start_refresh m

-- `none` is Go's panic at an index out of range.
abbrev pub Step : Type 0
Step = Option (SettingsModel × List Command)

abbrev stay : SettingsModel → Step
stay m = some (m, [])

unfoldable pub ask_delete_row : SettingsModel → Option BoxRow → Step
ask_delete_row m none = none
ask_delete_row m (some row) =
    if box_exists row
    then stay (record m { message = []; dialog = confirm_delete })
    else stay (record m {
      message =
          row.template
          ++ codes " is not created; log in as "
          ++ row.template
          ++ codes "@<host> to create it";
    })

-- The key `d`.
unfoldable pub ask_delete : SettingsModel → Step
unfolding ask_delete_row
ask_delete m =
    if length m.rows == 0
    then stay (record m {
      message = codes "no box templates exist " ++ em_dash ++ codes " nothing to delete";
    })
    else if is_live m.conn
    then ask_delete_row m (get_elem? m.rows m.selected)
    else stay (record m {
      message =
          codes "delete is unavailable while the connection is "
          ++ conn_text m.conn
          ++ codes " (stale state)";
    })

abbrev one_of : Text → Text → Text → Bool
one_of key a b = key == a || key == b

unfoldable pub list_key : SettingsModel → Text → Step
unfolding refresh_if_idle
list_key m key =
    if one_of key (codes "q") (codes "ctrl+c")
    then some (m, quit ∷ [])
    else if one_of key (codes "up") (codes "k")
    then stay (record m { selected = m.selected - 1 })
    else if one_of key (codes "down") (codes "j")
    then stay (record m {
      selected = if ltb (m.selected + 1) (length m.rows) then m.selected + 1 else m.selected;
    })
    else if key == codes "r"
    then some (refresh_if_idle m)
    else if key == codes "d"
    then ask_delete m
    else stay m

confirm_row : SettingsModel → Option BoxRow → Step
confirm_row m none = none
confirm_row m (some row) = some (record m { dialog = deleting }, delete row.name ∷ [])

-- The key `y`.
unfoldable pub confirm : SettingsModel → Step
unfolding confirm_row
confirm m =
    if is_live m.conn
    then confirm_row m (get_elem? m.rows m.selected)
    else stay (record m {
      dialog = no_dialog;
      message = codes "delete cancelled: the connection is " ++ conn_text m.conn;
    })

unfoldable pub dialog_key : SettingsModel → Text → Step
unfolding confirm
dialog_key m key =
    if key == codes "y"
    then confirm m
    else if contains (codes "n" ∷ codes "esc" ∷ codes "q" ∷ codes "ctrl+c" ∷ []) key
    then stay (record m { dialog = no_dialog })
    else stay m

-- `dialogKey` ignores every key while a deletion is in flight.
unfoldable pub key_in : DialogState → SettingsModel → Text → Step
unfolding list_key dialog_key
key_in no_dialog m key = list_key m key
key_in confirm_delete m key = dialog_key m key
key_in deleting m key = stay m

unfoldable pub delete_message : Option ApiError → Text
delete_message none = []
delete_message (some (forbidden message)) =
    codes "delete refused (authorization changed) "
    ++ em_dash
    ++ codes " reconnect settings to refresh"
delete_message (some e) = codes "delete failed: " ++ error_text e

abbrev with_tick : SettingsModel × List Command → SettingsModel × List Command
with_tick (m, commands) = (m, tick ∷ commands)

unfoldable pub update : SettingsModel → Msg → Step
unfolding key_in refresh_if_idle apply_refresh start_refresh delete_message
update m (window_size w h) = stay (record m { width = w; height = h })
update m ticked = some (with_tick (refresh_if_idle m))
update m (refresh_done results) = stay (apply_refresh (record m { refreshing = false }) results)
update m (delete_done e) =
    some (start_refresh (record m { dialog = no_dialog; message = delete_message e }))
update m (key_press key) = key_in m.dialog m key
update m other_msg = stay m

unfoldable pub created_count : List BoxRow → ℕ
created_count [] = 0
created_count (r ∷ rows) = let rest = created_count rows in if box_exists r then suc rest else rest
