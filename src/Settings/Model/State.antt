-- ===== src/Settings/Model/State.antt =====
-- settings-tui/model.go: the model, its messages and commands, and the texts of its errors.
use dev_box.Common.{
  ℕ, pos, ◌-◌, Bool, false, List, [], ◌∷◌, ◌++◌, map, Option, none, some, Text, codes, Result, leb,
  ◌==◌, if◌then◌else◌, number_eq, text_eq,
}
use dev_box.Settings.Pod.{PodInfo}
use dev_box.Settings.Kube.{
  ApiError, not_found, forbidden, token_rejected, api_error, other_error, Cluster, BoxClient,
  get_pod, delete_pod,
}
use dev_box.Settings.Rows.{BoxRow, new_row}
use dev_box.Strings.Decimal.{itoa}

pub data ConnState : Type 0 where
  conn_checking live partial unreachable : ConnState

pub data DialogState : Type 0 where
  no_dialog confirm_delete deleting : DialogState

-- The clock is left out: it serves the display only.
pub record SettingsModel : Type 0 where
  pub owner : Text
  pub max_boxes : ℕ
  pub client : BoxClient
  pub rows : List BoxRow
  pub selected : ℕ
  pub conn : ConnState
  pub dialog : DialogState
  pub message : Text
  pub width : ℕ
  pub height : ℕ
  pub refreshing : Bool

-- A `tea.Cmd`; what runs it is below. `tea.Batch` is a list.
pub data Command : Type 0 where
  tick quit : Command
  refresh : List Text → Command
  delete : Text → Command

pub data Msg : Type 0 where
  window_size : ℕ → ℕ → Msg
  ticked : Msg
  refresh_done : List (Result ApiError PodInfo) → Msg
  delete_done : Option ApiError → Msg
  key_press : Text → Msg
  other_msg : Msg

unfoldable pub new_model : (Text → Text) → Text → List Text → ℕ → BoxClient → ℕ → ℕ → SettingsModel
unfolding new_row
new_model sha256 owner templates max_boxes client width height = record {
  owner = owner;
  max_boxes = max_boxes;
  client = client;
  rows = map (new_row sha256 owner) templates;
  selected = 0;
  conn = conn_checking;
  dialog = no_dialog;
  message = [];
  width = width;
  height = height;
  refreshing = false;
}

-- The exact pod names, one for each row.
abbrev pub names : List BoxRow → List Text
names = map (λ r. r.name)

abbrev pub refresh_of : SettingsModel → Command
refresh_of m = refresh (names m.rows)

unfoldable pub init : SettingsModel → List Command
init m = refresh_of m ∷ tick ∷ []

-- The results stand in the order of the names, in whatever order the requests end.
unfoldable pub run_refresh : Cluster → BoxClient → List Text → Msg
run_refresh cluster client pods = refresh_done (map (get_pod cluster client) pods)

abbrev pub settle : Option ApiError → Option ApiError
settle (some (not_found message)) = none
settle e = e

unfoldable pub run_delete : Cluster → BoxClient → Text → Msg
run_delete cluster client name = delete_done (settle (delete_pod cluster client name))

unfoldable pub conn_text : ConnState → Text
conn_text live = codes "Live"
conn_text partial = codes "Partial"
conn_text unreachable = codes "Unreachable"
conn_text conn_checking = codes "checking" ++ 0xe2 ∷ 0x80 ∷ 0xa6 ∷ []

abbrev pub wrapped : Text → Text → Text
wrapped kind message = if message == [] then kind else kind ++ codes ": " ++ message

unfoldable pub error_text : ApiError → Text
error_text (not_found message) = wrapped (codes "pod not found") message
error_text (forbidden message) = wrapped (codes "not authorized for this pod") message
error_text (token_rejected message) = wrapped (codes "the mounted token was rejected") message
error_text (api_error code message) =
    codes "api error HTTP " ++ itoa (pos code) ++ codes ": " ++ message
error_text (other_error text) = text

unfoldable pub clamp : ℕ → ℕ → ℕ
clamp index size = if size == 0 then 0 else if leb size index then size - 1 else index
