-- ===== src/Settings/Model/Invariant.antt =====
-- No message makes the model panic, and none changes the names of its boxes.
use dev_box.Common.{
  ℕ, ◌-◌, ◌≤◌, ◌<◌, ◌≡◌, refl, ap, sym, ◌∙◌, ap₂, ◌≢◌, false, List, [], ◌∷◌, length, length-map,
  get_elem?-some, none, some, Text, Result, ok, err, ◌==◌, number_eq, text_eq, Bool-cases,
  Option-cases, inl, inr, arith,
}
use dev_box.Settings.Pod.{PodInfo}
use dev_box.Settings.Kube.{
  BoxClient, ApiError, not_found, forbidden, token_rejected, api_error, other_error,
}
use dev_box.Settings.Rows.{BoxRow, apply_result, apply_results}
use dev_box.Settings.Model.{
  SettingsModel, new_model, DialogState, key_in, no_dialog, confirm_delete, deleting, Command, Msg,
  window_size, ticked, refresh_done, delete_done, key_press, other_msg, Step, names, apply_refresh,
  refresh_if_idle, ask_delete, list_key, dialog_key, update,
}

-- The selection is in range, and a dialog is about a row.
pub record IsValid (m : SettingsModel) : Type 0 where
  pub in_range : m.selected ≤ length m.rows - 1
  pub about_row : m.dialog ≢ no_dialog → 0 < length m.rows

-- The next model is valid and lists the same pods.
abbrev pub Keeps : SettingsModel → Step → Type 0
Keeps m none = ⊥
Keeps m (some (m', commands)) = IsValid m' × (names m'.rows ≡ names m.rows)

name-apply_result :
    (r : BoxRow) (result : Result ApiError PodInfo) → (apply_result r result).name ≡ r.name
unfolding apply_result
name-apply_result r (ok pod) = refl
name-apply_result r (err (not_found message)) = refl
name-apply_result r (err (forbidden message)) = refl
name-apply_result r (err (token_rejected message)) = refl
name-apply_result r (err (api_error code message)) = refl
name-apply_result r (err (other_error text)) = refl

pub names-apply_results :
    (rows : List BoxRow) (results : List (Result ApiError PodInfo))
    → names (apply_results rows results) ≡ names rows
unfolding apply_results
names-apply_results [] results = refl
names-apply_results (r ∷ rows) [] = refl
names-apply_results (r ∷ rows) (result ∷ results) =
    ap₂ ◌∷◌ (name-apply_result r result) (names-apply_results rows results)

length-names : (rows : List BoxRow) → length (names rows) ≡ length rows
length-names rows = length-map (λ r. r.name) rows

length-apply_results :
    (rows : List BoxRow) (results : List (Result ApiError PodInfo))
    → length (apply_results rows results) ≡ length rows
length-apply_results rows results =
    sym (length-names (apply_results rows results))
    ∙ ap length (names-apply_results rows results)
    ∙ length-names rows

apply_refresh-Keeps :
    (m : SettingsModel) (results : List (Result ApiError PodInfo))
    → IsValid m
    → Keeps m (some (apply_refresh m results, []))
unfolding apply_refresh
apply_refresh-Keeps m results v =
    ground (arith, names-apply_results m.rows results, length-apply_results m.rows results)

refresh_if_idle-Keeps : (m : SettingsModel) → IsValid m → Keeps m (some (refresh_if_idle m))
unfolding refresh_if_idle
refresh_if_idle-Keeps m v = ground arith

ask_delete-Keeps : (m : SettingsModel) → IsValid m → Keeps m (ask_delete m)
unfolding ask_delete
ask_delete-Keeps m v = elim (Bool-cases (length m.rows == 0)) [
  | inl empty ↦ ground arith
  | inr filled ↦
      let (row, found) = get_elem?-some m.rows m.selected (ground arith) in
      rw (filled, ask_delete) (ground arith)
]

list_key-Keeps : (m : SettingsModel) (key : Text) → IsValid m → Keeps m (list_key m key)
unfolding list_key
list_key-Keeps m key v = ground (arith, ask_delete-Keeps m v)

dialog_key-Keeps :
    (m : SettingsModel) (key : Text) → IsValid m → 0 < length m.rows → Keeps m (dialog_key m key)
unfolding dialog_key
dialog_key-Keeps m key v h =
    let (row, found) = get_elem?-some m.rows m.selected (omega (arith, v)) in ground arith

key_in-Keeps :
    (d : DialogState) (m : SettingsModel) (key : Text)
    → IsValid m
    → m.dialog ≡ d
    → Keeps m (key_in d m key)
unfolding key_in
key_in-Keeps no_dialog m key v e = list_key-Keeps m key v
key_in-Keeps confirm_delete m key v e = dialog_key-Keeps m key v (v.about_row (λ f. cc))
key_in-Keeps deleting m key v e = (v, refl)

pub update-Keeps : (m : SettingsModel) (msg : Msg) → IsValid m → Keeps m (update m msg)
unfolding update
update-Keeps m (window_size w h) v = ground arith
update-Keeps m ticked v = refresh_if_idle-Keeps m v
update-Keeps m (refresh_done results) v =
    apply_refresh-Keeps (record m { refreshing = false }) results (ground arith)
update-Keeps m (delete_done e) v = ground arith
update-Keeps m (key_press key) v = key_in-Keeps m.dialog m key v refl
update-Keeps m other_msg v = (v, refl)

-- A model is built valid.
pub new_model-IsValid :
    (sha256 : Text → Text) (owner : Text) (templates : List Text) (max_boxes : ℕ)
    (client : BoxClient) (width height : ℕ)
    → IsValid (new_model sha256 owner templates max_boxes client width height)
unfolding new_model
new_model-IsValid sha256 owner templates max_boxes client width height = record {
  in_range = omega arith;
  about_row = λ h. absurd (h refl);
}

-- In a valid model a message leads, without a panic, to a valid model of the same boxes.
pub update-IsValid :
    (m : SettingsModel) (msg : Msg)
    → IsValid m
    → (m' : SettingsModel) × (commands : List Command) × (update m msg ≡ some (m', commands))
      × IsValid m'
      × (names m'.rows ≡ names m.rows)
update-IsValid m msg v = elim (Option-cases (update m msg)) [
  | inl panic ↦ absurd (rw panic at (update-Keeps m msg v))
  | inr ((m', commands), e) ↦
      let (valid, same) = rw e at (update-Keeps m msg v) in (m', commands, e, valid, same)
]
