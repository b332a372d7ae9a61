-- ===== src/Settings/Model/Kept.antt =====
-- What every message keeps of the rows.
use dev_box.Common.{
  ◌≡◌, refl, ap₂, false, List, [], ◌∷◌, map, length, none, some, Text, text_eq, number_eq, ◌==◌,
  Result, ok, err, Bool-cases, inl, inr, arith,
}
use dev_box.Settings.Pod.{PodInfo}
use dev_box.Settings.Kube.{ApiError, not_found, forbidden, token_rejected, api_error, other_error}
use dev_box.Settings.Rows.{BoxRow, apply_result, apply_results}
use dev_box.Settings.Model.{
  SettingsModel, DialogState, no_dialog, confirm_delete, deleting, Msg, window_size, ticked,
  refresh_done, delete_done, key_press, other_msg, Step, names, ask_delete, list_key, dialog_key,
  key_in, update, apply_refresh,
}
use dev_box.Settings.Model.Invariant.{names-apply_results}

abbrev pub templates_of : List BoxRow → List Text
templates_of = map (λ r. r.template)

-- A message changes neither the templates of the rows nor their names.
abbrev pub Kept : SettingsModel → Step → Type 0
Kept m none = Unit
Kept m (some (m', commands)) =
    (templates_of m'.rows ≡ templates_of m.rows) × (names m'.rows ≡ names m.rows)

template-apply_result :
    (r : BoxRow) (result : Result ApiError PodInfo) → (apply_result r result).template ≡ r.template
unfolding apply_result
template-apply_result r (ok pod) = refl
template-apply_result r (err (not_found message)) = refl
template-apply_result r (err (forbidden message)) = refl
template-apply_result r (err (token_rejected message)) = refl
template-apply_result r (err (api_error code message)) = refl
template-apply_result r (err (other_error text)) = refl

templates_of-apply_results :
    (rows : List BoxRow) (results : List (Result ApiError PodInfo))
    → templates_of (apply_results rows results) ≡ templates_of rows
unfolding apply_results
templates_of-apply_results [] results = refl
templates_of-apply_results (r ∷ rows) [] = refl
templates_of-apply_results (r ∷ rows) (result ∷ results) =
    ap₂ ◌∷◌ (template-apply_result r result) (templates_of-apply_results rows results)

apply_refresh-Kept :
    (m : SettingsModel) (results : List (Result ApiError PodInfo))
    → Kept m (some (apply_refresh (record m { refreshing = false }) results, []))
unfolding apply_refresh
apply_refresh-Kept m results = elim (Bool-cases (length results == length m.rows)) [
  | inl matching ↦
      rw matching (templates_of-apply_results m.rows results, names-apply_results m.rows results)
  | inr late ↦ rw late (refl, refl)
]

ask_delete-Kept : (m : SettingsModel) → Kept m (ask_delete m)
unfolding ask_delete
ask_delete-Kept m = ground arith

list_key-Kept : (m : SettingsModel) (key : Text) → Kept m (list_key m key)
unfolding list_key
list_key-Kept m key = ground (arith, ask_delete-Kept m)

dialog_key-Kept : (m : SettingsModel) (key : Text) → Kept m (dialog_key m key)
unfolding dialog_key
dialog_key-Kept m key = ground arith

key_in-Kept : (d : DialogState) (m : SettingsModel) (key : Text) → Kept m (key_in d m key)
unfolding key_in
key_in-Kept no_dialog m key = list_key-Kept m key
key_in-Kept confirm_delete m key = dialog_key-Kept m key
key_in-Kept deleting m key = (refl, refl)

pub update-Kept : (m : SettingsModel) (msg : Msg) → Kept m (update m msg)
unfolding update
update-Kept m (window_size w h) = (refl, refl)
update-Kept m ticked = ground arith
update-Kept m (refresh_done results) = apply_refresh-Kept m results
update-Kept m (delete_done e) = ground arith
update-Kept m (key_press key) = key_in-Kept m.dialog m key
update-Kept m other_msg = (refl, refl)
