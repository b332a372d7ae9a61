-- ===== src/Settings/Model/Dialog.antt =====
-- The confirmation dialog as a machine of three phases, and the phase that a model shows.
pub mod Keys
pub mod Refine
use dev_box.Common.{
  ℕ, zero, suc, ◌-◌, ◌≤◌, ◌<◌, ◌≡◌, refl, ap, ap₂, subst, sym, ◌∙◌, true, false, List, [], ◌∷◌,
  length, get_elem?, get_elem?-some, map, none, some, Text, codes, text_eq, Bool, if◌then◌else◌,
  ◌⊎◌, ◌==◌, number_eq, contains, Option, Bool-cases, Option-cases, inl, inr, arith, Result,
}
use mathlib.Core.Option
use dev_box.Settings.Pod.{PodInfo}
use dev_box.Settings.Kube.{ApiError}
use dev_box.Settings.Rows.{BoxRow, box_exists}
use dev_box.Settings.Model.{
  SettingsModel, DialogState, no_dialog, confirm_delete, deleting, live, Command, tick, delete,
  delete_message, start_refresh, Msg, window_size, ticked, refresh_done, delete_done, key_press,
  other_msg, Step, ask_delete_row, names, is_live, clamp, confirm, apply_refresh, refresh_if_idle,
  ask_delete, list_key, dialog_key, key_in, update,
}

-- Nothing is asked, or the deletion of a pod is asked for, or it is in flight.
pub data Phase : Type 0 where
  idle : Phase
  asked removing : Text → Phase

-- The steps, with the pods that each deletes. `IsBox` says which pods may be asked about, and
-- `IsFresh` that this is known.
pub data PhaseStep (IsBox : Text → Type 0) (IsFresh : Type 0)
    : Phase → List Text → Phase → Type 0 where
  rest : {p : Phase} → PhaseStep IsBox IsFresh p [] p
  ask : {pod : Text} → IsFresh → IsBox pod → PhaseStep IsBox IsFresh idle [] (asked pod)
  cancel : {pod : Text} → PhaseStep IsBox IsFresh (asked pod) [] idle
  go : {pod : Text} → IsFresh → PhaseStep IsBox IsFresh (asked pod) (pod ∷ []) (removing pod)
  end : {pod : Text} → PhaseStep IsBox IsFresh (removing pod) [] idle

-- The phase that the model is in: the dialog is about the selected row.
pub data Shows (m : SettingsModel) : Phase → Type 0 where
  shows_idle : m.dialog ≡ no_dialog → Shows m idle
  shows_asked :
      {pod : Text}
      → m.dialog ≡ confirm_delete
      → get_elem? (names m.rows) m.selected ≡ some pod
      → Shows m (asked pod)
  shows_removing :
      {pod : Text}
      → m.dialog ≡ deleting
      → get_elem? (names m.rows) m.selected ≡ some pod
      → Shows m (removing pod)

-- A pod of a row that is known to exist.
abbrev pub IsBoxOf : SettingsModel → Text → Type 0
IsBoxOf m pod =
    (i : ℕ) × ((row : BoxRow) × ((get_elem? m.rows i ≡ some row)
        × ((box_exists row ≡ true) × (row.name ≡ pod))))

-- The end of a deletion.
abbrev pub IsEnd : Msg → Type 0
IsEnd (delete_done e) = Unit
IsEnd _ = ⊥

abbrev pub IsRemoving : Phase → Type 0
IsRemoving (removing pod) = Unit
IsRemoving _ = ⊥
