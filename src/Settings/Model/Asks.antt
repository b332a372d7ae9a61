-- ===== src/Settings/Model/Asks.antt =====
-- Which pods the commands of the model name.
use dev_box.Common.{
  ℕ, zero, suc, ◌≡◌, refl, true, List, [], ◌∷◌, All, contains, get_elem?, none, some, Text, ==_refl,
  Option-cases, inl, inr, text_eq, arith,
}
use dev_box.Settings.Rows.{BoxRow}
use dev_box.Settings.Model.{
  SettingsModel, DialogState, no_dialog, confirm_delete, deleting, Command, tick, quit, refresh,
  delete, Msg, window_size, ticked, refresh_done, delete_done, key_press, other_msg, Step, names,
  delete_message, init, start_refresh, refresh_if_idle, ask_delete, list_key, confirm, dialog_key,
  key_in, update,
}

-- A refresh asks for each row's pod, and a deletion is of one of them.
abbrev pub IsAbout : List BoxRow → Command → Type 0
IsAbout rows tick = Unit
IsAbout rows quit = Unit
IsAbout rows (refresh pods) = pods ≡ names rows
IsAbout rows (delete name) = contains (names rows) name ≡ true

abbrev AreAbout : Step → Type 0
AreAbout none = Unit
AreAbout (some (m', commands)) = All (IsAbout m'.rows) commands

contains-names :
    (rows : List BoxRow) (i : ℕ) (row : BoxRow)
    → get_elem? rows i ≡ some row
    → contains (names rows) row.name ≡ true
contains-names [] i row e = absurd (ground arith)
contains-names (r ∷ rows) zero row e = ground (arith, ==_refl row.name)
contains-names (r ∷ rows) (suc i) row e = ground (arith, contains-names rows i row e)

start_refresh-AreAbout : (m : SettingsModel) → AreAbout (some (start_refresh m))
unfolding start_refresh
start_refresh-AreAbout m = ground arith

refresh_if_idle-AreAbout : (m : SettingsModel) → AreAbout (some (refresh_if_idle m))
unfolding refresh_if_idle
refresh_if_idle-AreAbout m = ground (arith, start_refresh-AreAbout m)

ask_delete-AreAbout : (m : SettingsModel) → AreAbout (ask_delete m)
unfolding ask_delete
ask_delete-AreAbout m = ground arith

list_key-AreAbout : (m : SettingsModel) (key : Text) → AreAbout (list_key m key)
unfolding list_key
list_key-AreAbout m key = ground (arith, ask_delete-AreAbout m, refresh_if_idle-AreAbout m)

confirm-AreAbout : (m : SettingsModel) → AreAbout (confirm m)
unfolding confirm
confirm-AreAbout m = elim (Option-cases (get_elem? m.rows m.selected)) [
  | inl missing ↦ ground arith
  | inr (row, found) ↦ ground (arith, contains-names m.rows m.selected row found)
]

dialog_key-AreAbout : (m : SettingsModel) (key : Text) → AreAbout (dialog_key m key)
unfolding dialog_key
dialog_key-AreAbout m key = ground (arith, confirm-AreAbout m)

key_in-AreAbout : (d : DialogState) (m : SettingsModel) (key : Text) → AreAbout (key_in d m key)
unfolding key_in
key_in-AreAbout no_dialog m key = list_key-AreAbout m key
key_in-AreAbout confirm_delete m key = dialog_key-AreAbout m key
key_in-AreAbout deleting m key = tt

pub init-IsAbout : (m : SettingsModel) → All (IsAbout m.rows) (init m)
unfolding init
init-IsAbout m = (refl, (tt, tt))

pub update-AreAbout : (m : SettingsModel) (msg : Msg) → AreAbout (update m msg)
unfolding update
update-AreAbout m (window_size w h) = tt
update-AreAbout m ticked = ground (arith, refresh_if_idle-AreAbout m)
update-AreAbout m (refresh_done results) = tt
update-AreAbout m (delete_done e) =
    start_refresh-AreAbout (record m { dialog = no_dialog; message = delete_message e })
update-AreAbout m (key_press key) = key_in-AreAbout m.dialog m key
update-AreAbout m other_msg = tt
