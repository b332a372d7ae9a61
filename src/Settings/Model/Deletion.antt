-- ===== src/Settings/Model/Deletion.antt =====
-- What leads to a deletion.
use dev_box.Common.{
  ◌≡◌, refl, ap, ◌⊎◌, inl, inr, true, List, [], ◌∷◌, get_elem?, none, some, Text, codes, text_eq,
  Bool-cases, Option-cases, arith,
}
use dev_box.Settings.Rows.{BoxRow}
use dev_box.Settings.Model.{
  SettingsModel, DialogState, no_dialog, confirm_delete, deleting, live, Command, tick, quit,
  refresh, delete, Msg, window_size, ticked, refresh_done, delete_done, key_press, other_msg, Step,
  is_live, ConnState, confirm, refresh_if_idle, ask_delete, list_key, dialog_key, key_in, update,
}

-- The pods that the commands delete.
abbrev pub deleted : List Command → List Text
deleted [] = []
deleted (delete name ∷ commands) = name ∷ deleted commands
deleted (tick ∷ commands) = deleted commands
deleted (quit ∷ commands) = deleted commands
deleted (refresh pods ∷ commands) = deleted commands

abbrev DeletesNothing : Step → Type 0
DeletesNothing none = Unit
DeletesNothing (some (m', commands)) = deleted commands ≡ []

-- A step deletes the selected row of a live model, and waits for the outcome, or deletes nothing.
abbrev DeletesSelected : SettingsModel → Step → Type 0
DeletesSelected m none = Unit
DeletesSelected m (some (m', commands)) =
    (deleted commands ≡ [])
    ⊎ ((m.conn ≡ live)
        × (row : BoxRow) × (get_elem? m.rows m.selected ≡ some row)
        × (deleted commands ≡ row.name ∷ [])
        × (m'.dialog ≡ deleting))

ask_delete-DeletesNothing : (m : SettingsModel) → DeletesNothing (ask_delete m)
unfolding ask_delete
ask_delete-DeletesNothing m = ground arith

list_key-DeletesNothing : (m : SettingsModel) (key : Text) → DeletesNothing (list_key m key)
unfolding list_key
list_key-DeletesNothing m key = ground (arith, ask_delete-DeletesNothing m)

pub is_live-live : (c : ConnState) → is_live c ≡ true → c ≡ live
is_live-live c h = ground arith

confirm-DeletesSelected : (m : SettingsModel) → DeletesSelected m (confirm m)
unfolding confirm
confirm-DeletesSelected m = elim (Bool-cases (is_live m.conn)) [
  | inr stale ↦ ground arith
  | inl fresh ↦ elim (Option-cases (get_elem? m.rows m.selected)) [
    | inl missing ↦ ground arith
    | inr (row, found) ↦
        rw (fresh, confirm) (rw found (inr (is_live-live m.conn fresh, row, found, refl, refl)))
  ]
]

-- Only the key `y` deletes.
dialog_key-DeletesSelected :
    (m : SettingsModel) (key : Text)
    → DeletesSelected m (dialog_key m key) × ((key ≡ codes "y") ⊎ DeletesNothing (dialog_key m key))
unfolding dialog_key
dialog_key-DeletesSelected m key = ground (arith, confirm-DeletesSelected m)

pub refresh_if_idle-deletes : (m : SettingsModel) → deleted (refresh_if_idle m).1 ≡ []
unfolding refresh_if_idle
refresh_if_idle-deletes m = ground arith

-- What a step that deletes tells of the message and the model.
abbrev IsConfirmed : SettingsModel → Msg → Step → Type 0
IsConfirmed m msg none = Unit
IsConfirmed m msg (some (m', commands)) =
    (deleted commands ≡ [])
    ⊎ ((msg ≡ key_press (codes "y"))
        × (m.dialog ≡ confirm_delete)
        × (m.conn ≡ live)
        × (row : BoxRow) × (get_elem? m.rows m.selected ≡ some row)
        × (deleted commands ≡ row.name ∷ [])
        × (m'.dialog ≡ deleting))

confirmed :
    (m : SettingsModel) (key : Text) (step : Step)
    → m.dialog ≡ confirm_delete
    → DeletesSelected m step
    → (key ≡ codes "y") ⊎ DeletesNothing step
    → IsConfirmed m (key_press key) step
confirmed m key none d h k = tt
confirmed m key (some (m', commands)) d (inl nothing) k = inl nothing
confirmed m key (some (m', commands)) d (inr h) (inr nothing) = inl nothing
confirmed m key (some (m', commands)) d (inr (fresh, row, found, gone, waits)) (inl y) =
    inr (ap key_press y, d, fresh, row, found, gone, waits)

idle : (m : SettingsModel) (msg : Msg) (step : Step) → DeletesNothing step → IsConfirmed m msg step
idle m msg none h = tt
idle m msg (some (m', commands)) h = inl h

key_in-IsConfirmed :
    (d : DialogState) (m : SettingsModel) (key : Text)
    → m.dialog ≡ d
    → IsConfirmed m (key_press key) (key_in d m key)
unfolding key_in
key_in-IsConfirmed no_dialog m key d = idle m _ _ (list_key-DeletesNothing m key)
key_in-IsConfirmed confirm_delete m key d =
    let (selected, y) = dialog_key-DeletesSelected m key in confirmed m key _ d selected y
key_in-IsConfirmed deleting m key d = inl refl

update-IsConfirmed : (m : SettingsModel) (msg : Msg) → IsConfirmed m msg (update m msg)
unfolding update
update-IsConfirmed m (window_size w h) = inl refl
update-IsConfirmed m ticked = inl (refresh_if_idle-deletes m)
update-IsConfirmed m (refresh_done results) = inl refl
update-IsConfirmed m (delete_done e) = inl (ground arith)
update-IsConfirmed m (key_press key) = key_in-IsConfirmed m.dialog m key refl
update-IsConfirmed m other_msg = inl refl

-- An update deletes nothing, or it deletes one pod: that of the selected row, on the key `y`, in
-- the confirmation dialog, while the connection is live, and it then waits for the outcome.
pub update-deleted :
    (m : SettingsModel) (msg : Msg) (m' : SettingsModel) (commands : List Command)
    → update m msg ≡ some (m', commands)
    → (deleted commands ≡ [])
      ⊎ ((msg ≡ key_press (codes "y"))
          × (m.dialog ≡ confirm_delete)
          × (m.conn ≡ live)
          × (row : BoxRow) × (get_elem? m.rows m.selected ≡ some row)
          × (deleted commands ≡ row.name ∷ [])
          × (m'.dialog ≡ deleting))
update-deleted m msg m' commands e = rw e at (update-IsConfirmed m msg)
