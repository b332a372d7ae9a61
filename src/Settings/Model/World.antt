-- ===== src/Settings/Model/World.antt =====
-- The model among its commands: keys, ticks and sizes come at any time, and each command in flight
-- ends at any time, with any outcome. A model that runs a command puts it in flight.
use dev_box.Common.{
  ℕ, suc, ◌+◌, ◌-◌, ◌<◌, ◌≡◌, refl, ◌⊎◌, true, false, List, [], ◌∷◌, Option, none, some, Text,
  Result, text_eq, number_eq, arith,
}
use dev_box.Settings.Pod.{PodInfo}
use dev_box.Settings.Kube.{ApiError, BoxClient}
use dev_box.Settings.Model.{
  SettingsModel, DialogState, no_dialog, confirm_delete, deleting, Command, tick, quit, refresh,
  delete, Msg, window_size, ticked, refresh_done, delete_done, key_press, other_msg, Step,
  new_model, init, ask_delete, list_key, dialog_key, key_in, update,
}

pub record World : Type 0 where
  pub model : SettingsModel
  pub refreshes : ℕ
  pub deletions : ℕ

abbrev refreshes_in : List Command → ℕ
refreshes_in [] = 0
refreshes_in (refresh pods ∷ commands) = suc (refreshes_in commands)
refreshes_in (tick ∷ commands) = refreshes_in commands
refreshes_in (quit ∷ commands) = refreshes_in commands
refreshes_in (delete name ∷ commands) = refreshes_in commands

abbrev deletions_in : List Command → ℕ
deletions_in [] = 0
deletions_in (delete name ∷ commands) = suc (deletions_in commands)
deletions_in (tick ∷ commands) = deletions_in commands
deletions_in (quit ∷ commands) = deletions_in commands
deletions_in (refresh pods ∷ commands) = deletions_in commands

abbrev pub launch : World → SettingsModel → List Command → World
launch w m commands = record {
  model = m;
  refreshes = w.refreshes + refreshes_in commands;
  deletions = w.deletions + deletions_in commands;
}

-- What does not come from a command.
abbrev pub IsInput : Msg → Type 0
IsInput (refresh_done results) = ⊥
IsInput (delete_done e) = ⊥
IsInput _ = Unit

pub data WorldStep (w : World) : World → Type 0 where
  input :
      (msg : Msg) (m : SettingsModel) (commands : List Command)
      → IsInput msg
      → update w.model msg ≡ some (m, commands)
      → WorldStep w (launch w m commands)
  refreshed :
      (results : List (Result ApiError PodInfo)) (m : SettingsModel) (commands : List Command)
      → 0 < w.refreshes
      → update w.model (refresh_done results) ≡ some (m, commands)
      → WorldStep w (launch (record w { refreshes = w.refreshes - 1 }) m commands)
  deletion_ended :
      (e : Option ApiError) (m : SettingsModel) (commands : List Command)
      → 0 < w.deletions
      → update w.model (delete_done e) ≡ some (m, commands)
      → WorldStep w (launch (record w { deletions = w.deletions - 1 }) m commands)

pub data Reaches (w : World) : World → Type 0 where
  here : Reaches w w
  next : {v u : World} → Reaches w v → WorldStep v u → Reaches w u

-- The world after `Init`.
abbrev pub launched : SettingsModel → World
launched m = launch (record { model = m; refreshes = 0; deletions = 0 }) m (init m)

abbrev pub started : (Text → Text) → Text → List Text → ℕ → BoxClient → ℕ → ℕ → World
started sha256 owner templates max_boxes client width height =
    launched (new_model sha256 owner templates max_boxes client width height)

abbrev waiting : DialogState → ℕ
waiting deleting = 1
waiting _ = 0

-- A deletion is in flight, and then one alone, exactly while the dialog waits for it; and the flag
-- of a refresh is set only while one is in flight.
pub record IsCounted (w : World) : Type 0 where
  pub one_deletion : w.deletions ≡ waiting w.model.dialog
  pub true_flag : w.model.refreshing ≡ true → 0 < w.refreshes

-- What an input does to the counts.
abbrev Balanced : SettingsModel → Step → Type 0
Balanced m none = Unit
Balanced m (some (m', commands)) =
    (waiting m'.dialog ≡ waiting m.dialog + deletions_in commands)
    × (m'.refreshing ≡ true → (m.refreshing ≡ true) ⊎ (0 < refreshes_in commands))

ask_delete-Balanced : (m : SettingsModel) → m.dialog ≡ no_dialog → Balanced m (ask_delete m)
unfolding ask_delete
ask_delete-Balanced m d = ground arith

list_key-Balanced :
    (m : SettingsModel) (key : Text) → m.dialog ≡ no_dialog → Balanced m (list_key m key)
unfolding list_key
list_key-Balanced m key d = ground (arith, ask_delete-Balanced m d)

dialog_key-Balanced :
    (m : SettingsModel) (key : Text) → m.dialog ≡ confirm_delete → Balanced m (dialog_key m key)
unfolding dialog_key
dialog_key-Balanced m key d = ground arith

key_in-Balanced :
    (d : DialogState) (m : SettingsModel) (key : Text) → m.dialog ≡ d → Balanced m (key_in d m key)
unfolding key_in
key_in-Balanced no_dialog m key d = list_key-Balanced m key d
key_in-Balanced confirm_delete m key d = dialog_key-Balanced m key d
key_in-Balanced deleting m key d = ground arith

input-Balanced : (m : SettingsModel) (msg : Msg) → IsInput msg → Balanced m (update m msg)
unfolding update
input-Balanced m (window_size w h) i = ground arith
input-Balanced m ticked i = ground arith
input-Balanced m (refresh_done results) i = elim i [ ]
input-Balanced m (delete_done e) i = elim i [ ]
input-Balanced m (key_press key) i = key_in-Balanced m.dialog m key refl
input-Balanced m other_msg i = ground arith

pub refresh_done-counts :
    (m : SettingsModel) (results : List (Result ApiError PodInfo)) {m' : SettingsModel}
    {commands : List Command}
    → update m (refresh_done results) ≡ some (m', commands)
    → (m'.dialog ≡ m.dialog) × (m'.refreshing ≡ false) × (commands ≡ [])
unfolding update
refresh_done-counts m results e = ground arith

pub delete_done-counts :
    (m : SettingsModel) (e : Option ApiError) {m' : SettingsModel} {commands : List Command}
    → update m (delete_done e) ≡ some (m', commands)
    → (m'.dialog ≡ no_dialog)
      × (deletions_in commands ≡ 0)
      × (m'.refreshing ≡ true → (m.refreshing ≡ true) ⊎ (0 < refreshes_in commands))
unfolding update
delete_done-counts m e h = ground arith

pub WorldStep-IsCounted : {w u : World} → WorldStep w u → IsCounted w → IsCounted u
WorldStep-IsCounted {w} (input msg m commands i e) c =
    let b = rw e at (input-Balanced w.model msg i) in ground arith
WorldStep-IsCounted {w} (refreshed results m commands some_refresh e) c =
    let b = refresh_done-counts w.model results e in ground arith
WorldStep-IsCounted {w} (deletion_ended e m commands some_deletion h) c =
    let b = delete_done-counts w.model e h in ground arith

pub Reaches-IsCounted : {w u : World} → IsCounted w → Reaches w u → IsCounted u
Reaches-IsCounted c here = c
Reaches-IsCounted c (next r s) = WorldStep-IsCounted s (Reaches-IsCounted c r)

pub started-IsCounted :
    (sha256 : Text → Text) (owner : Text) (templates : List Text) (max_boxes : ℕ)
    (client : BoxClient) (width height : ℕ)
    → IsCounted (started sha256 owner templates max_boxes client width height)
unfolding new_model init
started-IsCounted sha256 owner templates max_boxes client width height = ground arith

-- However keys, ticks and the ends of commands interleave from the start on, a deletion is in
-- flight exactly while the dialog waits for it, then one alone, and a set refresh flag means a
-- refresh in flight.
pub started-Reaches :
    (sha256 : Text → Text) (owner : Text) (templates : List Text) (max_boxes : ℕ)
    (client : BoxClient) (width height : ℕ) {u : World}
    → Reaches (started sha256 owner templates max_boxes client width height) u
    → IsCounted u
started-Reaches sha256 owner templates max_boxes client width height r =
    Reaches-IsCounted (started-IsCounted sha256 owner templates max_boxes client width height) r
