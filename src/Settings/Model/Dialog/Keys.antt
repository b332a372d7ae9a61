-- ===== src/Settings/Model/Dialog/Keys.antt =====
-- The keys are steps of the dialog.
use dev_box.Common.{
  ℕ, zero, suc, ◌≡◌, refl, ap, subst, sym, ◌∙◌, true, List, [], ◌∷◌, length, get_elem?, none, some,
  Text, codes, text_eq, ◌⊎◌, ◌==◌, number_eq, contains, Bool-cases, Option-cases, inl, inr, arith,
}
use mathlib.Core.Option
use dev_box.Settings.Rows.{BoxRow, box_exists}
use dev_box.Settings.Model.{
  SettingsModel, DialogState, no_dialog, confirm_delete, deleting, live, delete, Step,
  ask_delete_row, names, is_live, confirm, ask_delete, list_key, dialog_key, key_in,
}
use dev_box.Settings.Model.Deletion.{deleted, is_live-live}
use dev_box.Settings.Model.Dialog.{
  Phase, idle, asked, removing, PhaseStep, rest, ask, cancel, go, Shows, shows_idle, shows_asked,
  shows_removing, IsBoxOf,
}

-- A step of the model is one of the dialog.
abbrev pub Refines : SettingsModel → Phase → Step → Type 0
Refines m p none = Unit
Refines m p (some (m', commands)) =
    (p' : Phase) × (Shows m' p' × PhaseStep (IsBoxOf m) (m.conn ≡ live) p (deleted commands) p')

-- The dialog stays closed, and nothing is deleted.
abbrev Idles : SettingsModel → Step → Type 0
Idles m none = Unit
Idles m (some (m', commands)) = (m'.dialog ≡ m.dialog) × (deleted commands ≡ [])

Idles-Refines :
    (m : SettingsModel) (step : Step) → m.dialog ≡ no_dialog → Idles m step → Refines m idle step
Idles-Refines m none d h = tt
Idles-Refines m (some (m', commands)) d (same, nothing) = (
  idle,
  (
    shows_idle (same ∙ d),
    subst (λ pods. PhaseStep (IsBoxOf m) (m.conn ≡ live) idle pods idle) (sym nothing) rest,
  ),
)

get_elem?-names :
    (rows : List BoxRow) (i : ℕ) (row : BoxRow)
    → get_elem? rows i ≡ some row
    → get_elem? (names rows) i ≡ some row.name
get_elem?-names [] i row found = ground arith
get_elem?-names (r ∷ rows) zero row found = ap (Option.map (λ r. r.name)) found
get_elem?-names (r ∷ rows) (suc i) row found = get_elem?-names rows i row found

module _ (m : SettingsModel) where
  ask_row-Refines :
      m.dialog ≡ no_dialog
      → is_live m.conn ≡ true
      → Refines m idle (ask_delete_row m (get_elem? m.rows m.selected))
  unfolding ask_delete
  ask_row-Refines d fresh = elim (Option-cases (get_elem? m.rows m.selected)) [
    | inl missing ↦ rw missing tt
    | inr (row, found) ↦ elim (Bool-cases (box_exists row)) [
      | inl there ↦ rw found (
          rw there (
            asked row.name,
            (
              shows_asked refl (get_elem?-names m.rows m.selected row found),
              ask (is_live-live m.conn fresh) (m.selected, (row, (found, (there, refl)))),
            ),
          ))
      | inr gone ↦ rw found (rw gone (idle, (shows_idle d, rest)))
    ]
  ]

  ask_delete-Refines : m.dialog ≡ no_dialog → Refines m idle (ask_delete m)
  unfolding ask_delete
  ask_delete-Refines d = elim (Bool-cases (length m.rows == 0)) [
    | inl empty ↦ rw empty (idle, (shows_idle d, rest))
    | inr filled ↦ elim (Bool-cases (is_live m.conn)) [
      | inl fresh ↦ rw filled (rw fresh (ask_row-Refines d fresh))
      | inr stale ↦ rw filled (rw stale (idle, (shows_idle d, rest)))
    ]
  ]

  list_key-Idles : (key : Text) → (list_key m key ≡ ask_delete m) ⊎ Idles m (list_key m key)
  unfolding list_key
  list_key-Idles key = ground arith

  list_key-Refines : (key : Text) → m.dialog ≡ no_dialog → Refines m idle (list_key m key)
  list_key-Refines key d = elim (list_key-Idles key) [
    | inl asks ↦ rw asks (ask_delete-Refines d)
    | inr idles ↦ Idles-Refines m (list_key m key) d idles
  ]

  module _ (pod : Text) (about : get_elem? (names m.rows) m.selected ≡ some pod) where
    confirmed :
        (row : BoxRow)
        → get_elem? m.rows m.selected ≡ some row
        → is_live m.conn ≡ true
        → Refines m (asked pod) (some (record m { dialog = deleting }, delete row.name ∷ []))
    confirmed row found fresh =
        let named = get_elem?-names m.rows m.selected row found in
        let same : pod ≡ row.name = cc in
        subst
          (λ name. Refines m (asked pod) (some (record m { dialog = deleting }, delete name ∷ [])))
          same (removing pod, (shows_removing refl about, go (is_live-live m.conn fresh)))

    confirm-Refines : Refines m (asked pod) (confirm m)
    unfolding confirm
    confirm-Refines = elim (Bool-cases (is_live m.conn)) [
      | inr stale ↦ rw stale (idle, (shows_idle refl, cancel))
      | inl fresh ↦ elim (Option-cases (get_elem? m.rows m.selected)) [
        | inl missing ↦ rw fresh (rw missing tt)
        | inr (row, found) ↦ rw fresh (rw found (confirmed row found fresh))
      ]
    ]

    dialog_key-Refines :
        (key : Text) → m.dialog ≡ confirm_delete → Refines m (asked pod) (dialog_key m key)
    unfolding dialog_key
    dialog_key-Refines key d = elim (Bool-cases (key == codes "y")) [
      | inl agreed ↦ rw agreed confirm-Refines
      | inr other ↦
          elim (Bool-cases
            (contains (codes "n" ∷ codes "esc" ∷ codes "q" ∷ codes "ctrl+c" ∷ []) key)) [
              | inl refused ↦ rw other (rw refused (idle, (shows_idle refl, cancel)))
              | inr ignored ↦ rw other (rw ignored (asked pod, (shows_asked d about, rest)))
            ]
    ]

pub key_in-Refines :
    (p : Phase) (m : SettingsModel) (key : Text) (d : DialogState)
    → m.dialog ≡ d
    → Shows m p
    → Refines m p (key_in d m key)
unfolding key_in
key_in-Refines p m key no_dialog e (shows_idle d) = list_key-Refines m key d
key_in-Refines p m key no_dialog e (shows_asked d about) = absurd (ground arith)
key_in-Refines p m key no_dialog e (shows_removing d about) = absurd (ground arith)
key_in-Refines p m key confirm_delete e (shows_idle d) = absurd (ground arith)
key_in-Refines p m key confirm_delete e (shows_asked {pod} d about) =
    dialog_key-Refines m pod about key d
key_in-Refines p m key confirm_delete e (shows_removing d about) = absurd (ground arith)
key_in-Refines p m key deleting e s = (p, (s, rest))
