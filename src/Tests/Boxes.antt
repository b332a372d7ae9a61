-- ===== src/Tests/Boxes.antt =====
-- The settings application at concrete inputs.
use dev_box.Common.{
  ◌≡◌, refl, ◌⊎◌, true, List, [], ◌∷◌, none, some, Text, codes, ok, err, get_elem?, text_eq,
  ℕ_discrete, bytes_dec, arith, Result,
}
use dev_box.Strings.Split.{join}
use dev_box.Strings.Sort.{IsSorted}
use dev_box.Settings.Pod.{PodInfo}
use dev_box.Settings.Boxes.{
  parse_templates, parse_max_boxes, InputError, invalid_max_boxes, valid_template_name,
}
use dev_box.Strings.Decimal.{itoa}
use dev_box.Settings.Kube.{BoxClient, unavailable, other_error, ApiError, not_found}
use dev_box.Settings.Rows.{BoxRow}
use dev_box.Settings.Model.{
  SettingsModel, Command, key_press, ticked, new_model, names, update, deleting, live,
  confirm_delete, delete, refresh, tick, init, apply_refresh,
}
use dev_box.Settings.Model.Invariant.{IsValid, update-IsValid}
use dev_box.Settings.Model.Deletion.{deleted, update-deleted}
use dev_box.Settings.Model.World.{
  World, Reaches, here, next, input, IsCounted, started, started-Reaches,
}
use dev_box.Tests.Fixtures.{digest}

abbrev pub client : BoxClient
client = unavailable (other_error (codes "no cluster"))

abbrev pub two_templates : List Text
two_templates = codes "go" ∷ codes "rust" ∷ []

-- Duplicates and blanks are dropped, and the names are sorted.
parsed : parse_templates (codes "rust, go,,go") ≡ ok two_templates
unfolding codes parse_templates dev_box.Strings.Split.split ℕ_discrete bytes_dec
    dev_box.Strings.Trim.trim_space valid_template_name dev_box.Strings.Sort.sort
parsed = refl

abbrev pub fresh_model : SettingsModel
fresh_model = new_model digest (codes "ann") two_templates 2 client 80 24

abbrev pub pod : PodInfo
pod = record {
  name = codes "box-0601020304";
  deletion_timestamp = none;
  runtime_class_name = none;
  containers = [];
  phase = codes "Running";
  start_time = some 1;
  restart_counts = [];
}

-- The model after a refresh that finds both pods, and after `d` on the first.
abbrev pub asked_model : SettingsModel
asked_model = record fresh_model { conn = live; dialog = confirm_delete }

abbrev deleting_model : SettingsModel
deleting_model = record asked_model { dialog = deleting }

pub asked_model-IsValid : IsValid asked_model
unfolding new_model
asked_model-IsValid = record { in_range = omega arith; about_row = λ h. omega arith }

confirmed :
    update asked_model (key_press (codes "y"))
    ≡ some (deleting_model, delete (codes "box-0601020304") ∷ [])
unfolding codes update new_model bytes_dec ℕ_discrete dev_box.Settings.Boxes.box_pod_name
    dev_box.Strings.Hex.encode
confirmed = refl

-- A cap of -1 is no cap to the server, and an error to the application.
no_cap_refused : parse_max_boxes (codes "-1") ≡ err (invalid_max_boxes (codes "-1"))
unfolding codes parse_max_boxes bytes_dec dev_box.Strings.Trim.trim_space ℕ_discrete
    dev_box.Strings.Decimal.atoi
no_cap_refused = refl

update-IsValid_example :
    (m' : SettingsModel) × (commands : List Command) × (update asked_model (key_press (codes "y"))
      ≡ some (m', commands))
    × IsValid m'
    × (names m'.rows ≡ names asked_model.rows)
update-IsValid_example = update-IsValid asked_model (key_press (codes "y")) asked_model-IsValid

update-deleted_example :
    (deleted (delete (codes "box-0601020304") ∷ []) ≡ [])
    ⊎ ((key_press (codes "y") ≡ key_press (codes "y"))
        × (asked_model.dialog ≡ confirm_delete)
        × (asked_model.conn ≡ live)
        × (row : BoxRow) × (get_elem? asked_model.rows asked_model.selected ≡ some row)
        × (deleted (delete (codes "box-0601020304") ∷ []) ≡ row.name ∷ [])
        × (deleting_model.dialog ≡ deleting))
update-deleted_example =
    update-deleted asked_model (key_press (codes "y")) deleting_model
      (delete (codes "box-0601020304") ∷ []) confirmed

-- The first pod is there, the second is not.
abbrev pub results : List (Result ApiError PodInfo)
results = ok pod ∷ err (not_found []) ∷ []

abbrev no_commands : List Command
no_commands = []

abbrev refreshed_model : SettingsModel
refreshed_model = apply_refresh fresh_model results

abbrev first_world : World
first_world = started digest (codes "ann") two_templates 2 client 80 24

-- A tick starts a second refresh.
abbrev pub ticked_world : World
ticked_world = record first_world {
  model = record fresh_model { refreshing = true };
  refreshes = 2;
}

after_tick :
    update fresh_model ticked
    ≡ some (record fresh_model { refreshing = true }, tick ∷ refresh (names fresh_model.rows) ∷ [])
unfolding update new_model ℕ_discrete
after_tick = refl

pub ticked_world-Reaches : Reaches first_world ticked_world
unfolding init new_model
ticked_world-Reaches = next here (input ticked _ _ tt after_tick)

started-Reaches_example : IsCounted ticked_world
started-Reaches_example =
    started-Reaches digest (codes "ann") two_templates 2 client 80 24 ticked_world-Reaches
