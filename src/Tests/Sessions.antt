-- ===== src/Tests/Sessions.antt =====
-- A session of the settings application in the pod that config-server answers with.
use dev_box.Common.{
  ◌≡◌, refl, true, ◌⊎◌, contains, List, [], ◌∷◌, All, none, some, Text, codes, ok, err, pos, ◌>>=◌,
  text_eq, ℕ_discrete, bytes_dec, arith,
}
use dev_box.Common.Table.{lookup}
use dev_box.Strings.Trim.{trim_space}
use dev_box.Config.Persistent.{enabled}
use dev_box.Config.App.{AppConfig}
use dev_box.Config.Persistent.{inject}
use dev_box.Settings.Model.Deletion.{deleted}
use dev_box.Config.Templates.{persistent_templates, valid_template_name}
use dev_box.Config.Access.{owner_object_name, owner_rules, reconcile}
use dev_box.Config.SettingsApp.{settings_app}
use dev_box.Settings.Boxes.Parse.{Fits64, read_cap}
use dev_box.Settings.Kube.{Cluster, unavailable, other_error}
use dev_box.Settings.Model.{
  SettingsModel, Command, delete, init, update, new_model, key_press, live, deleting,
  confirm_delete, refresh_done, apply_refresh,
}
use dev_box.Settings.Model.World.{
  World, WorldStep, input, refreshed, Reaches, here, next, launch, launched,
}
use dev_box.Settings.Startup.{run, from_input, or_unavailable, new_box_client, measure}
use dev_box.Together.Environment.{pod_env, RunsIn}
use dev_box.Together.Permitted.{IsGranted}
use dev_box.Together.Isolation.{CollidesWith, deleted-IsOwn}
use dev_box.Together.Session.{update-IsGranted, run-settings_config}
use dev_box.Tests.Fixtures.{digest, app}
use dev_box.Tests.Serving.{store, warm, boxes, no_pods, req, go_served}
use dev_box.Tests.Starting.{host}
use dev_box.Tests.Boxes.{pod}
use dev_box.Tests.Answers.{retry, cluster, settings, settings_req, answered, nothing, owner_served}

-- The process sees just the environment of its container; no request is answered.
abbrev pod_cluster : Cluster
pod_cluster = record {
  lookup_env = λ key. lookup key (pod_env answered);
  read_file = λ path. err (codes "no such file");
  request_error = λ method url. none;
  send = λ req. err (codes "unreachable");
  decode_pod = λ body. none;
  decode_status = λ body. none;
}

sees_all : RunsIn answered pod_cluster
sees_all key value e = e

abbrev session_model : SettingsModel
session_model =
    new_model digest (codes "ann") (codes "go" ∷ []) 1
      (unavailable (
        other_error
          (codes "no in-cluster Kubernetes environment (KUBERNETES_SERVICE_HOST/PORT unset)")))
      80 24

session_started : run digest pod_cluster host ≡ ok session_model
unfolding codes run bytes_dec trim_space ℕ_discrete dev_box.Settings.Boxes.parse_templates
    dev_box.Strings.Split.split dev_box.Settings.Boxes.valid_template_name
    dev_box.Settings.Boxes.parse_max_boxes dev_box.Strings.Sort.sort new_box_client settings_app
    lookup dev_box.Strings.Split.join dev_box.Strings.Decimal.itoa dev_box.Strings.Decimal.atoi
session_started = refl

-- The box is there, and the owner asks to delete it.
abbrev there_model : SettingsModel
there_model = apply_refresh session_model (ok pod ∷ [])

abbrev asking_model : SettingsModel
asking_model = record there_model { message = []; dialog = confirm_delete }

abbrev there : World
there = launch (record (launched session_model) { refreshes = 0 }) there_model []

abbrev asking : World
asking = launch there asking_model []

found : WorldStep (launched session_model) there
unfolding update new_model init
found = refreshed (ok pod ∷ []) there_model [] (omega arith) refl

asked : WorldStep there asking
unfolding codes update new_model bytes_dec ℕ_discrete apply_refresh
    dev_box.Settings.Model.ask_delete dev_box.Settings.Rows.apply_results
    dev_box.Settings.Rows.count_answers dev_box.Settings.Rows.is_answer
    dev_box.Settings.Rows.state_exists dev_box.Settings.Rows.apply_result
asked = input (key_press (codes "d")) asking_model [] tt refl

asking_reached : Reaches (launched session_model) asking
asking_reached = next (next here found) asked

abbrev deleting_go : List Command
deleting_go = delete (codes "box-0601020304") ∷ []

confirmed :
    update asking.model (key_press (codes "y"))
    ≡ some (record asking_model { dialog = deleting }, deleting_go)
unfolding codes update new_model bytes_dec ℕ_discrete apply_refresh
    dev_box.Settings.Boxes.box_pod_name dev_box.Strings.Hex.encode
    dev_box.Settings.Rows.count_answers dev_box.Settings.Rows.is_answer
    dev_box.Settings.Rows.apply_results dev_box.Settings.Rows.apply_result
confirmed = refl

update-IsGranted_example :
    (templates : List Text) × (persistent_templates store (enabled boxes) (codes "t") []
      ≡ (ok templates, warm))
    × (reconcile retry cluster digest
          (codes "ns")
          (owner_object_name digest (codes "ann"))
          (owner_rules digest (codes "ann") templates)
          nothing
        ≡ (ok tt, none))
    × All (IsGranted (owner_rules digest (codes "ann") templates)) (init session_model)
    × All (IsGranted (owner_rules digest (codes "ann") templates)) deleting_go
update-IsGranted_example =
    update-IsGranted retry cluster digest store settings pod_cluster host settings_req [] nothing
      answered warm none owner_served sees_all session_model session_started asking asking_reached
      (key_press (codes "y")) (record asking_model { dialog = deleting }) deleting_go confirmed

small_cap : Fits64 settings.boxes.max_pods
small_cap = omega arith

size_known : measure host.first_size host.later_sizes ≡ some (80, 24)
unfolding measure
size_known = refl

run-settings_config_example :
    (templates : List Text) × (persistent_templates store (enabled boxes) (codes "t") []
      ≡ (ok templates, warm))
    × (run digest pod_cluster host ≡ (
        from_input (read_cap (pos 1)) >>= λ max_boxes. ok (
          new_model digest
            (trim_space (codes "ann"))
            templates
            max_boxes
            (or_unavailable (new_box_client digest pod_cluster host))
            80
            24)))
run-settings_config_example =
    run-settings_config retry cluster digest store settings pod_cluster host settings_req [] nothing
      answered warm none owner_served sees_all small_cap refl (80, 24) size_known refl

-- The box that is deleted is that of the owner's own login.
abbrev go_box : AppConfig
go_box = inject digest (trim_space (codes "ann")) (codes "go") app

go_is_valid : valid_template_name (codes "go") ≡ true
unfolding codes valid_template_name
go_is_valid = refl

go_deleted : contains (deleted deleting_go) go_box.pod.name ≡ true
unfolding codes bytes_dec ℕ_discrete inject trim_space dev_box.Config.Naming.box_pod_name
    dev_box.Strings.Hex.encode
go_deleted = refl

deleted-IsOwn_example :
    (templates : List Text) × (persistent_templates store (enabled boxes) (codes "t") []
      ≡ (ok templates, warm))
    × (((trim_space (codes "ann") ≡ trim_space (codes "ann"))
          × (contains templates (codes "go") ≡ true))
        ⊎ CollidesWith digest
            (trim_space (codes "ann"))
            (codes "go")
            (trim_space (codes "ann"))
            templates)
deleted-IsOwn_example =
    deleted-IsOwn retry cluster digest store settings pod_cluster host settings_req [] nothing
      answered warm none owner_served sees_all session_model session_started asking asking_reached
      (key_press (codes "y")) (record asking_model { dialog = deleting }) deleting_go confirmed
      boxes no_pods req app (codes "go") go_box go_is_valid go_served go_deleted
