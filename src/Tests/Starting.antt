-- ===== src/Tests/Starting.antt =====
-- A start of the settings application at concrete inputs, without a cluster.
use dev_box.Common.{
  ◌≡◌, refl, ◌↔◌, true, false, List, [], ◌∷◌, Option, none, some, Text, codes, Result, ok, err,
  ◌==◌, if◌then◌else◌, text_eq, ◌||◌, pos, ◌≢◌, ◌&&◌, leb_ℤ,
}
use dev_box.Settings.Kube.{Cluster, unavailable, other_error}
use dev_box.Settings.Model.{SettingsModel, new_model}
use dev_box.Settings.Startup.{Host, run}
use dev_box.Settings.Startup.Laws.{MayStart, run-ok_iff}
use dev_box.Strings.Decimal.{atoi}
use dev_box.Config.Persistent.{enabled}
use dev_box.Config.Startup.{System, Startup, env, configure}
use dev_box.Config.Startup.Laws.{CapFits, IsSecure, configure-safe}
use dev_box.Tests.Fixtures.{digest}

abbrev pub cluster : Cluster
cluster = record {
  lookup_env = λ key.
      if key == codes "DEV_BOX_AUTHENTICATED_OWNER"
      then some (codes " ann")
      else if key == codes "DEV_BOX_BOX_TEMPLATES"
      then some (codes "rust,go")
      else none;
  read_file = λ path. err (codes "no such file");
  request_error = λ method url. none;
  send = λ req. err (codes "unreachable");
  decode_pod = λ body. none;
  decode_status = λ body. none;
}

-- The size is known at the second time.
abbrev pub host : Host
host = record {
  is_terminal = true;
  first_size = some (0, 0);
  later_sizes = some (80, 24) ∷ [];
  join_host_port = λ address port. address;
  is_pem = λ text. false;
}

abbrev pub model : SettingsModel
model =
    new_model digest (codes "ann") (codes "go" ∷ codes "rust" ∷ []) 0
      (unavailable (
        other_error
          (codes "no in-cluster Kubernetes environment (KUBERNETES_SERVICE_HOST/PORT unset)")))
      80 24

pub starts : run digest cluster host ≡ ok model
unfolding codes run dev_box.Common.bytes_dec dev_box.Strings.Trim.trim_space
    dev_box.Common.ℕ_discrete dev_box.Settings.Boxes.parse_templates dev_box.Strings.Split.split
    dev_box.Settings.Boxes.valid_template_name dev_box.Settings.Boxes.parse_max_boxes
    dev_box.Strings.Sort.sort dev_box.Settings.Startup.new_box_client
starts = refl

run-ok_iff_example : (run digest cluster host ≡ ok model) ↔ MayStart digest cluster host model
run-ok_iff_example = run-ok_iff digest cluster host model

-- A configuration server in persistent mode, with TLS and a cap that is no number.
abbrev pub config_system : System
config_system = record {
  lookup_env = λ key.
      if key == codes "CONTAINERSSH_OPERATING_MODE"
      then some (codes "persistent")
      else if key == codes "CONTAINERSSH_SETTINGS_IMAGE"
      then some (codes "settings:1")
      else if key == codes "CONTAINERSSH_MAX_PODS_PER_USER"
      then some (codes "3x")
      else if key == codes "CONTAINERSSH_TLS_CERT"
      then some (codes "/tls.crt")
      else if key == codes "CONTAINERSSH_TLS_KEY"
      then some (codes "/tls.key")
      else none;
  takes_level = λ level. true;
  is_mode = λ mode. mode == codes "persistent" || mode == codes "connection";
  client_error = none;
}

abbrev config_startup : Startup
config_startup = record {
  handler = record {
    dir = codes "/config";
    boxes = record {
      operating_mode = codes "persistent";
      namespace = codes "containerssh-sessions";
      max_pods = pos 3;
    };
    settings_image = codes "settings:1";
    has_client = true;
  };
  has_lister = true;
  warns = false;
  http = record {
    listen = codes "0.0.0.0:8080";
    cert = codes "/tls.crt";
    key = codes "/tls.key";
    client_ca = [];
  };
}

configured : configure config_system ≡ ok config_startup
unfolding codes configure dev_box.Common.bytes_dec dev_box.Common.ℕ_discrete atoi env
configured = refl

configure-safe_example :
    (config_system.is_mode (codes "persistent") ≡ true)
    × (codes "settings:1" ≢ [])
    × (true ≡ true)
    × (config_system.client_error ≡ none)
    × CapFits (config_system.lookup_env (codes "CONTAINERSSH_MAX_PODS_PER_USER")) (pos 3)
    × (true ≡ enabled config_startup.handler.boxes)
    × (false ≡ (enabled config_startup.handler.boxes && leb_ℤ (pos 3) (pos 0)))
    × IsSecure config_startup.http
configure-safe_example = configure-safe config_system config_startup configured
