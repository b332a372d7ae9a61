-- ===== src/Config/SettingsApp.antt =====
-- config-server/settings.go: the code-owned settings application.
pub mod Answered
use dev_box.Common.{
  Bool, true, false, List, [], ◌∷◌, some, Text, codes, ℤ, Result, ok, err, ◌==◌, if◌then◌else◌,
  text_eq,
}
use dev_box.Strings.Trim.{trim_space}
use dev_box.Strings.Split.{join}
use dev_box.Strings.Decimal.{itoa}
use dev_box.Config.App.{AppConfig, disable, enable, Request}
use dev_box.Config.Persistent.{BoxPolicy, enabled}
use dev_box.Config.Templates.{
  ConfigError, no_authenticated_identity, settings_image_missing, Store, Cache,
  persistent_templates,
}
use dev_box.Config.Access.{Retry, Kube, ensure_owner_access}

abbrev pub settings_executable : Text
settings_executable = codes "/usr/local/bin/dev-box-settings"

abbrev pub agent_path : Text
agent_path = codes "/usr/bin/containerssh-agent"

abbrev pub owner_env : Text
owner_env = codes "DEV_BOX_AUTHENTICATED_OWNER"

abbrev pub templates_env : Text
templates_env = codes "DEV_BOX_BOX_TEMPLATES"

abbrev pub max_boxes_env : Text
max_boxes_env = codes "DEV_BOX_MAX_BOXES"

-- The response, all of which the server decides.
unfoldable pub settings_app : Text → Text → Text → List Text → ℤ → AppConfig
settings_app image account owner templates max_pods = record {
  security = record {
    default_mode = disable;
    force_command = settings_executable;
    max_sessions = 1;
    shell = enable;
    tty = enable;
    command = disable;
    subsystem = disable;
    env = disable;
    signal = disable;
    forwarding = disable;
    reverse_forwarding = disable;
    socket_forwarding = disable;
    socket_listen = disable;
    x11_forwarding = disable;
  };
  pod = record {
    mode = codes "connection";
    name = [];
    generate_name = codes "settings-";
    labels = (codes "dev.box/application", codes "settings") ∷ [];
    create_missing_pods = false;
    shell_command = settings_executable ∷ [];
    agent_path = agent_path;
    idle_command =
        agent_path
        ∷ codes "wait-signal"
        ∷ codes "--signal"
        ∷ codes "INT"
        ∷ codes "--signal"
        ∷ codes "TERM"
        ∷ [];
    spec = record {
      service_account_name = account;
      automount_token = some true;
      restart_policy = codes "Never";
      grace_seconds = some 5;
      security = some (record {
        run_as_non_root = some true;
        run_as_user = some 1000;
        run_as_group = some 1000;
        seccomp = codes "RuntimeDefault";
      });
      containers =
          (record {
            name = codes "settings";
            image = image;
            env =
                (owner_env, owner)
                ∷ (templates_env, join b',' templates)
                ∷ (max_boxes_env, itoa max_pods)
                ∷ [];
            allow_privilege_escalation = some false;
            read_only_root = some true;
            dropped_capabilities = codes "ALL" ∷ [];
            requests = (codes "cpu", codes "50m") ∷ (codes "memory", codes "16Mi") ∷ [];
            limits = (codes "cpu", codes "500m") ∷ (codes "memory", codes "128Mi") ∷ [];
          })
          ∷ [];
      volumes = [];
    };
  };
  rest = [];
}

-- The parts of the handler that do not change: its directory's store, its policy, and the image
-- and the directory's name.
pub record Settings : Type 0 where
  pub dir : Text
  pub boxes : BoxPolicy
  pub settings_image : Text
  pub has_client : Bool

module _ {S : Type 0} (retry : Retry S) (kube : Kube S) (sha256 : Text → Text) (store : Store)
    (h : Settings) where
  abbrev Served : Type 0
  Served = Result ConfigError AppConfig × Cache × S

  answer : Text → List Text → Cache → Result ConfigError Text × S → Served
  answer owner templates cache (err e, s) = (err e, cache, s)
  answer owner templates cache (ok account, s) =
      (ok (settings_app h.settings_image account owner templates h.boxes.max_pods), cache, s)

  grant : Text → Result ConfigError (List Text) × Cache → S → Served
  unfolding answer
  grant owner (err e, cache) s = (err e, cache, s)
  grant owner (ok templates, cache) s =
      answer owner templates cache
        (ensure_owner_access retry kube sha256 h.boxes.namespace h.has_client owner templates s)

  -- The owner is passed on untrimmed.
  unfoldable pub settings_config : Request → Cache → S → Served
  unfolding grant
  settings_config req cache s =
      let owner = req.authenticated_username in
      if trim_space owner == []
      then (err no_authenticated_identity, cache, s)
      else if h.settings_image == []
      then (err settings_image_missing, cache, s)
      else grant owner (persistent_templates store (enabled h.boxes) h.dir cache) s
