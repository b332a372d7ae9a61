-- ===== src/Config/App.antt =====
-- ContainerSSH's `config.AppConfig`, as far as config-server reads or writes it. What a template
-- sets beyond that is `rest`.
use dev_box.Common.{ℕ, Bool, ◌&&◌, not, List, [], Option, Text, codes, ℤ, ◌==◌, text_eq}
use dev_box.Common.Table.{Table}

pub data ExecutionPolicy : Type 0 where
  unset enable disable : ExecutionPolicy

pub record Security : Type 0 where
  pub default_mode : ExecutionPolicy
  pub force_command : Text
  pub max_sessions : ℕ
  pub shell : ExecutionPolicy
  pub tty : ExecutionPolicy
  pub command : ExecutionPolicy
  pub subsystem : ExecutionPolicy
  pub env : ExecutionPolicy
  pub signal : ExecutionPolicy
  pub forwarding : ExecutionPolicy
  pub reverse_forwarding : ExecutionPolicy
  pub socket_forwarding : ExecutionPolicy
  pub socket_listen : ExecutionPolicy
  pub x11_forwarding : ExecutionPolicy

pub record Container : Type 0 where
  pub name : Text
  pub image : Text
  pub env : List (Text × Text)
  pub allow_privilege_escalation : Option Bool
  pub read_only_root : Option Bool
  pub dropped_capabilities : List Text
  pub requests : Table Text
  pub limits : Table Text

-- `claim` is the name of the persistent volume claim that the volume refers to, if it does.
pub record Volume : Type 0 where
  pub name : Text
  pub claim : Option Text

pub record PodSecurity : Type 0 where
  pub run_as_non_root : Option Bool
  pub run_as_user : Option ℕ
  pub run_as_group : Option ℕ
  pub seccomp : Text

pub record PodSpec : Type 0 where
  pub service_account_name : Text
  pub automount_token : Option Bool
  pub restart_policy : Text
  pub grace_seconds : Option ℕ
  pub security : Option PodSecurity
  pub containers : List Container
  pub volumes : List Volume

pub record PodConfig : Type 0 where
  pub mode : Text
  pub name : Text
  pub generate_name : Text
  pub labels : Table Text
  pub create_missing_pods : Bool
  pub shell_command : List Text
  pub agent_path : Text
  pub idle_command : List Text
  pub spec : PodSpec

pub record AppConfig : Type 0 where
  pub security : Security
  pub pod : PodConfig
  pub rest : Text

-- A persistent volume claim. `storage_request` is the sign of the requested storage, if there is a
-- request; `spec` is what else the specification says.
pub record Claim : Type 0 where
  pub name : Text
  pub namespace : Text
  pub labels : Table Text
  pub annotations : Table Text
  pub spec : Text
  pub storage_request : Option ℤ
  pub owner_references : List Text
  pub terminating : Bool

-- `config.Request`: the SSH username and the authenticated identity.
pub record Request : Type 0 where
  pub username : Text
  pub authenticated_username : Text

abbrev pub persistent_mode : Text
persistent_mode = codes "persistent"

-- config-server/persistent.go
unfoldable pub template_selects_non_persistent : AppConfig → Bool
template_selects_non_persistent cfg =
    not (cfg.pod.mode == []) && not (cfg.pod.mode == persistent_mode)
