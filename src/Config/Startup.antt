-- ===== src/Config/Startup.antt =====
-- config-server/main.go: the configuration that the server starts with. The listener, the signals,
-- the lifecycle, the messages of the log and the server that `webhook.NewServer` makes are left out.
pub mod Laws
use dev_box.Common.{
  ℕ, Bool, true, false, ◌&&◌, not, List, [], ◌∷◌, Option, none, some, Text, codes, ℤ, pos, negsuc,
  leb_ℤ, Result, ok, err, ◌>>=◌, ◌==◌, if◌then◌else◌, text_eq,
}
use dev_box.Strings.Decimal.{atoi}
use dev_box.Config.Persistent.{BoxPolicy, enabled}
use dev_box.Config.SettingsApp.{Settings}

pub data StartError : Type 0 where
  logger_failed settings_image_missing : StartError
  invalid_operating_mode : Text → StartError
  no_kube_client : Text → StartError

-- `os.LookupEnv`; whether `log.NewLogger` takes a level and `Validate` an operating mode; and the
-- error of `rest.InClusterConfig` or `kubernetes.NewForConfig`, if there is one.
pub record System : Type 0 where
  pub lookup_env : Text → Option Text
  pub takes_level : ℤ → Bool
  pub is_mode : Text → Bool
  pub client_error : Option Text

-- The fields of `config.HTTPServerConfiguration`.
pub record HttpConfig : Type 0 where
  pub listen : Text
  pub cert : Text
  pub key : Text
  pub client_ca : Text

-- The handler, whether it is given the lister of pods, whether the log warns that there is no cap,
-- and the server.
pub record Startup : Type 0 where
  pub handler : Settings
  pub has_lister : Bool
  pub warns : Bool
  pub http : HttpConfig

number_of : ℤ → Option ℤ → ℤ
number_of fallback none = fallback
number_of fallback (some n) = n

unfoldable pub int_of : ℤ → Option Text → ℤ
unfolding number_of
int_of fallback none = fallback
int_of fallback (some v) = number_of fallback (atoi v)

module _ (system : System) where
  open system use {lookup_env, takes_level, is_mode, client_error}

  unfoldable pub env : Text → Text → Text
  env key fallback = elim (lookup_env key) [ none ↦ fallback | some v ↦ v ]

  unfoldable pub env_int : Text → ℤ → ℤ
  unfolding int_of
  env_int key fallback = int_of fallback (lookup_env key)

  unfoldable pub new_kube_client : Result StartError (Unit {0})
  new_kube_client = elim client_error [ none ↦ ok tt | some e ↦ err (no_kube_client e) ]

  -- TLS needs a certificate and a key.
  unfoldable pub http_config : HttpConfig
  unfolding env
  http_config =
      let listen = env (codes "CONTAINERSSH_LISTEN") (codes "0.0.0.0:8080") in
      let cert = env (codes "CONTAINERSSH_TLS_CERT") [] in
      let key = env (codes "CONTAINERSSH_TLS_KEY") [] in
      if not (cert == []) && not (key == [])
      then record {
        listen = listen;
        cert = cert;
        key = key;
        client_ca = env (codes "CONTAINERSSH_TLS_CLIENTCA") [];
      }
      else record { listen = listen; cert = []; key = []; client_ca = [] }

  unfoldable pub box_policy : Text → BoxPolicy
  unfolding env env_int
  box_policy mode = record {
    operating_mode = mode;
    namespace = env (codes "CONTAINERSSH_SESSION_NAMESPACE") (codes "containerssh-sessions");
    max_pods = env_int (codes "CONTAINERSSH_MAX_PODS_PER_USER") (pos 3);
  }

  with_handler : Text → Text → Unit {0} → Startup
  unfolding box_policy
  with_handler mode image client =
      let boxes = box_policy mode in
      record {
        handler = record {
          dir = env (codes "CONTAINERSSH_CONFIG_DIR") (codes "/config");
          boxes = boxes;
          settings_image = image;
          has_client = true;
        };
        has_lister = enabled boxes;
        warns = enabled boxes && leb_ℤ boxes.max_pods (pos 0);
        http = http_config;
      }

  -- `main`, down to the server.
  unfoldable pub configure : Result StartError Startup
  unfolding with_handler new_kube_client http_config
  configure =
      let mode = env (codes "CONTAINERSSH_OPERATING_MODE") (codes "connection") in
      let image = env (codes "CONTAINERSSH_SETTINGS_IMAGE") [] in
      if not (takes_level (env_int (codes "CONTAINERSSH_LOG_LEVEL") (pos 6)))
      then err logger_failed
      else if not (is_mode mode)
      then err (invalid_operating_mode mode)
      else if image == []
      then err settings_image_missing
      else do client ← new_kube_client; ok (with_handler mode image client)
