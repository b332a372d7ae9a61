-- ===== src/Auth/Startup.antt =====
-- auth-server/main.go: the configuration that the server starts with. The messages of the log, the
-- listener and the lifecycle are left out.
pub mod Laws
use dev_box.Common.{
  ℕ, ℤ, pos, not, Bool, true, false, ◌||◌, List, [], ◌∷◌, ◌++◌, Option, none, some, Text, codes,
  Result, ok, err, ◌>>=◌, ◌==◌, contains, if◌then◌else◌, text_eq,
}
use dev_box.Strings.Trim.{trim_space, trim_right_byte}
use dev_box.Auth.Authentik.{AuthentikConfig, default_key_attribute}
use dev_box.Auth.Handler.{AuthConfig}

pub data StartError : Type 0 where
  logger_failed : StartError
  url_missing token_missing : StartError
  file_unreadable : Text → StartError
  templates_not_json templates_null template_name_empty : StartError

-- `os.LookupEnv`, `os.ReadFile`, `fmt.Sscanf` with "%d", whether `log.NewLogger` takes a level, and
-- JSON's reading of an array of strings, `some none` for null.
pub record System : Type 0 where
  pub lookup_env : Text → Option Text
  pub read_file : Text → Option Text
  pub scan_int : Text → Option ℤ
  pub takes_level : ℤ → Bool
  pub unmarshal_names : Text → Option (Option (List Text))

-- The client of authentik: its timeout in seconds, and whether it takes any certificate.
pub record HttpClient : Type 0 where
  pub timeout : ℕ
  pub insecure_skip_verify : Bool

pub record Startup : Type 0 where
  pub listen : Text
  pub api : AuthentikConfig
  pub client : HttpClient
  pub policy : AuthConfig

-- `strconv.ParseBool`; `none` is its error.
unfoldable pub parse_bool : Text → Option Bool
parse_bool v =
    if contains
      (codes "1" ∷ codes "t" ∷ codes "T" ∷ codes "TRUE" ∷ codes "true" ∷ codes "True" ∷ []) v
    then some true
    else if contains
        (codes "0" ∷ codes "f" ∷ codes "F" ∷ codes "FALSE" ∷ codes "false" ∷ codes "False" ∷ []) v
    then some false
    else none

abbrev pub new_http_client : Bool → HttpClient
new_http_client insecure = record { timeout = 10; insecure_skip_verify = insecure }

-- The loop over the names.
unfoldable pub check_names : List Text → Result StartError (Unit {0})
check_names [] = ok tt
check_names (name ∷ names) = if name == [] then err template_name_empty else check_names names

module _ (system : System) where
  open system use {lookup_env, read_file, scan_int, takes_level, unmarshal_names}

  unfoldable pub env : Text → Text → Text
  env key fallback = elim (lookup_env key) [ none ↦ fallback | some v ↦ v ]

  unfoldable pub env_bool_default : Text → Bool → Bool
  unfolding env parse_bool
  env_bool_default key def =
      let v = env key [] in if v == [] then def else elim (parse_bool v) [ none ↦ def | some b ↦ b ]

  -- Text that holds no number gives the level of information.
  unfoldable pub parse_int : Text → ℤ
  parse_int s = elim (scan_int s) [ none ↦ pos 6 | some n ↦ n ]

  check_templates : Option (List Text) → Result StartError (Option (List Text))
  unfolding check_names
  check_templates none = err templates_null
  check_templates (some names) = check_names names >>= λ _. ok (some names)

  unfoldable pub allowed_templates_from_env : Result StartError (Option (List Text))
  unfolding check_templates
  allowed_templates_from_env = elim (lookup_env (codes "AUTH_SERVER_ALLOWED_TEMPLATES")) [
    | none ↦ ok none
    | some raw ↦ elim (unmarshal_names raw) [
      | none ↦ err templates_not_json
      | some names ↦ check_templates names
    ]
  ]

  unfoldable pub secret_from_env : Text → Text → Result StartError Text
  unfolding env
  secret_from_env file direct =
      let v = env file [] in
      if v == []
      then ok (env direct [])
      else elim (read_file v) [ none ↦ err (file_unreadable v) | some text ↦ ok (trim_space text) ]

  unfoldable pub token_from_env : Result StartError Text
  token_from_env = do
    token ← secret_from_env (codes "AUTHENTIK_TOKEN_FILE") (codes "AUTHENTIK_TOKEN")
    if token == [] then err token_missing else ok token

  -- `main`, down to the handler.
  unfoldable pub configure : Result StartError Startup
  configure =
      let url = trim_right_byte b'/' (env (codes "AUTHENTIK_URL") []) in
      if not (takes_level (parse_int (env (codes "CONTAINERSSH_LOG_LEVEL") (codes "6"))))
      then err logger_failed
      else if url == []
      then err url_missing
      else do
        token ← token_from_env
        templates ← allowed_templates_from_env
        ok (record {
          listen = env (codes "CONTAINERSSH_LISTEN") (codes "0.0.0.0:8080");
          api = record {
            base_url = url;
            key_attribute = env (codes "AUTH_SERVER_KEY_ATTRIBUTE") default_key_attribute;
            read_token = token;
          };
          client =
              new_http_client (env_bool_default (codes "AUTHENTIK_INSECURE_SKIP_VERIFY") false);
          policy = record {
            require_group = env (codes "AUTH_SERVER_REQUIRE_GROUP") [];
            allowed_templates = templates;
          };
        })
