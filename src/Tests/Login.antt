-- ===== src/Tests/Login.antt =====
-- The authentication server at concrete inputs: one user, Ann, whose key is `key`.
use dev_box.Common.{
  ◌≡◌, ◌≢◌, refl, ◌↔◌, ◌⊎◌, true, false, [], ◌∷◌, none, some, Text, codes, ok, pos, ◌==◌, ==_refl,
  ◌||◌, if◌then◌else◌, ℕ_discrete, bytes_dec, text_eq,
}
use dev_box.Auth.Authentik.{
  User, Page, Query, Url, Backend, AuthentikConfig, list_users, lookup_user, user_in_group,
  key_attribute,
}
use dev_box.Auth.Authentik.Laws.{IsOnlyMatch, IsMember}
use dev_box.Auth.Handler.{Metadata, AuthConfig, on_pub_key, on_authorization}
use dev_box.Auth.Handler.Laws.{
  IsOpenTo, FailsClosed, IsQuiet, decisions-FailsClosed, decisions-success_iff,
}
use dev_box.Auth.Webhook.{Reply, Codec, write_response, endpoint, serve_pub_key, serve_http}
use dev_box.Auth.Webhook.Laws.{
  MeetsContract, Grants, GrantsKey, GrantsAuthorization, serve_http-MeetsContract,
  serve_http-Grants,
}
use dev_box.Auth.Startup.{System, Startup, configure}
use dev_box.Auth.Startup.Laws.{GateFits, ClientFits, configure-policy}

abbrev ann : User
ann = record { username = codes "ann"; is_active = true; groups = [] }

abbrev first_value : Query → Text
first_value [] = []
first_value ((k, v) ∷ query) = v

abbrev backend : Backend
backend = record {
  marshal_filter = λ attribute key. some key;
  parse_url = λ url. none;
  print_url = λ url. url.raw_query;
  encode_query = first_value;
  is_url = λ url. true;
  send = λ req. ok (record { status_code = 200; status = codes "200 OK"; body = req.url });
  decode_page = λ body.
      if body == codes "key" || body == codes "ann"
      then some (record { count = pos 1; results = some (ann ∷ []) })
      else some (record { count = pos 0; results = none });
}

abbrev api : AuthentikConfig
api = record { base_url = codes "https://id"; key_attribute = []; read_token = codes "t" }

abbrev cfg : AuthConfig
cfg = record { require_group = codes "dev"; allowed_templates = some (codes "go" ∷ []) }

-- Before the login the SSH username; after it also the owner.
abbrev metadata : Metadata
metadata = record {
  Pending = Text;
  Authenticated = Text × Text;
  pending_username = λ m. m;
  username = λ m. m.0;
  authenticated_username = λ m. m.1;
  auth_failed = λ m. (m, []);
  deauthenticated = λ m. (m.0, []);
  authenticated = λ m owner. (m, owner);
  zero_value = ([], []);
}

abbrev codec : Codec metadata
codec = record {
  password_request = λ body. some (codes "go", body);
  public_key_request = λ body. some (codes "go", body);
  authorization_request = λ body. some (codes "go", body);
  base64 = λ text. some text;
}

abbrev system : System
system = record {
  lookup_env = λ key.
      if key == codes "AUTHENTIK_URL"
      then some (codes "https://id/")
      else if key == codes "AUTHENTIK_TOKEN"
      then some (codes "t")
      else none;
  read_file = λ path. none;
  scan_int = λ text. none;
  takes_level = λ level. true;
  unmarshal_names = λ text. none;
}

abbrev started : Startup
started = record {
  listen = codes "0.0.0.0:8080";
  api = record {
    base_url = codes "https://id";
    key_attribute = codes "sshPublicKey";
    read_token = codes "t";
  };
  client = record { timeout = 10; insecure_skip_verify = false };
  policy = record { require_group = []; allowed_templates = none };
}

at_pubkey : endpoint (codes "/pubkey") ≡ codes "pubkey"
unfolding codes endpoint dev_box.Strings.Split.split ℕ_discrete
at_pubkey = refl

no_password : (codes "pubkey" == codes "password") ≡ false
unfolding codes bytes_dec ℕ_discrete
no_password = refl

key_accepted :
    serve_pub_key metadata codec backend api cfg (codes "key")
    ≡ write_response 200 (record { success = true; meta = (codes "go", codes "ann"); message = [] })
unfolding codes serve_pub_key dev_box.Auth.Webhook.write_decision on_pub_key lookup_user list_users
    bytes_dec ℕ_discrete
key_accepted = refl

key_granted : Grants (serve_http metadata codec backend api cfg (codes "/pubkey") (codes "key"))
unfolding serve_http
key_granted =
    rw (at_pubkey, serve_http)
      (rw no_password (rw (==_refl (codes "pubkey")) (rw key_accepted refl)))

-- Another key is not enrolled.
other_key_refused :
    (on_pub_key metadata backend api cfg (codes "go") (codes "other")).0.success ≡ false
unfolding codes on_pub_key lookup_user list_users bytes_dec ℕ_discrete
other_key_refused = refl

system_starts : configure system ≡ ok started
unfolding codes configure bytes_dec dev_box.Strings.Trim.trim_right_byte dev_box.Auth.Startup.env
    ℕ_discrete dev_box.Auth.Startup.token_from_env dev_box.Auth.Startup.secret_from_env
    dev_box.Auth.Startup.allowed_templates_from_env dev_box.Auth.Authentik.default_key_attribute
    dev_box.Auth.Startup.env_bool_default
system_starts = refl

serve_http-Grants_example :
    ((endpoint (codes "/pubkey") ≡ codes "pubkey")
      × GrantsKey metadata codec backend api cfg (codes "key"))
    ⊎ ((endpoint (codes "/pubkey") ≡ codes "authz")
        × GrantsAuthorization metadata codec backend api cfg (codes "key"))
serve_http-Grants_example =
    serve_http-Grants metadata codec backend api cfg (codes "/pubkey") (codes "key") key_granted

serve_http-MeetsContract_example :
    MeetsContract (serve_http metadata codec backend api cfg (codes "/authz") (codes "ann"))
serve_http-MeetsContract_example =
    serve_http-MeetsContract metadata codec backend api cfg (codes "/authz") (codes "ann")

decisions-success_iff_example :
    (((on_pub_key metadata backend api cfg (codes "go") (codes "key")).0.success ≡ true) ↔ (
      (user : User) × IsOnlyMatch backend api (codes "key") user
      × (user.is_active ≡ true)
      × ((on_pub_key metadata backend api cfg (codes "go") (codes "key")).0.meta
          ≡ (codes "go", user.username))))
    × (((on_authorization metadata backend api cfg (codes "go", codes "ann")).0.success ≡ true) ↔ (
        IsOpenTo cfg.allowed_templates (codes "go")
        × ((cfg.require_group ≡ []) ⊎ IsMember backend api (codes "ann") cfg.require_group)))
decisions-success_iff_example =
    decisions-success_iff metadata backend api cfg (codes "go") (codes "key")
      (codes "go", codes "ann")

decisions-FailsClosed_example :
    FailsClosed (on_pub_key metadata backend api cfg (codes "go") (codes "key"))
    × IsQuiet (on_pub_key metadata backend api cfg (codes "go") (codes "key"))
    × FailsClosed (on_authorization metadata backend api cfg (codes "go", codes "ann"))
    × IsQuiet (on_authorization metadata backend api cfg (codes "go", codes "ann"))
decisions-FailsClosed_example =
    decisions-FailsClosed metadata backend api cfg (codes "go") (codes "key")
      (codes "go", codes "ann")

configure-policy_example :
    (started.api.read_token ≢ [])
    × (started.api.base_url ≢ [])
    × GateFits system
        (system.lookup_env (codes "AUTH_SERVER_ALLOWED_TEMPLATES"))
        started.policy.allowed_templates
    × ClientFits (system.lookup_env (codes "AUTHENTIK_INSECURE_SKIP_VERIFY")) false
configure-policy_example = configure-policy system started system_starts
