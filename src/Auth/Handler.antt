-- ===== src/Auth/Handler.antt =====
-- auth-server/auth_handler.go: the decisions. Logging is left out.
pub mod Laws
use dev_box.Common.{
  ℕ, Bool, true, false, ◌&&◌, not, List, [], ◌∷◌, ◌++◌, Option, none, some, Text, codes, Result, ok,
  err, ◌==◌, contains, if◌then◌else◌, text_eq,
}
use dev_box.Auth.Authentik.{User, Backend, AuthentikConfig, LookupError, lookup_user, user_in_group}

-- ContainerSSH's connection metadata, before and after authentication.
pub record Metadata : Type 1 where
  pub Pending : Type 0
  pub Authenticated : Type 0
  -- `meta.Username` of each
  pub pending_username : Pending → Text
  pub username : Authenticated → Text
  pub authenticated_username : Authenticated → Text
  -- `meta.AuthFailed()` of each, `meta.Authenticated(owner)`, and Go's zero value
  pub auth_failed : Pending → Authenticated
  pub deauthenticated : Authenticated → Authenticated
  pub authenticated : Pending → Text → Authenticated
  pub zero_value : Authenticated

-- `AllowedTemplates` is nil where the gate is off.
pub record AuthConfig : Type 0 where
  pub require_group : Text
  pub allowed_templates : Option (List Text)

pub record Decision (A : Type 0) : Type 0 where
  pub success : Bool
  pub meta : A
  pub message : Text

abbrev pub allow : {A : Type 0} → A → Decision A
allow meta = record { success = true; meta = meta; message = [] }

abbrev pub deny : {A : Type 0} → A → Text → Decision A
deny meta message = record { success = false; meta = meta; message = message }

-- `fmt.Sprintf`, and a newline.
unfoldable pub user_denial : Text → Text
user_denial text = text ++ 10 ∷ []

-- Go's results, of which the decision is also read beside an error.
abbrev pub Outcome : Type 0 → Type 0
Outcome A = Decision A × Option LookupError

-- The first gate refuses a name: `AllowedTemplates != nil && !slices.Contains(…)`.
abbrev pub refuses : Option (List Text) → Text → Bool
refuses none name = false
refuses (some names) name = not (contains names name)

module _ (M : Metadata) (backend : Backend) (api : AuthentikConfig) (cfg : AuthConfig) where
  open M use {
    Pending, Authenticated, username, authenticated_username, auth_failed, deauthenticated,
    authenticated,
  }

  unfoldable pub on_password : Pending → Text → Outcome Authenticated
  on_password meta password = (
    deny (auth_failed meta) (
        user_denial
          (codes "password authentication is not supported; use public key authentication")),
    none,
  )

  judge_user : Pending → Option User → Decision Authenticated
  judge_user meta none =
      deny (auth_failed meta) (user_denial (codes "public key is not enrolled for any user"))
  judge_user meta (some user) =
      if user.is_active
      then allow (authenticated meta user.username)
      else deny (auth_failed meta) (user_denial (codes "the account owning this key is inactive"))

  unfoldable pub on_pub_key : Pending → Text → Outcome Authenticated
  unfolding judge_user
  on_pub_key meta public_key = elim (lookup_user backend api public_key) [
    | err e ↦ (deny (auth_failed meta) [], some e)
    | ok user ↦ (judge_user meta user, none)
  ]

  judge_member : Authenticated → Bool → Decision Authenticated
  judge_member meta member =
      if member
      then allow meta
      else deny meta (
          user_denial (
            codes "user '"
            ++ authenticated_username meta
            ++ codes "' is not a member of the required group '"
            ++ cfg.require_group
            ++ codes "'"))

  check_group : Authenticated → Outcome Authenticated
  unfolding judge_member
  check_group meta =
      elim (user_in_group backend api (authenticated_username meta) cfg.require_group) [
        | err e ↦ (deny (deauthenticated meta) [], some e)
        | ok member ↦ (judge_member meta member, none)
      ]

  unfoldable pub on_authorization : Authenticated → Outcome Authenticated
  unfolding check_group
  on_authorization meta =
      if refuses cfg.allowed_templates (username meta)
      then (
        deny meta (
            user_denial
              (codes "no pod template matches SSH username '" ++ username meta ++ codes "'")),
        none,
      )
      else if cfg.require_group == []
      then (allow meta, none)
      else check_group meta
