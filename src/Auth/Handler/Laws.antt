-- ===== src/Auth/Handler/Laws.antt =====
-- Which decisions are successes, and what an error leaves.
use dev_box.Common.{
  ◌≡◌, refl, ◌↔◌, ◌⊎◌, inl, inr, true, false, List, [], contains, Option, none, some, Text, text_eq,
  Result-cases, Option-cases, arith,
}
use dev_box.Auth.Authentik.{User, Backend, AuthentikConfig, lookup_user}
use dev_box.Auth.Authentik.Laws.{
  IsOnlyMatch, IsMember, lookup_user-IsOnlyMatch, IsOnlyMatch-lookup_user, user_in_group-IsMember,
}
use dev_box.Auth.Handler.{Metadata, AuthConfig, Outcome, refuses, on_pub_key, on_authorization}

-- A decision beside an error is a refusal without a message.
abbrev pub FailsClosed : {A : Type 0} → Outcome A → Type 0
FailsClosed (d, none) = Unit
FailsClosed (d, some e) = (d.success ≡ false) × (d.message ≡ [])

-- A success has no message.
abbrev pub IsQuiet : {A : Type 0} → Outcome A → Type 0
IsQuiet (d, e) = d.success ≡ true → (d.message ≡ []) × (e ≡ none)

-- The template gate is open to the name: there is no list of templates, or the name is in it.
abbrev pub IsOpenTo : Option (List Text) → Text → Type 0
IsOpenTo none name = Unit
IsOpenTo (some names) name = contains names name ≡ true

refuses-IsOpenTo :
    (templates : Option (List Text)) (name : Text)
    → (refuses templates name ≡ false) ↔ IsOpenTo templates name
refuses-IsOpenTo none name = ground arith
refuses-IsOpenTo (some names) name = ground arith

module _ (M : Metadata) (backend : Backend) (api : AuthentikConfig) (cfg : AuthConfig) where
  open M use {Pending, Authenticated, username, authenticated_username, authenticated}

  -- A decision on a public key or on an authorization that comes with an error is a refusal without a message, and one that is a success has neither a message nor an error.
  pub decisions-FailsClosed :
      (meta : Pending) (key : Text) (login : Authenticated)
      → FailsClosed (on_pub_key M backend api cfg meta key)
        × IsQuiet (on_pub_key M backend api cfg meta key)
        × FailsClosed (on_authorization M backend api cfg login)
        × IsQuiet (on_authorization M backend api cfg login)
  unfolding on_pub_key on_authorization
  decisions-FailsClosed meta key login = ground arith

  pub on_pub_key-success_iff :
      (meta : Pending) (key : Text)
      → ((on_pub_key M backend api cfg meta key).0.success ≡ true) ↔ (
          (user : User) × IsOnlyMatch backend api key user
          × (user.is_active ≡ true)
          × ((on_pub_key M backend api cfg meta key).0.meta ≡ authenticated meta user.username))
  unfolding on_pub_key
  on_pub_key-success_iff meta key = (
    λ h. elim (Result-cases (lookup_user backend api key)) [
      | inr (e, failed) ↦ absurd (ground arith)
      | inl (found, e) ↦ elim (Option-cases found) [
        | inl missed ↦ absurd (ground arith)
        | inr (user, hit) ↦ (
          user,
          lookup_user-IsOnlyMatch backend api key user (ground arith),
          ground arith,
          ground arith,
        )
      ]
    ],
    λ (user, match, active, same).
        let found = IsOnlyMatch-lookup_user backend api key user match in
        rw (found, on_pub_key) (rw active refl),
  )

  pub on_authorization-success_iff :
      (meta : Authenticated)
      → ((on_authorization M backend api cfg meta).0.success ≡ true) ↔ (
          IsOpenTo cfg.allowed_templates (username meta)
          × ((cfg.require_group ≡ [])
              ⊎ IsMember backend api (authenticated_username meta) cfg.require_group))
  unfolding on_authorization
  on_authorization-success_iff meta = ground (
    arith,
    refuses-IsOpenTo cfg.allowed_templates (username meta),
    user_in_group-IsMember backend api (authenticated_username meta) cfg.require_group,
  )

  -- A public key is accepted exactly when the API reports one match for it, lists just this user, and the user is active, and the connection is then authenticated as that user. Authorization succeeds exactly when there is no list of templates or the SSH username is in it and, where a group is required, the API reports at least one user of the authenticated name in the group.
  pub decisions-success_iff :
      (meta : Pending) (key : Text) (login : Authenticated)
      → (((on_pub_key M backend api cfg meta key).0.success ≡ true) ↔ (
          (user : User) × IsOnlyMatch backend api key user
          × (user.is_active ≡ true)
          × ((on_pub_key M backend api cfg meta key).0.meta ≡ authenticated meta user.username)))
        × (((on_authorization M backend api cfg login).0.success ≡ true) ↔ (
            IsOpenTo cfg.allowed_templates (username login)
            × ((cfg.require_group ≡ [])
                ⊎ IsMember backend api (authenticated_username login) cfg.require_group)))
  decisions-success_iff meta key login =
      (on_pub_key-success_iff meta key, on_authorization-success_iff login)
