-- ===== src/Auth/Webhook/Laws.antt =====
-- The wire contract, and what a success on the wire needs.
use dev_box.Common.{
  ℕ, ◌≡◌, refl, ◌⊎◌, inl, inr, Bool, true, false, [], Option, none, some, Text, codes, ◌==◌,
  text_eq, Bool-cases, ==→≡, Option-cases, arith,
}
use dev_box.Auth.Authentik.{User, Backend, AuthentikConfig}
use dev_box.Auth.Authentik.Laws.{IsOnlyMatch, IsMember}
use dev_box.Auth.Handler.{Metadata, AuthConfig, Outcome, on_password, on_pub_key, on_authorization}
use dev_box.Auth.Handler.Laws.{IsOpenTo, on_pub_key-success_iff, on_authorization-success_iff}
use dev_box.Auth.Webhook.{
  ResponseBody, Reply, Codec, endpoint, write_decision, write_decode_error, serve_password,
  serve_pub_key, serve_authz, serve_http,
}

-- What each status says: 200 a decision, without a message if it is a success; 500 a failure of the
-- infrastructure, which never succeeds and never has a message; 404 nothing.
abbrev BodyFits : {A : Type 0} → ℕ → Option (ResponseBody A) → Type 0
BodyFits status none = status ≡ 404
BodyFits status (some b) =
    ((status ≡ 200) × (b.success ≡ true → b.message ≡ []))
    ⊎ ((status ≡ 500) × (b.success ≡ false) × (b.message ≡ []))

abbrev pub MeetsContract : {A : Type 0} → Reply A → Type 0
MeetsContract r = BodyFits r.status r.body

abbrev succeeded : {A : Type 0} → Option (ResponseBody A) → Bool
succeeded none = false
succeeded (some b) = b.success

-- The reply lets the connection go on.
abbrev pub Grants : {A : Type 0} → Reply A → Type 0
Grants r = succeeded r.body ≡ true

write_decision-MeetsContract : {A : Type 0} (o : Outcome A) → MeetsContract (write_decision o)
unfolding write_decision
write_decision-MeetsContract (d, none) = ground arith
write_decision-MeetsContract (d, some e) = ground arith

write_decision-Grants :
    {A : Type 0} (o : Outcome A) → Grants (write_decision o) → o.0.success ≡ true
unfolding write_decision
write_decision-Grants (d, none) h = h
write_decision-Grants (d, some e) h = cc

module _ (M : Metadata) (codec : Codec M) (backend : Backend) (api : AuthentikConfig)
    (cfg : AuthConfig) where
  open M use {Pending, Authenticated, username, authenticated_username}

  failed_request : MeetsContract (write_decode_error M codec backend api cfg)
  failed_request = inr (refl, refl, refl)

  serve_password-MeetsContract :
      (body : Text) → MeetsContract (serve_password M codec backend api cfg body)
  unfolding serve_password
  serve_password-MeetsContract body = elim (Option-cases (codec.password_request body)) [
    | inl missing ↦ rw (missing, serve_password) failed_request
    | inr ((meta, encoded), decoded) ↦ elim (Option-cases (codec.base64 encoded)) [
      | inl broken ↦ rw (decoded, serve_password) (rw broken failed_request)
      | inr (password, plain) ↦
          rw (decoded, serve_password) (rw plain (write_decision-MeetsContract _))
    ]
  ]

  serve_pub_key-MeetsContract :
      (body : Text) → MeetsContract (serve_pub_key M codec backend api cfg body)
  unfolding serve_pub_key
  serve_pub_key-MeetsContract body = elim (Option-cases (codec.public_key_request body)) [
    | inl missing ↦ rw (missing, serve_pub_key) failed_request
    | inr ((meta, key), decoded) ↦ rw (decoded, serve_pub_key) (write_decision-MeetsContract _)
  ]

  serve_authz-MeetsContract :
      (body : Text) → MeetsContract (serve_authz M codec backend api cfg body)
  unfolding serve_authz
  serve_authz-MeetsContract body = elim (Option-cases (codec.authorization_request body)) [
    | inl missing ↦ rw (missing, serve_authz) failed_request
    | inr (meta, decoded) ↦ rw (decoded, serve_authz) (write_decision-MeetsContract _)
  ]

  -- Whatever the request, the reply is a 200 with a decision that has no message if it succeeds, a
  -- 500 that does not succeed and has no message, or a 404 without a body.
  pub serve_http-MeetsContract :
      (path body : Text) → MeetsContract (serve_http M codec backend api cfg path body)
  unfolding serve_http
  serve_http-MeetsContract path body = ground (
    arith,
    serve_password-MeetsContract body,
    serve_pub_key-MeetsContract body,
    serve_authz-MeetsContract body,
  )

  serve_password-denies : (body : Text) → ¬ Grants (serve_password M codec backend api cfg body)
  unfolding serve_password write_decision on_password
  serve_password-denies body h = ground arith

  -- The reasons for which a connection goes on.
  abbrev pub GrantsKey : Text → Type 0
  GrantsKey body =
      (meta : Pending) × (key : Text) × (user : User) × (codec.public_key_request body
        ≡ some (meta, key))
      × IsOnlyMatch backend api key user
      × (user.is_active ≡ true)

  abbrev pub GrantsAuthorization : Text → Type 0
  GrantsAuthorization body =
      (meta : Authenticated) × (codec.authorization_request body ≡ some meta)
      × IsOpenTo cfg.allowed_templates (username meta)
      × ((cfg.require_group ≡ [])
          ⊎ IsMember backend api (authenticated_username meta) cfg.require_group)

  serve_pub_key-Grants :
      (body : Text) → Grants (serve_pub_key M codec backend api cfg body) → GrantsKey body
  unfolding serve_pub_key
  serve_pub_key-Grants body h = elim (Option-cases (codec.public_key_request body)) [
    | inl missing ↦ absurd (ground arith)
    | inr ((meta, key), decoded) ↦
        let granted : Grants (write_decision (on_pub_key M backend api cfg meta key)) =
          ground arith in
        let (user, found, active, _) =
          (on_pub_key-success_iff M backend api cfg meta key).0 (write_decision-Grants _ granted) in
        (meta, key, user, decoded, found, active)
  ]

  serve_authz-Grants :
      (body : Text) → Grants (serve_authz M codec backend api cfg body) → GrantsAuthorization body
  unfolding serve_authz
  serve_authz-Grants body h = elim (Option-cases (codec.authorization_request body)) [
    | inl missing ↦ absurd (ground arith)
    | inr (meta, decoded) ↦
        let granted : Grants (write_decision (on_authorization M backend api cfg meta)) =
          ground arith in
        let (allowed, member) =
          (on_authorization-success_iff M backend api cfg meta).0
            (write_decision-Grants _ granted) in
        (meta, decoded, allowed, member)
  ]

  -- A connection goes on only for a request to the path `pubkey` whose key is that of exactly one
  -- user in the answer of the API, who is active, or for one to `authz` that passes both gates. A password never does.
  pub serve_http-Grants :
      (path body : Text)
      → Grants (serve_http M codec backend api cfg path body)
      → ((endpoint path ≡ codes "pubkey") × GrantsKey body)
        ⊎ ((endpoint path ≡ codes "authz") × GrantsAuthorization body)
  unfolding serve_http
  serve_http-Grants path body h = elim (Bool-cases (endpoint path == codes "password")) [
    | inl first ↦ absurd (serve_password-denies body (ground arith))
    | inr not_first ↦ elim (Bool-cases (endpoint path == codes "pubkey")) [
      | inl second ↦ inl (==→≡ _ _ second, serve_pub_key-Grants body (ground arith))
      | inr not_second ↦ elim (Bool-cases (endpoint path == codes "authz")) [
        | inl third ↦ inr (==→≡ _ _ third, serve_authz-Grants body (ground arith))
        | inr not_third ↦ absurd (ground arith)
      ]
    ]
  ]
