-- ===== src/Auth/Webhook.antt =====
-- auth-server/webhook.go: the HTTP contract of the decisions.
pub mod Laws
use dev_box.Common.{
  ℕ, Bool, true, false, List, [], ◌∷◌, Option, none, some, Text, codes, ◌==◌, if◌then◌else◌,
  text_eq,
}
use dev_box.Strings.Split.{split, last_part}
use dev_box.Auth.Authentik.{Backend, AuthentikConfig, LookupError}
use dev_box.Auth.Handler.{
  Metadata, AuthConfig, Decision, Outcome, on_password, on_pub_key, on_authorization,
}

-- `authResponseBody`; an empty message is omitted on the wire.
pub record ResponseBody (A : Type 0) : Type 0 where
  pub success : Bool
  pub meta : A
  pub message : Text

-- A 404 has no body.
pub record Reply (A : Type 0) : Type 0 where
  pub status : ℕ
  pub body : Option (ResponseBody A)

-- The JSON of the three requests, and base64. `none` is a failure to decode.
pub record Codec (M : Metadata) : Type 0 where
  pub password_request : Text → Option (M.Pending × Text)
  pub public_key_request : Text → Option (M.Pending × Text)
  pub authorization_request : Text → Option M.Authenticated
  pub base64 : Text → Option Text

-- `strings.Split(path, "/")[len(…)-1]`
unfoldable pub endpoint : Text → Text
endpoint path = last_part (split b'/' path)

abbrev pub write_response : {A : Type 0} → ℕ → ResponseBody A → Reply A
write_response status body = record { status = status; body = some body }

-- The fields that an error leaves at their zero values stay so.
unfoldable pub write_decision : {A : Type 0} → Outcome A → Reply A
write_decision (d, some e) =
    write_response 500 (record { success = false; meta = d.meta; message = [] })
write_decision (d, none) =
    write_response 200
      (record { success = d.success; meta = d.meta; message = if d.success then [] else d.message })

module _ (M : Metadata) (codec : Codec M) (backend : Backend) (api : AuthentikConfig)
    (cfg : AuthConfig) where
  open M use {Authenticated, zero_value}

  abbrev pub write_decode_error : Reply Authenticated
  write_decode_error =
      write_response 500 (record { success = false; meta = zero_value; message = [] })

  unfoldable pub serve_password : Text → Reply Authenticated
  serve_password body = elim (codec.password_request body) [
    | none ↦ write_decode_error
    | some (meta, encoded) ↦ elim (codec.base64 encoded) [
      | none ↦ write_decode_error
      | some password ↦ write_decision (on_password M backend api cfg meta password)
    ]
  ]

  unfoldable pub serve_pub_key : Text → Reply Authenticated
  serve_pub_key body = elim (codec.public_key_request body) [
    | none ↦ write_decode_error
    | some (meta, key) ↦ write_decision (on_pub_key M backend api cfg meta key)
  ]

  unfoldable pub serve_authz : Text → Reply Authenticated
  serve_authz body = elim (codec.authorization_request body) [
    | none ↦ write_decode_error
    | some meta ↦ write_decision (on_authorization M backend api cfg meta)
  ]

  unfoldable pub serve_http : Text → Text → Reply Authenticated
  unfolding endpoint
  serve_http path body =
      if endpoint path == codes "password"
      then serve_password body
      else if endpoint path == codes "pubkey"
      then serve_pub_key body
      else if endpoint path == codes "authz"
      then serve_authz body
      else record { status = 404; body = none }
