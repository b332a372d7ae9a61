-- ===== src/Settings/Kube.antt =====
-- settings-tui/kube.go: get and delete one pod by its name.
use dev_box.Common.{
  ℕ, Bool, false, ◌&&◌, ◌||◌, [], ◌++◌, Option, none, some, Text, codes, Result, ok, err, ◌>>=◌,
  take, ◌==◌, if◌then◌else◌, number_eq, text_eq,
}
use dev_box.Strings.Trim.{trim_space}
use dev_box.Settings.Pod.{PodInfo}

-- The errors of the client. Those that the application tells apart are the first two; each of the
-- first three carries the message of the API.
pub data ApiError : Type 0 where
  not_found forbidden token_rejected : Text → ApiError
  api_error : ℕ → Text → ApiError
  other_error : Text → ApiError

unfoldable pub classify : ℕ → Text → ApiError
classify code message =
    if code == 404
    then not_found message
    else if code == 403
    then forbidden message
    else if code == 401
    then token_rejected message
    else api_error code message

pub record ApiStatus : Type 0 where
  pub kind : Text
  pub status : Text
  pub message : Text

pub record HttpRequest : Type 0 where
  pub method : Text
  pub url : Text
  pub accept : Text
  pub authorization : Option Text

pub record HttpResponse : Type 0 where
  pub status_code : ℕ
  pub body : Text

-- The error of `http.NewRequest`, if there is one; the transport, the projected token's file, and JSON.
pub record Cluster : Type 0 where
  pub lookup_env : Text → Option Text
  pub read_file : Text → Result Text Text
  pub request_error : Text → Text → Option Text
  pub send : HttpRequest → Result Text HttpResponse
  pub decode_pod : Text → Option PodInfo
  pub decode_status : Text → Option ApiStatus

-- `roots` are the certificates that the transport trusts, which then takes TLS 1.2 at least; without
-- them it is the library's own. A request ends after 5 seconds.
pub record HttpBoxClient : Type 0 where
  pub base : Text
  pub namespace : Text
  pub token : Text
  pub token_file : Text
  pub roots : Option Text

-- `boxClient` and its two implementations.
pub data BoxClient : Type 0 where
  http : HttpBoxClient → BoxClient
  unavailable : ApiError → BoxClient

abbrev bearer : Text → Option Text
bearer token = if token == [] then none else some (codes "Bearer " ++ token)

-- The message of an error response; a body that does not decode has none.
abbrev pub message_of : Option ApiStatus → Text
message_of none = []
message_of (some s) = s.message

-- A deletion that the body of a success reports as failed.
abbrev pub reports_failure : Option ApiStatus → Bool
reports_failure none = false
reports_failure (some s) = s.kind == codes "Status" && s.status == codes "Failure"

unfoldable pub judge_deletion : ℕ → Option ApiStatus → Option ApiError
judge_deletion code status =
    if reports_failure status then some (classify code (message_of status)) else none

module _ (cluster : Cluster) where
  open cluster use {lookup_env, read_file, request_error, send, decode_pod, decode_status}

  abbrev getenv : Text → Text
  getenv key = elim (lookup_env key) [ none ↦ [] | some v ↦ v ]

  unfoldable pub namespace_from : Text → Result Text Text
  namespace_from file =
      let override = trim_space (getenv (codes "DEV_BOX_NAMESPACE")) in
      if override == []
      then elim (read_file file) [
        | err cause ↦ err (codes "read pod namespace: " ++ cause)
        | ok content ↦
            let ns = trim_space content in
            if ns == [] then err (codes "pod namespace file is empty") else ok ns
      ]
      else ok override

  current_token : HttpBoxClient → Result Text Text
  current_token c = if c.token_file == [] then ok c.token else elim (read_file c.token_file) [
    | err cause ↦ err (codes "read projected token: " ++ cause)
    | ok content ↦ ok (trim_space content)
  ]

  send_with : HttpBoxClient → Text → Text → Result Text HttpResponse
  unfolding current_token
  send_with c method url = do
    token ← current_token c
    send (record {
      method = method;
      url = url;
      accept = codes "application/json";
      authorization = bearer token;
    })

  unfoldable pub request : HttpBoxClient → Text → Text → Result Text HttpResponse
  unfolding send_with
  request c method name =
      let url = c.base ++ codes "/api/v1/namespaces/" ++ c.namespace ++ codes "/pods/" ++ name in
      elim (request_error method url) [ none ↦ send_with c method url | some e ↦ err e ]

  unfoldable pub status_error : HttpResponse → ApiError
  status_error resp = classify resp.status_code (message_of (decode_status (take 65536 resp.body)))

  read_pod : HttpResponse → Result ApiError PodInfo
  unfolding status_error
  read_pod resp =
      if resp.status_code == 200
      then elim (decode_pod (take 4194304 resp.body)) [
        | none ↦ err (other_error (codes "decode pod"))
        | some pod ↦ ok pod
      ]
      else err (status_error resp)

  unfoldable pub get_pod : BoxClient → Text → Result ApiError PodInfo
  unfolding read_pod
  get_pod (unavailable e) name = err e
  get_pod (http c) name = elim (request c (codes "GET") name) [
    | err cause ↦ err (other_error cause)
    | ok resp ↦ read_pod resp
  ]

  unfoldable pub read_deletion : HttpResponse → Option ApiError
  unfolding status_error judge_deletion
  read_deletion resp =
      if resp.status_code == 200 || resp.status_code == 202
      then judge_deletion resp.status_code (decode_status (take 1048576 resp.body))
      else some (status_error resp)

  -- `none` is success.
  unfoldable pub delete_pod : BoxClient → Text → Option ApiError
  unfolding read_deletion
  delete_pod (unavailable e) name = some e
  delete_pod (http c) name = elim (request c (codes "DELETE") name) [
    | err cause ↦ some (other_error cause)
    | ok resp ↦ read_deletion resp
  ]
