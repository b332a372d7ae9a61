-- ===== src/Settings/Startup.antt =====
-- settings-tui/main.go and kube.go: the model that the program starts with, and the client that it is
-- given. The program's loop is Bubble Tea's.
pub mod Measured
pub mod Laws
use dev_box.Common.{
  ℕ, Bool, true, false, ◌||◌, not, List, [], ◌∷◌, ◌++◌, Option, none, some, Text, codes, Result, ok,
  err, ◌>>=◌, ltb, ◌==◌, text_eq, if◌then◌else◌,
}
use dev_box.Strings.Trim.{trim_space}
use dev_box.Strings.Path.{trim_suffix}
use dev_box.Settings.Boxes.{InputError, parse_templates, parse_max_boxes}
use dev_box.Settings.Kube.{
  ApiError, other_error, Cluster, HttpBoxClient, BoxClient, http, unavailable, namespace_from,
}
use dev_box.Settings.Model.{SettingsModel, new_model}

-- The terminal: whether both ends are one, and what its size is, at first and when it is asked again
-- before the deadline. `none` is an error. And `net` and `x509`: the joined host and port, and whether
-- a text has certificates.
pub record Host : Type 0 where
  pub is_terminal : Bool
  pub first_size : Option (ℕ × ℕ)
  pub later_sizes : List (Option (ℕ × ℕ))
  pub join_host_port : Text → Text → Text
  pub is_pem : Text → Bool

pub data RunError : Type 0 where
  owner_missing no_terminal no_size : RunError
  bad_input : InputError → RunError

abbrev pub is_empty : ℕ × ℕ → Bool
is_empty (width, height) = ltb width 1 || ltb height 1

-- The loop until the deadline.
unfoldable pub measure : Option (ℕ × ℕ) → List (Option (ℕ × ℕ)) → Option (ℕ × ℕ)
measure none later = none
measure (some size) [] = some size
measure (some size) (next ∷ later) =
    let rest = measure next later in if is_empty size then rest else some size

abbrev usable : Option (ℕ × ℕ) → Result RunError (ℕ × ℕ)
usable none = err no_size
usable (some size) = if is_empty size then err no_size else ok size

abbrev pub from_input : {A : Type 0} → Result InputError A → Result RunError A
from_input (ok a) = ok a
from_input (err e) = err (bad_input e)

abbrev pub or_unavailable : Result Text HttpBoxClient → BoxClient
or_unavailable (ok c) = http c
or_unavailable (err cause) = unavailable (other_error cause)

module _ (sha256 : Text → Text) (cluster : Cluster) (host : Host) where
  abbrev pub getenv : Text → Text
  getenv key = elim (cluster.lookup_env key) [ none ↦ [] | some v ↦ v ]

  override_client : Text → Result Text HttpBoxClient
  override_client override =
      let namespace = trim_space (getenv (codes "DEV_BOX_NAMESPACE")) in
      if namespace == []
      then err (codes "DEV_BOX_NAMESPACE is required with DEV_BOX_KUBE_API_URL")
      else ok (record {
        base = trim_suffix override (codes "/");
        namespace = namespace;
        token = getenv (codes "DEV_BOX_KUBE_API_TOKEN");
        token_file = [];
        roots = none;
      })

  pod_client : Text → Text → Text → Result Text HttpBoxClient
  pod_client address_host port ca =
      if not (host.is_pem ca) then err (codes "cluster CA is not valid PEM") else do
        namespace ←
            namespace_from cluster (codes "/var/run/secrets/kubernetes.io/serviceaccount/namespace")
        ok (record {
          base = codes "https://" ++ host.join_host_port address_host port;
          namespace = namespace;
          token = [];
          token_file = codes "/var/run/secrets/kubernetes.io/serviceaccount/token";
          roots = some ca;
        })

  unfoldable pub new_box_client : Result Text HttpBoxClient
  unfolding override_client pod_client
  new_box_client =
      let override = trim_space (getenv (codes "DEV_BOX_KUBE_API_URL")) in
      let address_host = getenv (codes "KUBERNETES_SERVICE_HOST") in
      let port = getenv (codes "KUBERNETES_SERVICE_PORT") in
      if not (override == [])
      then override_client override
      else if address_host == [] || port == []
      then err (codes "no in-cluster Kubernetes environment (KUBERNETES_SERVICE_HOST/PORT unset)")
      else elim (cluster.read_file (codes "/var/run/secrets/kubernetes.io/serviceaccount/ca.crt")) [
        | err cause ↦ err (codes "read cluster CA: " ++ cause)
        | ok ca ↦ pod_client address_host port ca
      ]

  -- `run`, down to the program's loop.
  unfoldable pub run : Result RunError SettingsModel
  unfolding measure
  run =
      let owner = trim_space (getenv (codes "DEV_BOX_AUTHENTICATED_OWNER")) in
      if owner == []
      then err owner_missing
      else if not host.is_terminal
      then err no_terminal
      else do
        size ← usable (measure host.first_size host.later_sizes)
        templates ← from_input (parse_templates (getenv (codes "DEV_BOX_BOX_TEMPLATES")))
        max_boxes ← from_input (parse_max_boxes (getenv (codes "DEV_BOX_MAX_BOXES")))
        ok (
            new_model sha256 owner templates max_boxes (or_unavailable new_box_client) size.0
              size.1)

  -- The exit code, where the program's loop ends with an error or without.
  unfoldable pub main : (SettingsModel → Option Text) → ℕ
  main loop = elim run [ err e ↦ 1 | ok m ↦ elim (loop m) [ none ↦ 0 | some e ↦ 1 ] ]
