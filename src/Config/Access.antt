-- ===== src/Config/Access.antt =====
-- config-server/owner_access.go: the three objects that let an owner manage the owner's boxes.
pub mod Ensured
pub mod Held
pub mod Grants
pub mod Bound
pub mod Accounts
pub mod Reconciled
pub mod Listed
pub mod Eligible
mod Kinds
unfoldable pub use Kinds.*
use dev_box.Common.{
  ℕ, Bool, true, false, ◌&&◌, ◌||◌, not, List, [], ◌∷◌, ◌++◌, map, Option, none, some, Text, codes,
  Result, ok, err, contains, length, ◌==◌, if◌then◌else◌, text_eq, number_eq, bytes_dec, Eq,
}
use dev_box.Strings.Trim.{trim_space}
use dev_box.Strings.Sort.{sort}
use dev_box.Config.Naming.{short_hash, box_pod_name}
use dev_box.Config.Templates.{ConfigError, kubernetes_not_configured, access_refused}
use dev_box.Config.Storage.{ObjectApi, ApiError, not_found, already_exists, conflict, other}

-- An action on the cluster that may fail.
abbrev pub Action : Type 0 → Type 0
Action S = S → Result AccessError (Unit {0}) × S

-- client-go's `retry.OnError(retry.DefaultRetry, …)` is not the server's own.
abbrev pub Retry : Type 0 → Type 0
Retry S = (AccessError → Bool) → Action S → Action S

module _ {S O : Type 0} where
  -- What is left of a call that has answered.
  abbrev pub done : Result ApiError O × S → Result AccessError (Unit {0}) × S
  done (ok o, s) = (ok tt, s)
  done (err e, s) = (err (api_failed e), s)

abbrev pub keeps_token_off : Account → Bool
keeps_token_off a = elim a.automount_token [ none ↦ false | some on ↦ not on ]

module _ {S : Type 0} (retry : Retry S) (namespace : Text) where
  -- One attempt, after the answer to the get.
  unfoldable pub settle_account :
      ObjectApi S Account → Text → Result ApiError Account × S → Result AccessError (Unit {0}) × S
  settle_account accounts name (ok current, s) =
      if keeps_token_off current
      then (ok tt, s)
      else done (accounts.update namespace (record current { automount_token = some false }) s)
  settle_account accounts name (err not_found, s) =
      done (accounts.create namespace (record { name = name; automount_token = some false }) s)
  settle_account accounts name (err e, s) = (err (api_failed e), s)

  abbrev pub try_account : ObjectApi S Account → Text → Action S
  try_account accounts name s = settle_account accounts name (accounts.get namespace name s)

  unfoldable pub ensure_owner_service_account : ObjectApi S Account → Text → Action S
  unfolding settle_account
  ensure_owner_service_account accounts name = retry is_retriable (try_account accounts name)

  unfoldable pub settle_role :
      ObjectApi S Role
      → Text
      → List Rule
      → Result ApiError Role × S
      → Result AccessError (Unit {0}) × S
  settle_role roles name rules (ok current, s) =
      if current.rules == rules
      then (ok tt, s)
      else done (roles.update namespace (record current { rules = rules }) s)
  settle_role roles name rules (err not_found, s) =
      done (roles.create namespace (record { name = name; rules = rules }) s)
  settle_role roles name rules (err e, s) = (err (api_failed e), s)

  abbrev try_role : ObjectApi S Role → Text → List Rule → Action S
  try_role roles name rules s = settle_role roles name rules (roles.get namespace name s)

  unfoldable pub ensure_owner_role : ObjectApi S Role → Text → List Rule → Action S
  unfolding settle_role
  ensure_owner_role roles name rules = retry is_retriable (try_role roles name rules)

  abbrev pub wanted_ref : Text → RoleRef
  wanted_ref name = record {
    api_group = codes "rbac.authorization.k8s.io";
    kind = codes "Role";
    name = name;
  }

  abbrev pub wanted_subjects : Text → List Subject
  wanted_subjects name =
      (record { kind = codes "ServiceAccount"; name = name; namespace = namespace }) ∷ []

  unfoldable pub settle_binding :
      ObjectApi S Binding → Text → Result ApiError Binding × S → Result AccessError (Unit {0}) × S
  settle_binding bindings name (ok current, s) =
      if current.role_ref == wanted_ref name
      then (if current.subjects == wanted_subjects name
          then (ok tt, s)
          else done
              (bindings.update namespace (record current { subjects = wanted_subjects name }) s))
      else (err (unexpected_role_ref name), s)
  settle_binding bindings name (err not_found, s) = done (
      bindings.create namespace
        (record { name = name; role_ref = wanted_ref name; subjects = wanted_subjects name }) s)
  settle_binding bindings name (err e, s) = (err (api_failed e), s)

  abbrev pub try_binding : ObjectApi S Binding → Text → Action S
  try_binding bindings name s = settle_binding bindings name (bindings.get namespace name s)

  unfoldable pub ensure_owner_binding : ObjectApi S Binding → Text → Action S
  unfolding settle_binding
  ensure_owner_binding bindings name = retry is_retriable (try_binding bindings name)

pub record Kube (S : Type 0) : Type 0 where
  pub accounts : ObjectApi S Account
  pub roles : ObjectApi S Role
  pub bindings : ObjectApi S Binding

-- The pods that the owner's role names.
unfoldable pub granted_names : (Text → Text) → Text → List Text → List Text
granted_names sha256 owner templates = sort (map (box_pod_name sha256 (trim_space owner)) templates)

-- A role without names would grant all pods, so without templates there is no rule.
unfoldable pub owner_rules : (Text → Text) → Text → List Text → List Rule
unfolding granted_names
owner_rules sha256 owner templates =
    if length templates == 0
    then []
    else (record {
      api_groups = [] ∷ [];
      resources = codes "pods" ∷ [];
      verbs = codes "get" ∷ codes "delete" ∷ [];
      resource_names = granted_names sha256 owner templates;
    })
      ∷ []

abbrev pub owner_object_name : (Text → Text) → Text → Text
owner_object_name sha256 owner = codes "dev-box-owner-" ++ short_hash sha256 (trim_space owner) 48

module _ {S : Type 0} (retry : Retry S) (kube : Kube S) (sha256 : Text → Text)
    (namespace : Text) where
  -- The second action, if the first succeeds.
  abbrev pub after_success : Action S → Action S → Action S
  after_success m n s = let (r, s') = m s in elim r [ err e ↦ (err e, s') | ok u ↦ n s' ]

  unfoldable pub reconcile : Text → List Rule → Action S
  reconcile name rules =
      after_success (ensure_owner_service_account retry namespace kube.accounts name) (
        after_success (ensure_owner_role retry namespace kube.roles name rules)
          (ensure_owner_binding retry namespace kube.bindings name))

  named : Text → Result AccessError (Unit {0}) × S → Result ConfigError Text × S
  named name (err e, s) = (err (access_refused name), s)
  named name (ok u, s) = (ok name, s)

  -- `has_client` is whether a Kubernetes client is configured.
  unfoldable pub ensure_owner_access : Bool → Text → List Text → S → Result ConfigError Text × S
  unfolding named reconcile
  ensure_owner_access has_client owner templates s =
      let name = owner_object_name sha256 owner in
      if not has_client || namespace == []
      then (err kubernetes_not_configured, s)
      else named name (reconcile name (owner_rules sha256 owner templates) s)
