-- ===== src/Config/Storage.antt =====
-- config-server/storage.go: the retained claims of a box.
pub mod Retained
pub mod Volumes
use dev_box.Common.{
  ℕ, Bool, true, false, ◌&&◌, ◌||◌, not, List, [], ◌∷◌, ◌++◌, Option, none, some, Text, codes,
  Result, ok, err, ◌==◌, length, map, if◌then◌else◌, text_eq, number_eq,
}
use dev_box.Common.Table.{Table, lookup, insert}
use dev_box.Strings.Trim.{trim_space}
use dev_box.Config.App.{AppConfig, Claim, Request, Volume}
use dev_box.Config.Naming.{owner_label_key, template_label_key, claim_label_key, owner_label_value}
use dev_box.Config.Templates.{ConfigError, PodTemplate, kubernetes_not_configured, claim_refused}

-- The errors that the program tells apart.
pub data ApiError : Type 0 where
  not_found already_exists conflict other : ApiError

-- Get, create and update objects of one kind in a namespace. Other clients act too: each call may
-- find, and leave, any state of the cluster.
pub record ObjectApi (S O : Type 0) : Type 0 where
  pub get : Text → Text → S → Result ApiError O × S
  pub create : Text → O → S → Result ApiError O × S
  pub update : Text → O → S → Result ApiError O × S

pub data ClaimError : Type 0 where
  api_failed : ApiError → ClaimError
  is_terminating not_retained identity_mismatch : ClaimError

-- Go's copy of a map onto another.
unfoldable pub merge : Table Text → Table Text → Table Text
merge m [] = m
merge m ((k, v) ∷ over) = merge (insert k v m) over

-- What a claim must say of whom it is for, in full and as label values.
abbrev pub identity_of : Text → Text → Text → Table Text
identity_of owner template_name claim_name =
    (owner_label_key, owner)
    ∷ (template_label_key, template_name)
    ∷ (claim_label_key, claim_name)
    ∷ []

abbrev pub labels_of : (Text → Text) → Text → Text → Text → Table Text
labels_of sha256 owner template_name claim_name =
    (owner_label_key, owner_label_value sha256 owner)
    ∷ (template_label_key, owner_label_value sha256 template_name)
    ∷ (claim_label_key, claim_name)
    ∷ []

-- A missing key of a Go map is the empty text.
unfoldable pub value_at : Text → Table Text → Text
value_at k m = elim (lookup k m) [ none ↦ [] | some v ↦ v ]

-- The loop over the identity: the annotation is the full value, the label the label value.
unfoldable pub has_identity : Claim → Table Text → Table Text → Bool
unfolding value_at
has_identity current [] labels = true
has_identity current ((k, v) ∷ identity) labels =
    value_at k current.annotations == v
    && value_at k current.labels == value_at k labels
    && has_identity current identity labels

unfoldable pub check_claim : Claim → Table Text → Table Text → Result ClaimError (Unit {0})
check_claim current identity labels =
    if current.terminating
    then err is_terminating
    else if length current.owner_references == 0
    then (if has_identity current identity labels then ok tt else err identity_mismatch)
    else err not_retained

-- The claim that is created: fresh metadata, with the declaration's labels and annotations under
-- the identity.
unfoldable pub desired_claim : Claim → Text → Text → Table Text → Table Text → Claim
unfolding merge
desired_claim template namespace name identity labels = record {
  name = name;
  namespace = namespace;
  labels = merge (merge [] template.labels) labels;
  annotations = merge (merge [] template.annotations) identity;
  spec = template.spec;
  storage_request = template.storage_request;
  owner_references = [];
  terminating = false;
}

module _ {S : Type 0} (claims : ObjectApi S Claim) (sha256 : Text → Text) (namespace : Text) where
  -- Another request may create the claim first.
  created_or_found : Text → Result ApiError Claim × S → Result ApiError Claim × S
  created_or_found name (ok c, s) = (ok c, s)
  created_or_found name (err already_exists, s) = claims.get namespace name s
  created_or_found name (err e, s) = (err e, s)

  found_or_created : Text → Claim → Result ApiError Claim × S → Result ApiError Claim × S
  unfolding created_or_found
  found_or_created name desired (ok c, s) = (ok c, s)
  found_or_created name desired (err not_found, s) =
      created_or_found name (claims.create namespace desired s)
  found_or_created name desired (err e, s) = (err e, s)

  judge : Table Text → Table Text → Result ApiError Claim × S → Result ClaimError (Unit {0}) × S
  unfolding check_claim
  judge identity labels (err e, s) = (err (api_failed e), s)
  judge identity labels (ok c, s) = (check_claim c identity labels, s)

  unfoldable pub ensure_claim : Claim → Text → Text → Text → S → Result ClaimError (Unit {0}) × S
  unfolding found_or_created judge desired_claim
  ensure_claim template name owner template_name s =
      let identity = identity_of owner template_name template.name in
      let labels = labels_of sha256 owner template_name template.name in
      let desired = desired_claim template namespace name identity labels in
      judge identity labels (found_or_created name desired (claims.get namespace name s))

  -- The loop of `applyStorage` over the claims: the names of the claims by those of the
  -- declarations.
  unfoldable pub ensure_all :
      Text → Text → Text → Table Text → List Claim → S → Result ConfigError (Table Text) × S
  ensure_all pod_name owner template_name names [] s = (ok names, s)
  ensure_all pod_name owner template_name names (c ∷ more) s =
      let name = pod_name ++ b'-' ∷ c.name in
      let (r, s') = ensure_claim c name owner template_name s in
      let rest = ensure_all pod_name owner template_name (insert c.name name names) more s' in
      elim r [ err e ↦ (err (claim_refused name), s') | ok u ↦ rest ]

  refer : Table Text → Option Text → Option Text
  refer names none = none
  refer names (some claim) = some (elim (lookup claim names) [ none ↦ claim | some name ↦ name ])

  unfoldable pub rename_volumes : Table Text → List Volume → List Volume
  unfolding refer
  rename_volumes names [] = []
  rename_volumes names (v ∷ volumes) =
      record v { claim = refer names v.claim } ∷ rename_volumes names volumes

  with_volumes : AppConfig → Result ConfigError (Table Text) × S → Result ConfigError AppConfig × S
  unfolding rename_volumes
  with_volumes app (err e, s) = (err e, s)
  with_volumes app (ok names, s) = (
    ok (record app {
      pod = record app.pod {
        spec = record app.pod.spec { volumes = rename_volumes names app.pod.spec.volumes };
      };
    }),
    s,
  )

  -- `has_client` is whether a Kubernetes client is configured.
  unfoldable pub apply_storage :
      Bool → Request → PodTemplate → Text → S → Result ConfigError AppConfig × S
  unfolding with_volumes ensure_all
  apply_storage has_client req template template_name s =
      if not has_client || namespace == []
      then (err kubernetes_not_configured, s)
      else with_volumes template.app (
          ensure_all template.app.pod.name (trim_space req.authenticated_username) template_name []
            template.claims s)
