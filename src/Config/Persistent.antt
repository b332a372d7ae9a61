-- ===== src/Config/Persistent.antt =====
-- config-server/persistent.go: the per-owner cap, and the identity of a box. Logging is left out.
pub mod Identity
pub mod Laws
pub mod Bounded
use dev_box.Common.{
  ℕ, Bool, true, false, ◌&&◌, ◌||◌, not, List, [], ◌∷◌, ◌++◌, Option, none, some, Text, codes, ℤ,
  pos, leb_ℤ, length, contains, Result, ok, err, ◌>>=◌, ◌==◌, if◌then◌else◌, text_eq,
}
use dev_box.Common.Table.{Table, insert}
use dev_box.Strings.Trim.{trim_space}
use dev_box.Config.App.{AppConfig, Request, persistent_mode}
use dev_box.Config.Naming.{owner_label_key, template_label_key, owner_label_value, box_pod_name}
use dev_box.Config.Templates.{
  ConfigError, no_authenticated_identity, pod_cap_reached, pods_not_listed,
}

-- A pod, as the lister sees it.
pub record Pod : Type 0 where
  pub name : Text
  pub terminating : Bool
  pub phase : Text

-- `list_pods namespace selector` is the API's list of pods, or its error.
abbrev pub PodApi : Type 0
PodApi = Text → Text → Result Text (List Pod)

pub record BoxPolicy : Type 0 where
  pub operating_mode : Text
  pub namespace : Text
  pub max_pods : ℤ

abbrev pub enabled : BoxPolicy → Bool
enabled c = c.operating_mode == persistent_mode

unfoldable pub is_dead : Pod → Bool
is_dead pod = pod.terminating || pod.phase == codes "Succeeded" || pod.phase == codes "Failed"

-- The loop of `LivePodNamesForOwner`.
unfoldable pub live_names : List Pod → List Text
unfolding is_dead
live_names [] = []
live_names (pod ∷ pods) =
    let names = live_names pods in if is_dead pod then names else pod.name ∷ names

unfoldable pub live_pod_names_for_owner : PodApi → Text → Text → Result Text (List Text)
unfolding live_names
live_pod_names_for_owner list_pods namespace owner_label = do
  pods ← list_pods namespace (owner_label_key ++ codes "=" ++ owner_label)
  ok (live_names pods)

judge_cap : ℤ → Text → List Text → Result ConfigError (Unit {0})
judge_cap max_pods pod_name names =
    if contains names pod_name
    then ok tt
    else if leb_ℤ max_pods (pos (length names))
    then err pod_cap_reached
    else ok tt

module _ (sha256 : Text → Text) where
  -- The fields that make a pod the owner's box. The labels are a copy of the template's.
  unfoldable pub inject : Text → Text → AppConfig → AppConfig
  inject owner template_name cfg = record cfg {
    pod = record cfg.pod {
      name = box_pod_name sha256 owner template_name;
      create_missing_pods = true;
      labels =
          insert template_label_key (owner_label_value sha256 template_name)
            (insert owner_label_key (owner_label_value sha256 owner) cfg.pod.labels);
    };
  }

module _ (sha256 : Text → Text) (boxes : BoxPolicy) (list_pods : PodApi) where
  unfoldable pub enforce_cap : Text → Text → Result ConfigError (Unit {0})
  unfolding judge_cap
  enforce_cap owner pod_name =
      if leb_ℤ boxes.max_pods (pos 0)
      then ok tt
      else elim (live_pod_names_for_owner list_pods boxes.namespace
          (owner_label_value sha256 owner)) [
            | err cause ↦ err (pods_not_listed cause)
            | ok names ↦ judge_cap boxes.max_pods pod_name names
          ]

  unfoldable pub apply_persistent : Request → AppConfig → Text → Result ConfigError AppConfig
  apply_persistent req cfg template_name =
      let owner = trim_space req.authenticated_username in
      if owner == []
      then err no_authenticated_identity
      else elim (enforce_cap owner (box_pod_name sha256 owner template_name)) [
        | err e ↦ err e
        | ok u ↦ ok (inject sha256 owner template_name cfg)
      ]
