-- ===== src/Config/Access/Kinds.antt =====
-- config-server/owner_access.go: the objects of an owner and the errors of their calls.
use dev_box.Common.{Bool, true, false, List, Option, Text, text_eq, number_eq, bytes_dec, Eq}
use dev_box.Config.Storage.{ApiError, already_exists, conflict}

pub record Account : Type 0 where
  pub name : Text
  pub automount_token : Option Bool

pub record Rule : Type 0 where
  pub api_groups : List Text
  pub resources : List Text
  pub verbs : List Text
  pub resource_names : List Text

pub record Role : Type 0 where
  pub name : Text
  pub rules : List Rule

-- The group, the kind and the name of a role.
pub record RoleRef : Type 0 where
  pub api_group : Text
  pub kind : Text
  pub name : Text

pub record Subject : Type 0 where
  pub kind : Text
  pub name : Text
  pub namespace : Text

pub record Binding : Type 0 where
  pub name : Text
  pub role_ref : RoleRef
  pub subjects : List Subject

pub data AccessError : Type 0 where
  api_failed : ApiError → AccessError
  unexpected_role_ref : Text → AccessError

texts_dec : Discrete (List Text)
texts_dec = hlevel bytes_dec

rules_dec : Discrete (List Rule)
rules_dec = hlevel (texts_dec, bytes_dec)

subjects_dec : Discrete (List Subject)
subjects_dec = hlevel bytes_dec

role_ref_dec : Discrete RoleRef
role_ref_dec = hlevel bytes_dec

-- `equality.Semantic.DeepEqual` on these types, and `==`.
instance unfoldable pub rule_eq : Eq (List Rule)
unfolding rules_dec texts_dec
rule_eq = record { dec = rules_dec }

instance unfoldable pub subject_eq : Eq (List Subject)
unfolding subjects_dec
subject_eq = record { dec = subjects_dec }

instance unfoldable pub role_ref_eq : Eq RoleRef
unfolding role_ref_dec
role_ref_eq = record { dec = role_ref_dec }

-- `reconcileConflict`: what is tried again.
abbrev pub is_retriable : AccessError → Bool
is_retriable (api_failed conflict) = true
is_retriable (api_failed already_exists) = true
is_retriable _ = false
