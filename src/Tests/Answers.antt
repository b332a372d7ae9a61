-- ===== src/Tests/Answers.antt =====
-- Whole answers of the configuration server at concrete inputs.
use dev_box.Common.{
  ◌≡◌, ◌≢◌, refl, ◌⊎◌, inl, inr, true, false, List, [], ◌∷◌, map, Option, none, some, Text, codes,
  Result, ok, err, pos, ℕ_discrete, bytes_dec,
}
use dev_box.Common.Table.{lookup}
use dev_box.Strings.Trim.{trim_space}
use dev_box.Config.App.{AppConfig, Claim, Request, Volume}
use dev_box.Config.Persistent.{inject, enabled}
use dev_box.Config.Templates.{
  PodTemplate, load, persistent_templates, settings_template_name, Store, parse_template,
}
use dev_box.Config.Storage.{ObjectApi, not_found, apply_storage}
use dev_box.Config.Storage.Volumes.{AllEnsured, SameButVolumes, resolve_volume, apply_storage-ok}
use dev_box.Config.Access.{Retry, Kube, owner_object_name, reconcile}
use dev_box.Config.SettingsApp.{Settings, settings_app, settings_config}
use dev_box.Config.Handler.{template_name_of, on_config}
use dev_box.Config.Handler.Served.{ServedAs, on_config-ok}
use dev_box.Config.Templates.Claims.{AreClaims, parse_template-ok}
use dev_box.Tests.Fixtures.{digest, app, claim}
use dev_box.Tests.Serving.{store, warm, boxes, no_pods, req}
use dev_box.Tests.Objects.{api, claim_name, go_claim}

-- The template, with a volume of its claim and one of another.
abbrev volumes : List Volume
volumes =
    (record { name = codes "v"; claim = some (codes "home") })
    ∷ (record { name = codes "w"; claim = some (codes "data") })
    ∷ []

abbrev with_claim : PodTemplate
with_claim = record {
  app = record app {
    pod = record app.pod { name = codes "box"; spec = record app.pod.spec { volumes = volumes } };
  };
  claims = claim ∷ [];
}

abbrev with_claim_served : AppConfig
with_claim_served = record with_claim.app {
  pod = record with_claim.app.pod {
    spec = record with_claim.app.pod.spec {
      volumes =
          (record { name = codes "v"; claim = some (codes "box-home") })
          ∷ (record { name = codes "w"; claim = some (codes "data") })
          ∷ [];
    };
  };
}

claim_applied :
    apply_storage (api claim_name) digest (codes "ns") true req with_claim (codes "go") none
    ≡ (ok with_claim_served, some go_claim)
unfolding codes apply_storage bytes_dec dev_box.Config.Storage.ensure_claim ℕ_discrete
    dev_box.Config.Storage.has_identity lookup dev_box.Common.Table.insert trim_space
    dev_box.Config.Naming.owner_label_value
claim_applied = refl

apply_storage-ok_example :
    (true ≡ true)
    × (codes "ns" ≢ [])
    × AllEnsured
        (api claim_name)
        digest
        (codes "ns")
        (codes "box")
        (trim_space (codes "ann"))
        (codes "go")
        (claim ∷ [])
    × SameButVolumes with_claim.app with_claim_served
    × (with_claim_served.pod.spec.volumes ≡ map (resolve_volume (codes "box") (claim ∷ [])) volumes)
apply_storage-ok_example =
    apply_storage-ok (api claim_name) digest (codes "ns") true req with_claim (codes "go") none
      with_claim_served (some go_claim) claim_applied

-- A cluster without objects, which creates any.
abbrev created : {S O : Type 0} → ObjectApi S O
created = record {
  get = λ namespace name s. (err not_found, s);
  create = λ namespace o s. (ok o, s);
  update = λ namespace o s. (ok o, s);
}

abbrev pub cluster : {S : Type 0} → Kube S
cluster = record { accounts = created; roles = created; bindings = created }

abbrev pub retry : {S : Type 0} → Retry S
retry p m s = m s

abbrev pub settings : Settings
settings = record {
  dir = codes "t";
  boxes = boxes;
  settings_image = codes "settings:1";
  has_client = true;
}

abbrev go_app : AppConfig
go_app = inject digest (trim_space (codes "ann")) (codes "go") app

go_is_no_settings : codes "go" ≢ settings_template_name
unfolding codes
go_is_no_settings e = cc

go_answered :
    on_config retry cluster (api claim_name) digest store (λ s. no_pods) settings req [] none
    ≡ (ok go_app, warm, none)
unfolding codes on_config bytes_dec ℕ_discrete load dev_box.Config.Templates.valid_template_name
    dev_box.Config.Templates.load_first dev_box.Config.Templates.safe_join
    dev_box.Strings.Path.clean dev_box.Strings.Split.split dev_box.Strings.Split.join
    dev_box.Strings.Path.rel dev_box.Strings.Path.join_path dev_box.Strings.Path.has_prefix
    dev_box.Config.Templates.read_cached lookup dev_box.Config.Templates.parse_template
    dev_box.Config.Handler.serve_template dev_box.Config.Handler.box_step
    dev_box.Common.Table.insert dev_box.Config.App.template_selects_non_persistent
    dev_box.Config.Handler.ext dev_box.Config.Handler.store_step template_name_of
    dev_box.Config.Persistent.apply_persistent dev_box.Config.Persistent.enforce_cap
    dev_box.Config.Persistent.live_names dev_box.Config.Persistent.live_pod_names_for_owner
    dev_box.Config.Templates.check_claims dev_box.Config.Templates.read_claims
    dev_box.Strings.Path.cut_suffix dev_box.Strings.Path.has_suffix dev_box.Strings.Path.trim_suffix
    trim_space
go_answered = refl

on_config-ok_example :
    (t : PodTemplate) × (source : Text) × (load store (enabled boxes) (codes "t") [] (codes "go")
      ≡ (ok (t, source), warm))
    × ServedAs retry cluster
        (api claim_name)
        digest
        store
        (λ s. no_pods)
        settings
        req
        t
        (template_name_of source)
        none
        go_app
on_config-ok_example =
    on_config-ok retry cluster (api claim_name) digest store (λ s. no_pods) settings req [] none
      go_app warm none go_is_no_settings go_answered

abbrev pub nothing : Option Claim
nothing = none

abbrev pub settings_req : Request
settings_req = record { username = codes "settings"; authenticated_username = codes "ann" }

abbrev pub answered : AppConfig
answered =
    settings_app (codes "settings:1") (owner_object_name digest (codes "ann")) (codes "ann")
      (codes "go" ∷ []) (pos 1)

pub owner_served :
    settings_config retry cluster digest store settings settings_req [] nothing
    ≡ (ok answered, warm, none)
unfolding codes settings_config bytes_dec trim_space ℕ_discrete persistent_templates
    dev_box.Config.Templates.template_of_file dev_box.Strings.Path.has_suffix
    dev_box.Config.Templates.is_skipped dev_box.Config.Templates.valid_template_name
    dev_box.Strings.Path.trim_suffix load dev_box.Config.Templates.load_first
    dev_box.Config.Templates.safe_join dev_box.Strings.Path.clean dev_box.Strings.Split.split
    dev_box.Strings.Split.join dev_box.Strings.Path.rel dev_box.Strings.Path.join_path
    dev_box.Common.Table.insert lookup dev_box.Config.Access.ensure_owner_access
    dev_box.Config.Access.ensure_owner_binding dev_box.Config.Access.ensure_owner_role
    dev_box.Config.Access.ensure_owner_service_account reconcile dev_box.Config.Access.settle_role
    dev_box.Config.App.template_selects_non_persistent dev_box.Config.Templates.check_claims
    dev_box.Config.Templates.collect dev_box.Config.Templates.parse_template
    dev_box.Config.Templates.read_cached dev_box.Config.Templates.read_claims
    dev_box.Strings.Path.cut_suffix dev_box.Strings.Path.has_prefix dev_box.Strings.Sort.place
    dev_box.Strings.Sort.sort dev_box.Strings.Sort.text_leb
owner_served = refl

-- A directory of one template with a claim.
abbrev claim_store : Store
claim_store = record store { parse_claims = λ content. some (claim ∷ []) }

abbrev template : PodTemplate
template = record { app = app; claims = claim ∷ [] }

claim_read : parse_template claim_store true (codes "t/go.yaml") ≡ ok template
unfolding parse_template dev_box.Config.App.template_selects_non_persistent bytes_dec
claim_read = refl

parse_template-ok_example : AreClaims claim_store true app (claim ∷ [])
parse_template-ok_example =
    parse_template-ok claim_store true (codes "t/go.yaml") template claim_read
