-- ===== src/Tests/Serving.antt =====
-- The configuration server at concrete inputs: the template `go`, and the cap.
use dev_box.Common.{
  ◌≡◌, ◌≢◌, refl, ◌⊎◌, inl, inr, ◌↔◌, ==_refl, Bool, true, false, List, [], ◌∷◌, map, contains,
  Option, none, some, Text, codes, Result, ok, err, pos, leb_ℤ, ◌==◌, if◌then◌else◌, text_eq,
  bytes_dec, ℕ_discrete, arith,
}
use dev_box.Strings.Trim.{trim_space}
use dev_box.Strings.Split.{join}
use dev_box.Config.App.{Claim, Request, persistent_mode}
use dev_box.Config.Templates.{
  Store, found, FileInfo, Parsed, Cache, parse_template, load, persistent_templates,
}
use dev_box.Config.Templates.Cache.{IsCoherent, IsVersioned, fresh_load, load-eq-fresh_load}
use dev_box.Config.Persistent.{PodApi, Pod, BoxPolicy, enforce_cap, apply_persistent, inject}
use dev_box.Config.Persistent.Laws.{MayPass, owner_pods, enforce_cap-ok_iff}
use dev_box.Settings.Kube.{BoxClient, unavailable, other_error}
use dev_box.Tests.Fixtures.{digest, app}

abbrev info : FileInfo
info = record { size = 1; mod_time = 1 }

abbrev pub store : Store
store = record {
  stat = λ path. found info;
  read_file = λ path. some [];
  read_dir = λ dir. some ((codes "go.yaml", false) ∷ (codes "notes", false) ∷ []);
  parse_app = λ content. some app;
  parse_claims = λ content. some [];
  is_dns1123_label = λ name. true;
}

abbrev version : Text → FileInfo → Parsed
version path i = parse_template store true path

store-IsVersioned : IsVersioned store true version
store-IsVersioned path i h = refl

nil-IsCoherent : IsCoherent version []
unfolding dev_box.Common.Table.lookup
nil-IsCoherent path entry h = absurd (ground arith)

abbrev pub warm : Cache
warm = (load store true (codes "t") [] (codes "go")).1

warm-IsCoherent : IsCoherent version warm
warm-IsCoherent =
    (load-eq-fresh_load version store true store-IsVersioned (codes "t") [] (codes "go")
      nil-IsCoherent).1

load-eq-fresh_load_example :
    ((load store true (codes "t") warm (codes "go")).0
      ≡ fresh_load store true (codes "t") (codes "go"))
    × IsCoherent version (load store true (codes "t") warm (codes "go")).1
load-eq-fresh_load_example =
    load-eq-fresh_load version store true store-IsVersioned (codes "t") warm (codes "go")
      warm-IsCoherent

pub go_listed :
    persistent_templates store true (codes "t") []
    ≡ (ok (codes "go" ∷ []), (load store true (codes "t") [] (codes "go")).1)
unfolding codes persistent_templates dev_box.Config.Templates.template_of_file
    dev_box.Strings.Path.has_suffix bytes_dec ℕ_discrete dev_box.Config.Templates.is_skipped
    dev_box.Config.Templates.valid_template_name dev_box.Strings.Path.trim_suffix load
    dev_box.Config.Templates.load_first dev_box.Config.Templates.safe_join
    dev_box.Strings.Path.clean dev_box.Strings.Split.split join dev_box.Strings.Path.rel
    dev_box.Strings.Path.join_path dev_box.Strings.Path.has_prefix
    dev_box.Config.Templates.read_cached dev_box.Common.Table.insert dev_box.Common.Table.lookup
    dev_box.Config.App.template_selects_non_persistent dev_box.Config.Templates.check_claims
    dev_box.Config.Templates.collect parse_template dev_box.Config.Templates.read_claims
    dev_box.Strings.Path.cut_suffix dev_box.Strings.Sort.place dev_box.Strings.Sort.sort
    dev_box.Strings.Sort.text_leb
go_listed = refl

abbrev client : BoxClient
client = unavailable (other_error (codes "no cluster"))

abbrev pub boxes : BoxPolicy
boxes = record { operating_mode = persistent_mode; namespace = codes "ns"; max_pods = pos 1 }

-- Ann has a live box of another template.
abbrev list_pods : PodApi
list_pods namespace selector =
    ok ((record { name = codes "other"; terminating = false; phase = codes "Running" }) ∷ [])

-- And here she has none.
abbrev pub no_pods : PodApi
no_pods namespace selector = ok []

enforce_cap-ok_iff_example :
    (enforce_cap digest boxes list_pods (codes "ann") (codes "box") ≡ ok tt) ↔ (
      (leb_ℤ boxes.max_pods (pos 0) ≡ true)
      ⊎ ((pods : List Pod) × (owner_pods digest boxes list_pods (codes "ann") ≡ ok pods)
          × MayPass boxes.max_pods (codes "box") pods))
enforce_cap-ok_iff_example = enforce_cap-ok_iff digest boxes list_pods (codes "ann") (codes "box")

abbrev pub req : Request
req = record { username = codes "go"; authenticated_username = codes "ann" }

pub go_served :
    apply_persistent digest boxes no_pods req app (codes "go")
    ≡ ok (inject digest (trim_space (codes "ann")) (codes "go") app)
unfolding codes apply_persistent bytes_dec trim_space ℕ_discrete enforce_cap
    dev_box.Config.Persistent.live_pod_names_for_owner
go_served = refl
