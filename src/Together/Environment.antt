-- ===== src/Together/Environment.antt =====
-- What the settings application reads of the environment of the pod that config-server answers with.
use dev_box.Common.{
  ℕ, ◌≡◌, refl, ap, true, false, List, [], ◌∷◌, map, length, some, Text, codes, ℤ, ok, ◌>>=◌, ◌≢◌,
  ≢→==, text_eq, bytes_dec, ℕ_discrete,
}
use dev_box.Common.Table.{Table, lookup}
use dev_box.Strings.Trim.{trim_space}
use dev_box.Strings.Split.{join}
use dev_box.Strings.Decimal.{itoa}
use dev_box.Config.App.{AppConfig, Container}
use dev_box.Config.Naming
use dev_box.Config.Access.Listed.{IsTemplateList}
use dev_box.Config.SettingsApp.{settings_app}
use dev_box.Settings.Boxes.{parse_templates}
use dev_box.Settings.Boxes.Parse.{parse_templates-join, parse_max_boxes-itoa, read_cap, Fits64}
use dev_box.Settings.Kube.{Cluster}
use dev_box.Settings.Model.{SettingsModel, names, new_model}
use dev_box.Settings.Model.Sound.{IsSound, started-IsSound}
use dev_box.Settings.Model.World.{launched}
use dev_box.Settings.Startup.{
  Host, getenv, run, measure, is_empty, from_input, or_unavailable, new_box_client,
}
use dev_box.Settings.Startup.Laws.{owner_text, run-MayStart}
use dev_box.Together.{all_valid, names_of_rows}

-- The environment that a pod sets for its first container.
abbrev env_of : List Container → Table Text
env_of [] = []
env_of (c ∷ containers) = c.env

abbrev pub pod_env : AppConfig → Table Text
pod_env app = env_of app.pod.spec.containers

-- The process sees what its container sets, and may see more.
abbrev pub RunsIn : AppConfig → Cluster → Type 0
RunsIn app cluster =
    (key value : Text) → lookup key (pod_env app) ≡ some value → cluster.lookup_env key ≡ some value

-- What the program reads of the environment that the pod sets.
module _ (sha256 : Text → Text) (cluster : Cluster) (host : Host) (image account owner : Text)
    (templates : List Text) (cap : ℤ)
    (env : RunsIn (settings_app image account owner templates cap) cluster) where
  getenv-eq :
      (key value : Text)
      → lookup key (pod_env (settings_app image account owner templates cap)) ≡ some value
      → getenv sha256 cluster host key ≡ value
  getenv-eq key value e = rw (env key value e, getenv)

  reads_owner : owner_text sha256 cluster host ≡ trim_space owner
  unfolding codes settings_app lookup bytes_dec ℕ_discrete
  reads_owner = ap trim_space (getenv-eq (codes "DEV_BOX_AUTHENTICATED_OWNER") owner refl)

  reads_templates : getenv sha256 cluster host (codes "DEV_BOX_BOX_TEMPLATES") ≡ join b',' templates
  unfolding codes settings_app lookup bytes_dec ℕ_discrete
  reads_templates = getenv-eq (codes "DEV_BOX_BOX_TEMPLATES") (join b',' templates) refl

  reads_cap : getenv sha256 cluster host (codes "DEV_BOX_MAX_BOXES") ≡ itoa cap
  unfolding codes settings_app lookup bytes_dec ℕ_discrete
  reads_cap = getenv-eq (codes "DEV_BOX_MAX_BOXES") (itoa cap) refl

  parses_templates :
      IsTemplateList templates
      → parse_templates (getenv sha256 cluster host (codes "DEV_BOX_BOX_TEMPLATES")) ≡ ok templates
  parses_templates (sorted, distinct, listable) =
      rw reads_templates
        (parse_templates-join templates (all_valid templates listable) distinct sorted)

  -- The start lists the boxes of the server's templates.
  pub started_from :
      (m : SettingsModel)
      → IsTemplateList templates
      → run sha256 cluster host ≡ ok m
      → IsSound (length templates) (launched m)
        × (names m.rows ≡ map (Naming.box_pod_name sha256 (trim_space owner)) templates)
  unfolding new_model
  started_from m l e =
      let start = run-MayStart sha256 cluster host m e in
      let same : start.templates ≡ templates = cc (start.listed, parses_templates l) in
      rw start.built (
        rw same (
          rw reads_owner (
            started-IsSound sha256 (trim_space owner) templates start.max_boxes _ start.size.0
                start.size.1,
            names_of_rows sha256 (trim_space owner) templates,
          )))

  -- The start, told by the server's values alone.
  pub started_as :
      (size : ℕ × ℕ)
      → trim_space owner ≢ []
      → IsTemplateList templates
      → Fits64 cap
      → host.is_terminal ≡ true
      → measure host.first_size host.later_sizes ≡ some size
      → is_empty size ≡ false
      → run sha256 cluster host ≡ (
          from_input (read_cap cap) >>= λ max_boxes. ok (
            new_model sha256
              (trim_space owner)
              templates
              max_boxes
              (or_unavailable (new_box_client sha256 cluster host))
              size.0
              size.1))
  unfolding run
  started_as size named l fits terminal measured shown =
      rw (reads_owner, run)
        (rw (≢→== (trim_space owner) [] named) (
          rw terminal (
            rw measured (
              rw shown (
                rw (parses_templates l)
                  (rw reads_cap (rw (parse_max_boxes-itoa cap fits) refl)))))))
