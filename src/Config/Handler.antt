-- ===== src/Config/Handler.antt =====
-- config-server/handler.go: a request for a configuration. Logging is left out. The requests are
-- served one after another as far as the cache is concerned, which a mutex guards.
pub mod Served
use dev_box.Common.{
  ◌&&◌, not, List, [], ◌∷◌, Text, Result, ok, err, ◌==◌, if◌then◌else◌, text_eq, number_eq, length,
}
use dev_box.Strings.Path.{trim_suffix}
use dev_box.Strings.Split.{split, last_part}
use dev_box.Config.App.{AppConfig, Claim, Request, template_selects_non_persistent}
use dev_box.Config.Persistent.{PodApi, enabled, apply_persistent}
use dev_box.Config.Templates.{ConfigError, Store, Cache, PodTemplate, load, settings_template_name}
use dev_box.Config.Storage.{ObjectApi, apply_storage}
use dev_box.Config.Access.{Retry, Kube}
use dev_box.Config.SettingsApp.{Settings, settings_config}

-- `filepath.Base` of a path that ends in a file's name.
abbrev pub base_name : Text → Text
base_name path = last_part (split b'/' path)

-- `filepath.Ext`: from the last dot on, if there is one.
abbrev ext_of : List Text → Text
ext_of [] = []
ext_of (part ∷ []) = []
ext_of (part ∷ next ∷ []) = b'.' ∷ next
ext_of (part ∷ next ∷ more ∷ parts) = ext_of (next ∷ more ∷ parts)

unfoldable pub ext : Text → Text
ext name = ext_of (split b'.' name)

unfoldable pub template_name_of : Text → Text
unfolding ext
template_name_of source = let name = base_name source in trim_suffix name (ext name)

module _ {S : Type 0} (retry : Retry S) (kube : Kube S) (claims : ObjectApi S Claim)
    (sha256 : Text → Text) (store : Store) (list_pods : S → PodApi) (h : Settings) where
  abbrev pub Answer : Type 0
  Answer = Result ConfigError AppConfig × Cache × S

  with_cache : Cache → Result ConfigError AppConfig × S → Answer
  with_cache cache (r, s) = (r, cache, s)

  -- The claims, if the template has any.
  unfoldable pub store_step : Request → Cache → PodTemplate → Text → S → Answer
  unfolding with_cache
  store_step req cache t template_name s =
      if length t.claims == 0
      then (ok t.app, cache, s)
      else with_cache cache
          (apply_storage claims sha256 h.boxes.namespace h.has_client req t template_name s)

  -- Only a template in persistent mode is made the owner's box.
  unfoldable pub box_step : Request → PodTemplate → Text → S → Result ConfigError PodTemplate
  box_step req t template_name s =
      if enabled h.boxes && not (template_selects_non_persistent t.app)
      then elim (apply_persistent sha256 h.boxes (list_pods s) req t.app template_name) [
        | err e ↦ err e
        | ok app ↦ ok (record t { app = app })
      ]
      else ok t

  unfoldable pub serve_template : Request → Cache → PodTemplate → Text → S → Answer
  serve_template req cache t template_name s = elim (box_step req t template_name s) [
    | err e ↦ (err e, cache, s)
    | ok t' ↦ store_step req cache t' template_name s
  ]

  serve_loaded : Request → Result ConfigError (PodTemplate × Text) × Cache → S → Answer
  serve_loaded req (err e, cache) s = (err e, cache, s)
  serve_loaded req (ok (t, source), cache) s =
      serve_template req cache t (template_name_of source) s

  unfoldable pub on_config : Request → Cache → S → Answer
  unfolding serve_loaded
  on_config req cache s =
      if req.username == settings_template_name
      then settings_config retry kube sha256 store h req cache s
      else serve_loaded req (load store (enabled h.boxes) h.dir cache req.username) s
