-- ===== src/Together/Session.antt =====
-- The settings application in the pod that config-server answers with.
use dev_box.Common.{
  ℕ, ◌≡◌, ◌∙◌, subst, true, false, List, All, length, some, Text, ok, ◌>>=◌, text_eq,
}
use dev_box.Strings.Trim.{trim_space}
use dev_box.Config.App.{AppConfig, Request}
use dev_box.Config.Persistent.{enabled}
use dev_box.Config.Templates.{Store, Cache, persistent_templates}
use dev_box.Config.Access.{Retry, Kube, owner_object_name, owner_rules, reconcile}
use dev_box.Config.SettingsApp.{Settings, settings_config}
use dev_box.Config.SettingsApp.Answered.{settings_config-ok}
use dev_box.Settings.Boxes.Parse.{read_cap, Fits64}
use dev_box.Settings.Kube.{Cluster}
use dev_box.Settings.Model.{SettingsModel, Command, Msg, init, update, new_model}
use dev_box.Settings.Model.Invariant.{update-Keeps}
use dev_box.Settings.Model.Sound.{Reaches-IsSound, Reaches-names}
use dev_box.Settings.Model.World.{World, Reaches, launched}
use dev_box.Settings.Model.Asks.{init-IsAbout, update-AreAbout}
use dev_box.Settings.Startup.{
  Host, run, measure, is_empty, from_input, or_unavailable, new_box_client,
}
use dev_box.Together.Environment.{RunsIn, started_from, started_as}
use dev_box.Together.Permitted.{IsGranted, All-IsGranted}

module _ {S : Type 0} (retry : Retry S) (kube : Kube S) (sha256 : Text → Text) (store : Store)
    (h : Settings) (cluster : Cluster) (host : Host) where
  -- Where the settings application that config-server served an owner runs in the pod of that answer: in every world that it reaches, whatever message comes, it gets and deletes only pods that the rules allow with which the server ensured the owner's role for the answer, those for the templates that it listed. The same holds of its first commands.
  pub update-IsGranted :
      (req : Request) (cache : Cache) (s : S) (app : AppConfig) (cache' : Cache) (s' : S)
      → settings_config retry kube sha256 store h req cache s ≡ (ok app, cache', s')
      → RunsIn app cluster
      → (m : SettingsModel) → run sha256 cluster host ≡ ok m
      → (w : World) → Reaches (launched m) w
      → (msg : Msg) (m' : SettingsModel) (commands : List Command)
      → update w.model msg ≡ some (m', commands)
      → let owner = req.authenticated_username in
        (templates : List Text) × (persistent_templates store (enabled h.boxes) h.dir cache
          ≡ (ok templates, cache'))
        × (reconcile retry kube sha256 h.boxes.namespace
              (owner_object_name sha256 owner)
              (owner_rules sha256 owner templates)
              s
            ≡ (ok tt, s'))
        × All (IsGranted (owner_rules sha256 owner templates)) (init m)
        × All (IsGranted (owner_rules sha256 owner templates)) commands
  update-IsGranted req cache s app cache' s' served env m starts w reached msg m' commands e =
      let owner = req.authenticated_username in
      let (named, image, templates, listed, listable, _, ensured, _, same) =
        settings_config-ok retry kube sha256 store h req cache s app cache' s' served in
      let (sound, pods) =
        started_from sha256 cluster host h.settings_image (owner_object_name sha256 owner) owner
          templates h.boxes.max_pods (subst (λ a. RunsIn a cluster) same env) m listable starts in
      let lists = Reaches-names (length templates) sound reached in
      let (valid, kept) =
        rw e at (update-Keeps w.model msg (Reaches-IsSound sound reached).valid) in
      (
        templates,
        listed,
        ensured,
        All-IsGranted sha256 owner templates m.rows pods (init m) (init-IsAbout m),
        All-IsGranted sha256 owner templates m'.rows (kept ∙ lists ∙ pods) commands
            (rw e at (update-AreAbout w.model msg)),
      )

  -- The settings application that config-server served an owner, in the pod of that answer, on a terminal of a known size that is not empty, starts with the trimmed owner, the server's templates and its cap, which fits 64 bits; or it refuses that cap, if it is negative.
  pub run-settings_config :
      (req : Request) (cache : Cache) (s : S) (app : AppConfig) (cache' : Cache) (s' : S)
      → settings_config retry kube sha256 store h req cache s ≡ (ok app, cache', s')
      → RunsIn app cluster
      → Fits64 h.boxes.max_pods
      → host.is_terminal ≡ true
      → (size : ℕ × ℕ) → measure host.first_size host.later_sizes ≡ some size
      → is_empty size ≡ false
      → (templates : List Text) × (persistent_templates store (enabled h.boxes) h.dir cache
          ≡ (ok templates, cache'))
        × (run sha256 cluster host ≡ (
            from_input (read_cap h.boxes.max_pods) >>= λ max_boxes. ok (
              new_model sha256
                (trim_space req.authenticated_username)
                templates
                max_boxes
                (or_unavailable (new_box_client sha256 cluster host))
                size.0
                size.1)))
  run-settings_config req cache s app cache' s' served env fits terminal size measured shown =
      let owner = req.authenticated_username in
      let (named, image, templates, listed, listable, _, ensured, _, same) =
        settings_config-ok retry kube sha256 store h req cache s app cache' s' served in
      (
        templates,
        listed,
        started_as sha256 cluster host h.settings_image (owner_object_name sha256 owner) owner
            templates h.boxes.max_pods (subst (λ a. RunsIn a cluster) same env) size named listable
            fits terminal measured shown,
      )
