-- ===== src/Together/Isolation.antt =====
-- That a session of the settings application leaves the boxes of other owners alone.
use dev_box.Common.{
  ℕ, ◌≡◌, refl, sym, ◌∙◌, ◌⊎◌, inl, inr, true, not, List, [], ◌∷◌, ◌++◌, map, All, all, contains,
  some, Text, codes, ok, ◌==◌, number_eq, text_eq, ==→≡, Bool-cases, arith,
}
use dev_box.Strings.Trim.{trim_space}
use dev_box.Strings.Split.{Lacks}
use dev_box.Config.App.{AppConfig, Request}
use dev_box.Config.Naming.{box_pod_name, short_hash}
use dev_box.Config.Naming.Pods.{Collides, box_pod_name_separates}
use dev_box.Config.Persistent.{BoxPolicy, PodApi, enabled, apply_persistent}
use dev_box.Config.Persistent.Identity.{apply_persistent-ok}
use dev_box.Config.Templates.{Store, Cache, persistent_templates, valid_template_name, is_name_byte}
use dev_box.Config.Access.{Retry, Kube, Rule, owner_rules}
use dev_box.Config.Access.Grants.{allows, allows-owner_rules}
use dev_box.Config.Access.Listed.{IsListable, persistent_templates-IsTemplateList}
use dev_box.Config.SettingsApp.{Settings, settings_config}
use dev_box.Settings.Kube.{Cluster}
use dev_box.Settings.Model.{SettingsModel, Command, tick, quit, refresh, delete, Msg, update}
use dev_box.Settings.Model.Deletion.{deleted}
use dev_box.Settings.Model.World.{World, Reaches, launched}
use dev_box.Settings.Startup.{Host, run}
use dev_box.Together.Environment.{RunsIn}
use dev_box.Together.Permitted.{IsGranted}
use dev_box.Together.Session.{update-IsGranted}

name_byte-ne-zero : (c : ℕ) → is_name_byte c ≡ true → not (c == 0) ≡ true
name_byte-ne-zero c h = ground arith

all-Lacks_zero : (s : Text) → all is_name_byte s ≡ true → Lacks 0 s
all-Lacks_zero [] h = refl
all-Lacks_zero (c ∷ s) h = ground (arith, name_byte-ne-zero c, all-Lacks_zero s)

valid_template_name-Lacks : (s : Text) → valid_template_name s ≡ true → Lacks 0 s
unfolding valid_template_name
valid_template_name-Lacks [] h = refl
valid_template_name-Lacks (c ∷ s) h = all-Lacks_zero (c ∷ s) h

-- The member that a listed name is of.
contains-map :
    (f : Text → Text) (l : List Text) (name : Text)
    → contains (map f l) name ≡ true
    → (x : Text) × (contains l x ≡ true) × (name ≡ f x)
contains-map f [] name h = absurd (ground arith)
contains-map f (x ∷ l) name h = elim (Bool-cases (name == f x)) [
  | inl here ↦ (x, ground arith, ==→≡ name (f x) here)
  | inr other ↦ let (y, there, e) = contains-map f l name (ground arith) in (y, ground arith, e)
]

contains-All : (P : Text → Type 0) (l : List Text) (x : Text) → All P l → contains l x ≡ true → P x
contains-All P [] x h c = absurd (ground arith)
contains-All P (y ∷ l) x (p, h) c = elim (Bool-cases (x == y)) [
  | inl here ↦ rw (==→≡ x y here) p
  | inr other ↦ contains-All P l x h (ground arith)
]

deleted-IsGranted :
    (rules : List Rule) (commands : List Command) (name : Text)
    → All (IsGranted rules) commands
    → contains (deleted commands) name ≡ true
    → allows rules (codes "delete") name ≡ true
deleted-IsGranted rules [] name h c = absurd (ground arith)
deleted-IsGranted rules (tick ∷ commands) name (g, h) c = deleted-IsGranted rules commands name h c
deleted-IsGranted rules (quit ∷ commands) name (g, h) c = deleted-IsGranted rules commands name h c
deleted-IsGranted rules (refresh pods ∷ commands) name (g, h) c =
    deleted-IsGranted rules commands name h c
deleted-IsGranted rules (delete pod ∷ commands) name (g, h) c = elim (Bool-cases (name == pod)) [
  | inl here ↦ rw (==→≡ name pod here) g
  | inr other ↦ deleted-IsGranted rules commands name h (ground arith)
]

-- The truncated hash does not tell a login's box from one of an owner's own.
abbrev pub CollidesWith : (Text → Text) → Text → Text → Text → List Text → Type 0
CollidesWith sha256 other template owner templates =
    (t : Text) × (contains templates t ≡ true)
    × Collides (λ s. short_hash sha256 s 10) (other ++ 0 ∷ template) (owner ++ 0 ∷ t)

-- What an owner's role allows on a box that was made for a login.
same_owner :
    (sha256 : Text → Text) (owner : Text) (templates : List Text) (boxes : BoxPolicy)
    (list_pods : PodApi) (login : Request) (cfg : AppConfig) (template : Text) (cfg' : AppConfig)
    → All IsListable templates
    → valid_template_name template ≡ true
    → apply_persistent sha256 boxes list_pods login cfg template ≡ ok cfg'
    → allows (owner_rules sha256 owner templates) (codes "delete") cfg'.pod.name ≡ true
    → ((trim_space login.authenticated_username ≡ trim_space owner)
        × (contains templates template ≡ true))
      ⊎ CollidesWith sha256
          (trim_space login.authenticated_username)
          template
          (trim_space owner)
          templates
same_owner sha256 owner templates boxes list_pods login cfg template cfg' listable valid served a =
    let (filled, passed, box) =
      apply_persistent-ok sha256 boxes list_pods login cfg template cfg' served in
    let listed =
      sym (allows-owner_rules sha256 owner templates (codes "delete") cfg'.pod.name (inr refl))
      ∙ a in
    let (t, there, e) =
      contains-map (box_pod_name sha256 (trim_space owner)) templates cfg'.pod.name listed in
    elim (box_pod_name_separates sha256 (trim_space login.authenticated_username) (trim_space owner)
      template t (valid_template_name-Lacks template valid)
      (valid_template_name-Lacks t (contains-All IsListable templates t listable there).0)
      (sym box.named ∙ e)) [
        | inr (apart, collision) ↦ inr (t, there, (apart, collision))
        | inl (owner_is, template_is) ↦ inl (owner_is, rw template_is there)
      ]

module _ {S : Type 0} (retry : Retry S) (kube : Kube S) (sha256 : Text → Text) (store : Store)
    (h : Settings) (cluster : Cluster) (host : Host) where
  -- A session of the settings application, served to an owner by config-server and run in the pod of that answer, in any world that it reaches, deletes a box that config-server made for a login, of a template with a valid name, only if the login's owner is the session's, up to blanks around the name, and the template is one that was listed for the session; or the truncated hash of the box's owner and template is that of the session's owner and a listed template.
  pub deleted-IsOwn :
      (req : Request) (cache : Cache) (s : S) (app : AppConfig) (cache' : Cache) (s' : S)
      → settings_config retry kube sha256 store h req cache s ≡ (ok app, cache', s')
      → RunsIn app cluster
      → (m : SettingsModel) → run sha256 cluster host ≡ ok m
      → (w : World) → Reaches (launched m) w
      → (msg : Msg) (m' : SettingsModel) (commands : List Command)
      → update w.model msg ≡ some (m', commands)
      → (boxes : BoxPolicy) (list_pods : PodApi) (login : Request) (cfg : AppConfig)
        (template : Text) (cfg' : AppConfig)
      → valid_template_name template ≡ true
      → apply_persistent sha256 boxes list_pods login cfg template ≡ ok cfg'
      → contains (deleted commands) cfg'.pod.name ≡ true
      → let other = trim_space login.authenticated_username in
        let owner = trim_space req.authenticated_username in
        (templates : List Text) × (persistent_templates store (enabled h.boxes) h.dir cache
          ≡ (ok templates, cache'))
        × (((other ≡ owner) × (contains templates template ≡ true))
            ⊎ CollidesWith sha256 other template owner templates)
  deleted-IsOwn req cache s app cache' s' served env m starts w reached msg m' commands e boxes
        list_pods login cfg template cfg' valid made gone =
      let (templates, listed, ensured, first, later) =
        update-IsGranted retry kube sha256 store h cluster host req cache s app cache' s' served env
          m starts w reached msg m' commands e in
      let (sorted, distinct, listable) =
        persistent_templates-IsTemplateList store (enabled h.boxes) h.dir cache cache' templates
          listed in
      (
        templates,
        listed,
        same_owner sha256 req.authenticated_username templates boxes list_pods login cfg template
            cfg' listable valid made (deleted-IsGranted _ commands cfg'.pod.name later gone),
      )
