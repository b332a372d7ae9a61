-- ===== src/Config/Handler/Served.antt =====
-- What a served configuration is.
use dev_box.Common.{
  ◌≡◌, ◌≢◌, refl, ap, ap₂, ◌∙◌, ◌⊎◌, inl, inr, Bool, true, false, ◌&&◌, not, List, [], ◌∷◌, Text,
  length, ok, ◌==◌, ≢→==, text_eq, number_eq, Bool-cases, Result-cases, arith,
}
use dev_box.Strings.Trim.{trim_space}
use dev_box.Config.App.{AppConfig, Claim, Request, template_selects_non_persistent}
use dev_box.Config.Naming.{box_pod_name}
use dev_box.Config.Persistent.{PodApi, enabled, enforce_cap, apply_persistent}
use dev_box.Config.Persistent.Identity.{IsBox, apply_persistent-ok}
use dev_box.Config.Templates.{Store, Cache, PodTemplate, load, settings_template_name}
use dev_box.Config.Storage.{ObjectApi, apply_storage}
use dev_box.Config.Storage.Volumes.{SameButVolumes, AllEnsured, apply_storage-ok}
use dev_box.Config.Access.{Retry, Kube}
use dev_box.Config.SettingsApp.{Settings}
use dev_box.Config.Handler.{
  with_cache, store_step, box_step, serve_template, serve_loaded, template_name_of, on_config,
}

SameButVolumes-eq : (a b : AppConfig) → a ≡ b → SameButVolumes a b
SameButVolumes-eq a b e = rw (← e) refl

module _ {S : Type 0} (retry : Retry S) (kube : Kube S) (claims : ObjectApi S Claim)
    (sha256 : Text → Text) (store : Store) (list_pods : S → PodApi) (h : Settings) where
  AllEnsured-nil :
      (pod_name owner template_name : Text) (l : List Claim)
      → (length l == 0) ≡ true
      → AllEnsured claims sha256 h.boxes.namespace pod_name owner template_name l
  AllEnsured-nil pod_name owner template_name [] e = tt
  AllEnsured-nil pod_name owner template_name (c ∷ l) e = absurd (ground arith)

  abbrev StoredAs : Request → PodTemplate → Text → AppConfig → Type 0
  StoredAs req t template_name app =
      SameButVolumes t.app app
      × AllEnsured claims sha256 h.boxes.namespace t.app.pod.name
          (trim_space req.authenticated_username) template_name t.claims

  store_step-ok :
      (req : Request) (cache : Cache) (t : PodTemplate) (template_name : Text) (s : S)
      (app : AppConfig) (cache' : Cache) (s' : S)
      → store_step retry kube claims sha256 store list_pods h req cache t template_name s
        ≡ (ok app, cache', s')
      → (cache ≡ cache') × StoredAs req t template_name app
  unfolding store_step with_cache
  store_step-ok req cache t template_name s app cache' s' e =
      elim (Bool-cases (length t.claims == 0)) [
        | inl without ↦ (
          ground arith,
          (
            SameButVolumes-eq t.app app (ground arith),
            AllEnsured-nil t.app.pod.name (trim_space req.authenticated_username) template_name
                t.claims without,
          ),
        )
        | inr with_claims ↦
            let r =
              apply_storage claims sha256 h.boxes.namespace h.has_client req t template_name s in
            let stored : r ≡ (ok app, s') = ground arith in
            let (_, _, ensured, same, _) =
              apply_storage-ok claims sha256 h.boxes.namespace h.has_client req t template_name s
                app s' stored in
            (ground arith, (same, ensured))
      ]

  -- Whether a template is made the owner's box.
  abbrev pub makes_box : PodTemplate → Bool
  makes_box t = enabled h.boxes && not (template_selects_non_persistent t.app)

  -- `boxed` is the template's configuration, as the owner's box if the template is made one, which
  -- needs an owner and the cap's consent.
  abbrev pub BoxedAs : Request → PodTemplate → Text → S → AppConfig → Type 0
  BoxedAs req t template_name s boxed =
      let owner = trim_space req.authenticated_username in
      ((makes_box t ≡ true)
        × (owner ≢ [])
        × (enforce_cap sha256 h.boxes (list_pods s) owner (box_pod_name sha256 owner template_name)
            ≡ ok tt)
        × IsBox sha256 owner template_name t.app boxed)
      ⊎ ((makes_box t ≡ false) × (boxed ≡ t.app))

  box_step-ok :
      (req : Request) (t : PodTemplate) (template_name : Text) (s : S) (t' : PodTemplate)
      → box_step retry kube claims sha256 store list_pods h req t template_name s ≡ ok t'
      → (t'.claims ≡ t.claims) × BoxedAs req t template_name s t'.app
  unfolding box_step
  box_step-ok req t template_name s t' e = elim (Bool-cases (makes_box t)) [
    | inr plain ↦ (ground arith, inr (plain, ground arith))
    | inl persistent ↦
        elim (Result-cases
          (apply_persistent sha256 h.boxes (list_pods s) req t.app template_name)) [
            | inr (x, refused) ↦ absurd (ground arith)
            | inl (app, made) ↦
                let same : app ≡ t'.app = ground arith in
                let (owned, passed, box) =
                  apply_persistent-ok sha256 h.boxes (list_pods s) req t.app template_name t'.app
                    (made ∙ ap ok same) in
                (ground arith, inl (persistent, owned, passed, box))
          ]
  ]

  -- What is served of a template: the box, whose claims were ensured and whose volumes refer to them.
  abbrev pub ServedAs : Request → PodTemplate → Text → S → AppConfig → Type 0
  ServedAs req t template_name s app =
      (boxed : AppConfig) × BoxedAs req t template_name s boxed
      × SameButVolumes boxed app
      × AllEnsured claims sha256 h.boxes.namespace boxed.pod.name
          (trim_space req.authenticated_username) template_name t.claims

  serve_template-ok :
      (req : Request) (cache : Cache) (t : PodTemplate) (template_name : Text) (s : S)
      (app : AppConfig) (cache' : Cache) (s' : S)
      → serve_template retry kube claims sha256 store list_pods h req cache t template_name s
        ≡ (ok app, cache', s')
      → (cache ≡ cache') × ServedAs req t template_name s app
  unfolding serve_template
  serve_template-ok req cache t template_name s app cache' s' e =
      elim (Result-cases
        (box_step retry kube claims sha256 store list_pods h req t template_name s)) [
          | inr (x, refused) ↦ absurd (ground arith)
          | inl (t', made) ↦
              let (same_claims, boxed) = box_step-ok req t template_name s t' made in
              let (kept, (same, ensured)) =
                store_step-ok req cache t' template_name s app cache' s'
                  (rw (made, serve_template) at e) in
              (kept, (t'.app, boxed, same, rw same_claims at ensured))
        ]

  -- A configuration that is served, but for the settings application, is that of the template which
  -- the SSH username loads: as the owner's box where the server is persistent and the template does
  -- not opt out, and then only for an owner with a name and with the cap's consent. Its claims were
  -- ensured for the owner, and the rest of the configuration but the volumes is the template's.
  pub on_config-ok :
      (req : Request) (cache : Cache) (s : S) (app : AppConfig) (cache' : Cache) (s' : S)
      → req.username ≢ settings_template_name
      → on_config retry kube claims sha256 store list_pods h req cache s ≡ (ok app, cache', s')
      → (t : PodTemplate) × (source : Text) × (load store (enabled h.boxes) h.dir cache req.username
          ≡ (ok (t, source), cache'))
        × ServedAs req t (template_name_of source) s app
  unfolding on_config serve_loaded
  on_config-ok req cache s app cache' s' other e =
      let r = load store (enabled h.boxes) h.dir cache req.username in
      let served = rw (≢→== req.username settings_template_name other, on_config) at e in
      elim (Result-cases r.0) [
        | inr (x, failed) ↦ absurd (ground arith)
        | inl ((t, source), loaded) ↦
            let (kept, result) =
              serve_template-ok req r.1 t (template_name_of source) s app cache' s'
                (rw (loaded, serve_loaded) at served) in
            (t, source, ap₂ (λ x y. (x, y)) loaded kept, result)
      ]
