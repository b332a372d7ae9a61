-- ===== src/Config/SettingsApp/Answered.antt =====
-- When the settings application is served, and for whom.
use dev_box.Common.{
  ◌≡◌, ◌≢◌, refl, ap₂, sym, subst, ℤ, All, ◌∷◌, some, true, inl, inr, List, [], Text, Result, ok,
  err, ◌==◌, text_eq, Bool-cases, Result-cases, arith,
}
use dev_box.Strings.Trim.{trim_space}
use dev_box.Config.App.{AppConfig, PodSecurity, disable, Request}
use dev_box.Config.Persistent.{enabled}
use dev_box.Config.Templates.{ConfigError, Store, Cache, persistent_templates}
use dev_box.Config.Access.{
  Retry, Kube, ensure_owner_access, owner_object_name, owner_rules, reconcile,
}
use dev_box.Config.Access.Ensured.{ensure_owner_access-ok}
use dev_box.Config.Access.Eligible.{Lists}
use dev_box.Config.Access.Eligible.Collected.{persistent_templates-Lists}
use dev_box.Config.Access.Listed.{IsTemplateList, persistent_templates-IsTemplateList}
use dev_box.Config.SettingsApp.{
  Settings, settings_app, settings_executable, answer, grant, settings_config,
}

-- What a login to the settings application may do: it runs the one program, as one session, with a
-- terminal and nothing else, in a pod of its own under the account, which is not root and mounts
-- nothing.
abbrev pub IsConfined : Text → AppConfig → Type 0
IsConfined account app =
    (app.security.force_command ≡ settings_executable)
    × (app.pod.shell_command ≡ settings_executable ∷ [])
    × (app.security.max_sessions ≡ 1)
    × All (λ policy. policy ≡ disable)
        (app.security.default_mode ∷ app.security.command ∷ app.security.subsystem
          ∷ app.security.env ∷ app.security.signal ∷ app.security.forwarding
          ∷ app.security.reverse_forwarding ∷ app.security.socket_forwarding
          ∷ app.security.socket_listen ∷ app.security.x11_forwarding ∷ [])
    × (app.pod.spec.service_account_name ≡ account)
    × (app.pod.spec.volumes ≡ [])
    × ((security : PodSecurity) × (app.pod.spec.security ≡ some security)
        × (security.run_as_non_root ≡ some true))

settings_app-IsConfined :
    (image account owner : Text) (templates : List Text) (max_pods : ℤ)
    → IsConfined account (settings_app image account owner templates max_pods)
unfolding settings_app
settings_app-IsConfined image account owner templates max_pods =
    (refl, refl, refl, ground arith, refl, refl, (_, refl, refl))

module _ {S : Type 0} (retry : Retry S) (kube : Kube S) (sha256 : Text → Text) (store : Store)
    (h : Settings) where
  answer-ok :
      (owner : Text) (templates : List Text) (cache : Cache) (r : Result ConfigError Text) (s : S)
      (app : AppConfig) (cache' : Cache) (s' : S)
      → answer retry kube sha256 store h owner templates cache (r, s) ≡ (ok app, cache', s')
      → (account : Text) × (r ≡ ok account)
        × (cache ≡ cache')
        × (s ≡ s')
        × (app ≡ settings_app h.settings_image account owner templates h.boxes.max_pods)
  unfolding answer
  answer-ok owner templates cache (err e) s app cache' s' a = absurd (ground arith)
  answer-ok owner templates cache (ok account) s app cache' s' a =
      (account, refl, ground arith, ground arith, ground arith)

  pub settings_config-ok :
      (req : Request) (cache : Cache) (s : S) (app : AppConfig) (cache' : Cache) (s' : S)
      → settings_config retry kube sha256 store h req cache s ≡ (ok app, cache', s')
      → let owner = req.authenticated_username in
        let account = owner_object_name sha256 owner in
        (trim_space owner ≢ [])
        × (h.settings_image ≢ [])
        × (templates : List Text) × (persistent_templates store (enabled h.boxes) h.dir cache
            ≡ (ok templates, cache'))
        × IsTemplateList templates
        × Lists store (enabled h.boxes) h.dir templates
        × (reconcile retry kube sha256 h.boxes.namespace account
              (owner_rules sha256 owner templates)
              s
            ≡ (ok tt, s'))
        × IsConfined account app
        × (app ≡ settings_app h.settings_image account owner templates h.boxes.max_pods)
  unfolding settings_config grant
  settings_config-ok req cache s app cache' s' e =
      let owner = req.authenticated_username in
      let r = persistent_templates store (enabled h.boxes) h.dir cache in
      elim (Bool-cases (trim_space owner == [])) [
        | inl blank ↦ absurd (ground arith)
        | inr filled ↦ elim (Bool-cases (h.settings_image == [])) [
          | inl missing ↦ absurd (ground arith)
          | inr image ↦ elim (Result-cases r.0) [
            | inr (x, failed) ↦ absurd (ground arith)
            | inl (templates, listed) ↦
                let a =
                  ensure_owner_access retry kube sha256 h.boxes.namespace h.has_client owner
                    templates s in
                let granted = rw (filled, settings_config) at e in
                let (account, given, kept, state, same) =
                  answer-ok owner templates r.1 a.0 a.1 app cache' s'
                    (rw (listed, grant) at (rw image at granted)) in
                let found : r ≡ (ok templates, cache') = ap₂ (λ x y. (x, y)) listed kept in
                let (its_name, ensured) =
                  ensure_owner_access-ok retry kube sha256 h.boxes.namespace h.has_client owner
                    templates s account s' (ap₂ (λ x y. (x, y)) given state) in
                (
                  ground arith,
                  ground arith,
                  templates,
                  found,
                  persistent_templates-IsTemplateList store (enabled h.boxes) h.dir cache cache'
                      templates found,
                  persistent_templates-Lists store (enabled h.boxes) h.dir cache cache' templates
                      found,
                  rw its_name at ensured,
                  subst (IsConfined (owner_object_name sha256 owner)) (sym (rw its_name at same))
                      (settings_app-IsConfined _ _ _ _ _),
                  rw its_name at same,
                )
          ]
        ]
      ]
