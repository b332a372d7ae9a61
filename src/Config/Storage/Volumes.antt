-- ===== src/Config/Storage/Volumes.antt =====
-- The claims of a served template, and the volumes that refer to them.
use dev_box.Common.{
  ◌≡◌, ◌≢◌, refl, sym, ap, ap₂, Option-cases, ◌∙◌, inl, inr, Bool, true, false, not, ◌||◌, List, [],
  ◌∷◌, ◌++◌, map, none, some, Text, Result, ok, err, ◌==◌, text_eq, Bool-cases, Result-cases,
  if◌then◌else◌, arith,
}
use dev_box.Common.Table.{Table, lookup, insert, lookup-insert}
use dev_box.Strings.Trim.{trim_space}
use dev_box.Config.App.{AppConfig, Claim, Request, Volume}
use dev_box.Config.Templates.{ConfigError, PodTemplate}
use dev_box.Config.Storage.{
  ObjectApi, ensure_claim, ensure_all, refer, rename_volumes, with_volumes, apply_storage,
}

abbrev pub declares : List Claim → Text → Bool
declares [] name = false
declares (c ∷ claims) name = name == c.name || declares claims name

-- The name in the cluster of the claim that a template declares as `name`.
abbrev pub cluster_name : Text → Text → Text
cluster_name pod_name name = pod_name ++ b'-' ∷ name

-- A reference to a declared claim, as a served volume has it. Others stay.
abbrev pub resolve : Text → List Claim → Text → Text
resolve pod_name claims name = if declares claims name then cluster_name pod_name name else name

abbrev pub resolve_volume : Text → List Claim → Volume → Volume
resolve_volume pod_name claims v = record v {
  claim = elim v.claim [ none ↦ none | some name ↦ some (resolve pod_name claims name) ];
}

abbrev pub put_volumes : AppConfig → List Volume → AppConfig
put_volumes a volumes = record a {
  pod = record a.pod { spec = record a.pod.spec { volumes = volumes } };
}

-- The same configuration but for the volumes.
abbrev pub SameButVolumes : AppConfig → AppConfig → Type 0
SameButVolumes a b = b ≡ put_volumes a b.pod.spec.volumes

module _ {S : Type 0} (claims : ObjectApi S Claim) (sha256 : Text → Text) (namespace : Text) where
  -- Each claim was ensured, in some state, under its name in the cluster.
  abbrev pub AllEnsured : Text → Text → Text → List Claim → Type 0
  AllEnsured pod_name owner template_name [] = Unit
  AllEnsured pod_name owner template_name (c ∷ more) =
      ((s : S) × (s' : S) × (ensure_claim claims sha256 namespace c (cluster_name pod_name c.name)
            owner template_name s
          ≡ (ok tt, s')))
      × AllEnsured pod_name owner template_name more

  abbrev Resolves : Text → List Claim → Table Text → Table Text → Type 0
  Resolves pod_name more names names' =
      (key : Text)
      → lookup key names'
        ≡ (if declares more key then some (cluster_name pod_name key) else lookup key names)

  Resolves-cons :
      (pod_name : Text) (c : Claim) (more : List Claim) (names names' : Table Text)
      → Resolves pod_name more (insert c.name (cluster_name pod_name c.name) names) names'
      → Resolves pod_name (c ∷ more) names names'
  Resolves-cons pod_name c more names names' h key =
      ground (arith, h key, lookup-insert key c.name (cluster_name pod_name c.name) names)

  ensure_all-ok :
      (pod_name owner template_name : Text) (names : Table Text) (more : List Claim) (s : S)
      (names' : Table Text) (s' : S)
      → ensure_all claims sha256 namespace pod_name owner template_name names more s
        ≡ (ok names', s')
      → AllEnsured pod_name owner template_name more × Resolves pod_name more names names'
  unfolding ensure_all
  ensure_all-ok pod_name owner template_name names [] s names' s' h =
      let same : names ≡ names' = ground arith in (tt, λ key. ap (lookup key) (sym same))
  ensure_all-ok pod_name owner template_name names (c ∷ more) s names' s' h =
      let name = cluster_name pod_name c.name in
      let r = ensure_claim claims sha256 namespace c name owner template_name s in
      elim (Result-cases r.0) [
        | inr (e, failed) ↦ absurd (ground arith)
        | inl (u, ensured) ↦
            let rest =
              ensure_all-ok pod_name owner template_name (insert c.name name names) more r.1 names'
                s' (ground arith) in
            (
              ((s, r.1, ap (λ x. (x, r.1)) ensured), rest.0),
              Resolves-cons pod_name c more names names' rest.1,
            )
      ]

  refer-resolve :
      (pod_name : Text) (more : List Claim) (names : Table Text)
      → Resolves pod_name more [] names
      → (v : Volume)
      → record v { claim = refer claims sha256 namespace names v.claim }
        ≡ resolve_volume pod_name more v
  unfolding refer lookup
  refer-resolve pod_name more names h v = elim (Option-cases v.claim) [
    | inl none_such ↦ rw (none_such, refer) refl
    | inr (name, refers) ↦
        rw (refers, refer) (ap (λ x. record v { claim = some x }) (ground (arith, h name)))
  ]

  rename_volumes-resolve :
      (pod_name : Text) (more : List Claim) (names : Table Text)
      → Resolves pod_name more [] names
      → (volumes : List Volume)
      → rename_volumes claims sha256 namespace names volumes
        ≡ map (resolve_volume pod_name more) volumes
  unfolding rename_volumes
  rename_volumes-resolve pod_name more names h [] = refl
  rename_volumes-resolve pod_name more names h (v ∷ volumes) =
      ap₂ ◌∷◌ (refer-resolve pod_name more names h v)
        (rename_volumes-resolve pod_name more names h volumes)

  with_volumes-ok :
      (app : AppConfig) (r : Result ConfigError (Table Text)) (s : S) (app' : AppConfig) (s' : S)
      → with_volumes claims sha256 namespace app (r, s) ≡ (ok app', s')
      → (names : Table Text) × (r ≡ ok names)
        × (s ≡ s')
        × SameButVolumes app app'
        × (app'.pod.spec.volumes
            ≡ rename_volumes claims sha256 namespace names app.pod.spec.volumes)
  unfolding with_volumes
  with_volumes-ok app (err e) s app' s' h = absurd (ground arith)
  with_volumes-ok app (ok names) s app' s' h =
      let volumes = rename_volumes claims sha256 namespace names app.pod.spec.volumes in
      let same : put_volumes app volumes ≡ app' = ground arith in
      (names, refl, ground arith, rw (← same) refl, rw (← same) refl)

  -- A configuration with claims is served only if each declared claim was ensured, under the pod's
  -- name and its own, for the authenticated owner and this template. The pod's volumes then refer to
  -- those claims, and the rest of the configuration is the template's.
  pub apply_storage-ok :
      (has_client : Bool) (req : Request) (t : PodTemplate) (template_name : Text) (s : S)
      (app : AppConfig) (s' : S)
      → apply_storage claims sha256 namespace has_client req t template_name s ≡ (ok app, s')
      → (has_client ≡ true)
        × (namespace ≢ [])
        × AllEnsured t.app.pod.name (trim_space req.authenticated_username) template_name t.claims
        × SameButVolumes t.app app
        × (app.pod.spec.volumes
            ≡ map (resolve_volume t.app.pod.name t.claims) t.app.pod.spec.volumes)
  unfolding apply_storage
  apply_storage-ok has_client req t template_name s app s' h =
      elim (Bool-cases (not has_client || namespace == [])) [
        | inl off ↦ absurd (ground arith)
        | inr on ↦
            let pod_name = t.app.pod.name in
            let owner = trim_space req.authenticated_username in
            let r = ensure_all claims sha256 namespace pod_name owner template_name [] t.claims s in
            let served : with_volumes claims sha256 namespace t.app r ≡ (ok app, s') =
              ground arith in
            let (names, ensured, same_state, same, volumes) =
              with_volumes-ok t.app r.0 r.1 app s' served in
            let (all_ensured, resolves) =
              ensure_all-ok pod_name owner template_name [] t.claims s names r.1
                (ap (λ x. (x, r.1)) ensured) in
            (
              ground arith,
              ground arith,
              all_ensured,
              same,
              volumes
                  ∙ rename_volumes-resolve pod_name t.claims names resolves t.app.pod.spec.volumes,
            )
      ]
