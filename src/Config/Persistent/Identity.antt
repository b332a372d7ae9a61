-- ===== src/Config/Persistent/Identity.antt =====
-- What a box is given, and to whom.
use dev_box.Common.{
  ◌≡◌, refl, ◌≢◌, inl, inr, true, [], some, Text, codes, ok, ◌==◌, text_eq, Result-cases,
  Bool-cases, arith,
}
use dev_box.Common.Table.{lookup, insert, lookup-insert}
use dev_box.Strings.Trim.{trim_space}
use dev_box.Config.App.{AppConfig, Request}
use dev_box.Config.Naming.{owner_label_key, template_label_key, owner_label_value, box_pod_name}
use dev_box.Config.Persistent.{PodApi, BoxPolicy, enforce_cap, inject, apply_persistent}

-- The template's labels but for those that the server sets.
abbrev pub KeepsLabels : AppConfig → AppConfig → Type 0
KeepsLabels cfg cfg' =
    (key : Text)
    → key ≢ owner_label_key
    → key ≢ template_label_key
    → lookup key cfg'.pod.labels ≡ lookup key cfg.pod.labels

label_keys_ne : owner_label_key ≢ template_label_key
unfolding codes
label_keys_ne h = cc

module _ (sha256 : Text → Text) where
  inject-labels :
      (owner template_name : Text) (cfg : AppConfig)
      → (lookup owner_label_key (inject sha256 owner template_name cfg).pod.labels
          ≡ some (owner_label_value sha256 owner))
        × (lookup template_label_key (inject sha256 owner template_name cfg).pod.labels
            ≡ some (owner_label_value sha256 template_name))
        × KeepsLabels cfg (inject sha256 owner template_name cfg)
  unfolding inject
  inject-labels owner template_name cfg =
      let inner = insert owner_label_key (owner_label_value sha256 owner) cfg.pod.labels in
      (
        ground (
          arith,
          label_keys_ne,
          lookup-insert owner_label_key template_label_key (owner_label_value sha256 template_name)
              inner,
          lookup-insert owner_label_key owner_label_key (owner_label_value sha256 owner)
              cfg.pod.labels,
        ),
        ground (
          arith,
          lookup-insert template_label_key template_label_key
              (owner_label_value sha256 template_name) inner,
        ),
        λ key a b. ground (
          arith,
          lookup-insert key template_label_key (owner_label_value sha256 template_name) inner,
          lookup-insert key owner_label_key (owner_label_value sha256 owner) cfg.pod.labels,
        ),
      )

  -- `cfg'` is `cfg` as the owner's box: its pod has the name and the two labels of the owner and the
  -- template, is created on demand, and keeps the other labels; the rest of
  -- the configuration stays.
  pub record IsBox (owner template_name : Text) (cfg cfg' : AppConfig) : Type 0 where
    pub named : cfg'.pod.name ≡ box_pod_name sha256 owner template_name
    pub created : cfg'.pod.create_missing_pods ≡ true
    pub owned : lookup owner_label_key cfg'.pod.labels ≡ some (owner_label_value sha256 owner)
    pub of_template :
        lookup template_label_key cfg'.pod.labels ≡ some (owner_label_value sha256 template_name)
    pub kept : KeepsLabels cfg cfg'
    pub only : cfg' ≡ record cfg {
      pod = record cfg.pod {
        name = cfg'.pod.name;
        create_missing_pods = cfg'.pod.create_missing_pods;
        labels = cfg'.pod.labels;
      };
    }

  inject-IsBox :
      (owner template_name : Text) (cfg : AppConfig)
      → IsBox owner template_name cfg (inject sha256 owner template_name cfg)
  inject-IsBox owner template_name cfg =
      let (owned, of_template, kept) = inject-labels owner template_name cfg in
      record {
        named = unfold inject in refl;
        created = unfold inject in refl;
        owned = owned;
        of_template = of_template;
        kept = kept;
        only = unfold inject in refl;
      }

  -- A configuration that is served as a persistent box is that of the authenticated owner, whose
  -- trimmed name is not empty, and has passed the cap.
  pub apply_persistent-ok :
      (boxes : BoxPolicy) (list_pods : PodApi) (req : Request) (cfg : AppConfig)
      (template_name : Text) (cfg' : AppConfig)
      → apply_persistent sha256 boxes list_pods req cfg template_name ≡ ok cfg'
      → let owner = trim_space req.authenticated_username in
        (owner ≢ [])
        × (enforce_cap sha256 boxes list_pods owner (box_pod_name sha256 owner template_name)
            ≡ ok tt)
        × IsBox owner template_name cfg cfg'
  unfolding apply_persistent
  apply_persistent-ok boxes list_pods req cfg template_name cfg' h =
      let owner = trim_space req.authenticated_username in
      let pod_name = box_pod_name sha256 owner template_name in
      elim (Bool-cases (owner == [])) [
        | inl blank ↦ absurd (ground arith)
        | inr filled ↦ elim (Result-cases (enforce_cap sha256 boxes list_pods owner pod_name)) [
          | inr (e, denied) ↦ absurd (ground arith)
          | inl (u, passed) ↦
              let same : inject sha256 owner template_name cfg ≡ cfg' = ground arith in
              (ground arith, passed, rw same at (inject-IsBox owner template_name cfg))
        ]
      ]
