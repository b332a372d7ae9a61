-- ===== src/Settings/Startup/Laws.antt =====
-- What a start of the settings application needs, and what it starts with.
use dev_box.Common.{
  ℕ, ◌≡◌, ◌≢◌, sym, ap, ◌↔◌, inl, inr, true, false, List, [], ◌∷◌, some, Text, codes, ok, ◌>>=◌,
  ◌==◌, ≢→==, text_eq, Bool-cases, Option-cases, Result-cases, arith,
}
use dev_box.Strings.Trim.{trim_space}
use dev_box.Settings.Boxes.Inputs.{
  AreNamesOf, IsCapOf, parse_templates-AreNamesOf, parse_max_boxes-IsCapOf,
}
use dev_box.Settings.Startup.Measured.{IsFirstSize, measure-IsFirstSize, IsFirstSize-measure}
use dev_box.Settings.Boxes.{parse_templates, parse_max_boxes}
use dev_box.Settings.Kube.{Cluster}
use dev_box.Settings.Model.{SettingsModel, new_model}
use dev_box.Settings.Startup.{
  Host, is_empty, measure, usable, from_input, or_unavailable, getenv, new_box_client, run,
}

module _ (sha256 : Text → Text) (cluster : Cluster) (host : Host) where
  abbrev pub owner_text : Text
  owner_text = trim_space (getenv sha256 cluster host (codes "DEV_BOX_AUTHENTICATED_OWNER"))

  -- What must be there for a start with a model.
  pub record MayStart (m : SettingsModel) : Type 0 where
    pub size : ℕ × ℕ
    pub templates : List Text
    pub max_boxes : ℕ
    pub owned : owner_text ≢ []
    pub on_terminal : host.is_terminal ≡ true
    pub measured : IsFirstSize (host.first_size ∷ host.later_sizes) size
    pub listed :
        parse_templates (getenv sha256 cluster host (codes "DEV_BOX_BOX_TEMPLATES")) ≡ ok templates
    pub capped :
        parse_max_boxes (getenv sha256 cluster host (codes "DEV_BOX_MAX_BOXES")) ≡ ok max_boxes
    pub named : AreNamesOf (getenv sha256 cluster host (codes "DEV_BOX_BOX_TEMPLATES")) templates
    pub limited : IsCapOf (getenv sha256 cluster host (codes "DEV_BOX_MAX_BOXES")) max_boxes
    pub built :
        m
        ≡ new_model sha256 owner_text templates max_boxes
            (or_unavailable (new_box_client sha256 cluster host))
            size.0
            size.1

  MayStart-run : (m : SettingsModel) → MayStart m → run sha256 cluster host ≡ ok m
  unfolding run new_box_client
  MayStart-run m h =
      let (found, shown) = IsFirstSize-measure host.first_size host.later_sizes h.size h.measured in
      rw (≢→== owner_text [] h.owned, run)
        (rw h.on_terminal (rw found (rw shown (rw h.listed (rw h.capped (ap ok (sym h.built)))))))

  started_with :
      (m : SettingsModel)
      → (owner_text == []) ≡ false
      → host.is_terminal ≡ true
      → (size : ℕ × ℕ) → measure host.first_size host.later_sizes ≡ some size
      → (usable (some size) >>= λ z.
          from_input (parse_templates (getenv sha256 cluster host (codes "DEV_BOX_BOX_TEMPLATES")))
          >>= λ templates.
              from_input (parse_max_boxes (getenv sha256 cluster host (codes "DEV_BOX_MAX_BOXES")))
              >>= λ max_boxes. ok (
                  new_model sha256 owner_text templates max_boxes
                    (or_unavailable (new_box_client sha256 cluster host))
                    z.0
                    z.1))
        ≡ ok m
      → MayStart m
  started_with m owned terminal size measured h = elim (Bool-cases (is_empty size)) [
    | inl hidden ↦ absurd (ground arith)
    | inr shown ↦
        elim (Result-cases
          (parse_templates (getenv sha256 cluster host (codes "DEV_BOX_BOX_TEMPLATES")))) [
            | inr (e, bad) ↦ absurd (ground arith)
            | inl (templates, listed) ↦
                elim (Result-cases
                  (parse_max_boxes (getenv sha256 cluster host (codes "DEV_BOX_MAX_BOXES")))) [
                    | inr (e, bad) ↦ absurd (ground arith)
                    | inl (max_boxes, capped) ↦
                        let built = rw capped at (rw listed at (rw shown at h)) in
                        record {
                          size = size;
                          templates = templates;
                          max_boxes = max_boxes;
                          owned = ground arith;
                          on_terminal = terminal;
                          measured =
                              measure-IsFirstSize host.first_size host.later_sizes size measured
                                shown;
                          listed = listed;
                          capped = capped;
                          named = parse_templates-AreNamesOf _ templates listed;
                          limited = parse_max_boxes-IsCapOf _ max_boxes capped;
                          built = ground arith;
                        }
                  ]
          ]
  ]

  pub run-MayStart : (m : SettingsModel) → run sha256 cluster host ≡ ok m → MayStart m
  unfolding run new_box_client
  run-MayStart m h = elim (Bool-cases (owner_text == [])) [
    | inl blank ↦ absurd (ground arith)
    | inr owned ↦ elim (Bool-cases host.is_terminal) [
      | inr piped ↦ absurd (ground arith)
      | inl terminal ↦
          let on = rw terminal at (rw (owned, run) at h) in
          elim (Option-cases (measure host.first_size host.later_sizes)) [
            | inl failed ↦ absurd (ground arith)
            | inr (size, measured) ↦ started_with m owned terminal size measured (rw measured at on)
          ]
    ]
  ]

  -- The program starts exactly when there are an owner with a name, a terminal, among the answers to
  -- what its size is (the first, and those until the deadline) a positive one that only sizes of zero
  -- and no errors stand before, and a list of templates and a cap that parse; a cluster client is not
  -- needed. The templates are then the trimmed names between the commas, without the empty ones, each
  -- a valid name, in ascending order and each once, and the cap is 0 where none is given, and else the
  -- number that is given, which is not negative. The model is that of the trimmed owner, these inputs
  -- and the first positive size.
  pub run-ok_iff : (m : SettingsModel) → (run sha256 cluster host ≡ ok m) ↔ MayStart m
  run-ok_iff m = (run-MayStart m, MayStart-run m)
