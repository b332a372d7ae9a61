-- ===== src/Together.antt =====
-- What config-server and settings-tui must agree on. The server writes an owner's templates, joined
-- by commas, into the environment of the settings application, and grants the owner a role; the
-- application parses the templates and names the pods itself.
pub mod Environment
pub mod Permitted
pub mod Session
pub mod Isolation
use mathlib.Core.List.{Perm}
use mathlib.Core.List.Perm
use dev_box.Common.{ℕ, ◌≡◌, refl, ◌∙◌, ap₂, Bool, List, [], ◌∷◌, map, Text, All, ok}
use dev_box.Strings.Trim.{trim_space}
use dev_box.Strings.Split.{join}
use dev_box.Strings.Sort.{sort-perm}
use dev_box.Config.Naming
use dev_box.Config.Templates
use dev_box.Config.Templates.{Store, Cache, persistent_templates}
use dev_box.Config.Access.{granted_names}
use dev_box.Config.Access.Listed.{IsListable, persistent_templates-IsTemplateList}
use dev_box.Settings.Boxes
use dev_box.Settings.Boxes.{parse_templates}
use dev_box.Settings.Boxes.Parse.{AllValid, parse_templates-join}
use dev_box.Settings.Kube.{BoxClient}
use dev_box.Settings.Rows.{new_row}
use dev_box.Settings.Model.{new_model, names}

same_pod_name :
    (sha256 : Text → Text) (owner template : Text)
    → Boxes.box_pod_name sha256 owner template ≡ Naming.box_pod_name sha256 owner template
unfolding Boxes.box_pod_name Naming.box_pod_name
same_pod_name sha256 owner template = refl

same_valid_name :
    (name : Text) → Boxes.valid_template_name name ≡ Templates.valid_template_name name
unfolding Boxes.valid_template_name Templates.valid_template_name
same_valid_name [] = refl
same_valid_name (c ∷ name) = refl

pub all_valid : (l : List Text) → All IsListable l → AllValid l
all_valid [] h = tt
all_valid (x ∷ l) ((valid, _), h) = (same_valid_name x ∙ valid, all_valid l h)

pub names_of_rows :
    (sha256 : Text → Text) (owner : Text) (templates : List Text)
    → names (map (new_row sha256 owner) templates)
      ≡ map (Naming.box_pod_name sha256 owner) templates
unfolding new_row
names_of_rows sha256 owner [] = refl
names_of_rows sha256 owner (t ∷ templates) =
    ap₂ ◌∷◌ (same_pod_name sha256 owner t) (names_of_rows sha256 owner templates)

granted-perm :
    (sha256 : Text → Text) (owner : Text) (templates : List Text) (max_boxes : ℕ)
    (client : BoxClient) (width height : ℕ)
    → Perm
        (names (new_model sha256 (trim_space owner) templates max_boxes client width height).rows)
        (granted_names sha256 owner templates)
unfolding new_model granted_names
granted-perm sha256 owner templates max_boxes client width height =
    rw names_of_rows (Perm.symm (sort-perm _))

-- If config-server lists templates, the settings application reads back just these from the text
-- that the server passes on, and the pods of its rows are, up to order, those that the owner's role
-- names.
pub parse_templates-persistent_templates :
    (sha256 : Text → Text) (store : Store) (persistent : Bool) (dir : Text) (cache cache' : Cache)
    (templates : List Text) (owner : Text) (max_boxes : ℕ) (client : BoxClient) (width height : ℕ)
    → persistent_templates store persistent dir cache ≡ (ok templates, cache')
    → (parse_templates (join b',' templates) ≡ ok templates)
      × Perm
          (names (new_model sha256 (trim_space owner) templates max_boxes client width height).rows)
          (granted_names sha256 owner templates)
parse_templates-persistent_templates sha256 store persistent dir cache cache' templates owner
      max_boxes client width height h =
    let (sorted, distinct, listable) =
      persistent_templates-IsTemplateList store persistent dir cache cache' templates h in
    (
      parse_templates-join templates (all_valid templates listable) distinct sorted,
      granted-perm sha256 owner templates max_boxes client width height,
    )
