-- ===== src/Together/Permitted.antt =====
-- What the owner's role permits of the commands of the settings application.
use dev_box.Common.{
  ◌≡◌, refl, ◌∙◌, ◌⊎◌, inl, inr, true, List, [], ◌∷◌, map, All, All-of_contains, contains, Text,
  codes, text_eq,
}
use dev_box.Strings.Trim.{trim_space}
use dev_box.Config.Naming
use dev_box.Config.Access.{Rule, owner_rules}
use dev_box.Config.Access.Grants.{allows, allows-owner_rules}
use dev_box.Settings.Rows.{BoxRow}
use dev_box.Settings.Model.{Command, tick, quit, refresh, delete, names}
use dev_box.Settings.Model.Asks.{IsAbout}

-- What a command asks of the cluster is allowed by rules.
abbrev pub IsGranted : List Rule → Command → Type 0
IsGranted rules tick = Unit
IsGranted rules quit = Unit
IsGranted rules (refresh pods) = All (λ name. allows rules (codes "get") name ≡ true) pods
IsGranted rules (delete name) = allows rules (codes "delete") name ≡ true

module _ (sha256 : Text → Text) (owner : Text) (templates : List Text) where
  abbrev rules : List Rule
  rules = owner_rules sha256 owner templates

  -- Both verbs are granted on the pods of the rows.
  granted :
      (rows : List BoxRow) (verb name : Text)
      → names rows ≡ map (Naming.box_pod_name sha256 (trim_space owner)) templates
      → (verb ≡ codes "get") ⊎ (verb ≡ codes "delete")
      → contains (names rows) name ≡ true
      → allows rules verb name ≡ true
  granted rows verb name listed v h =
      allows-owner_rules sha256 owner templates verb name v ∙ (rw listed at h)

  IsAbout-IsGranted :
      (rows : List BoxRow)
      → names rows ≡ map (Naming.box_pod_name sha256 (trim_space owner)) templates
      → (c : Command) → IsAbout rows c
      → IsGranted rules c
  IsAbout-IsGranted rows listed tick h = tt
  IsAbout-IsGranted rows listed quit h = tt
  IsAbout-IsGranted rows listed (refresh pods) h =
      rw h
        (All-of_contains _ (names rows) (λ name. granted rows (codes "get") name listed (inl refl)))
  IsAbout-IsGranted rows listed (delete name) h =
      granted rows (codes "delete") name listed (inr refl) h

  pub All-IsGranted :
      (rows : List BoxRow)
      → names rows ≡ map (Naming.box_pod_name sha256 (trim_space owner)) templates
      → (commands : List Command) → All (IsAbout rows) commands
      → All (IsGranted rules) commands
  All-IsGranted rows listed [] h = tt
  All-IsGranted rows listed (c ∷ commands) (a, h) =
      (IsAbout-IsGranted rows listed c a, All-IsGranted rows listed commands h)
