-- ===== src/Config/Access/Grants.antt =====
-- What the owner's role allows, and that a success leaves it in the cluster.
use dev_box.Common.{
  ◌<◌, ◌⊎◌, ==_refl, ◌≡◌, refl, Bool, true, false, ◌||◌, ◌&&◌, List, [], ◌∷◌, map, length, contains,
  Option, Text, codes, Result, ok, err, ◌==◌, ==→≡, text_eq, number_eq, Bool-cases, inl, inr, arith,
}
use dev_box.Strings.Trim.{trim_space}
use dev_box.Strings.Sort.{sort, place}
use dev_box.Strings.Sort.Members.{contains-sort}
use dev_box.Config.Naming.{box_pod_name}
use dev_box.Config.Storage.{ObjectApi, ApiError, not_found, already_exists, conflict, other}
use dev_box.Config.Storage.Retained.{Tells}
use dev_box.Config.Access.Held.{Attempts, Echoes, Holds, created, updated, got}
use dev_box.Config.Access.{
  Retry, Role, Rule, rule_eq, role_ref_eq, subject_eq, is_retriable, settle_role, try_role,
  ensure_owner_role, granted_names, owner_rules,
}

-- A star in a rule stands for all.
abbrev matches : List Text → Text → Bool
matches l x = contains l (codes "*") || contains l x

-- Kubernetes' reading of a rule for one named pod: pods are of the core group, whose name is empty,
-- and a rule without names is for all of them.
unfoldable pub rule_covers : Rule → Text → Text → Bool
rule_covers r verb name =
    matches r.api_groups []
    && matches r.resources (codes "pods")
    && matches r.verbs verb
    && (length r.resource_names == 0 || contains r.resource_names name)

unfoldable pub allows : List Rule → Text → Text → Bool
allows [] verb name = false
allows (r ∷ rules) verb name = rule_covers r verb name || allows rules verb name

contains-verbs :
    (verb : Text)
    → (verb ≡ codes "get") ⊎ (verb ≡ codes "delete")
    → contains (codes "get" ∷ codes "delete" ∷ []) verb ≡ true
contains-verbs verb h = ground arith

-- The rule names pods, and is for this action on them.
rule_covers-named :
    (r : Rule) (verb name : Text)
    → contains r.api_groups [] ≡ true
    → contains r.resources (codes "pods") ≡ true
    → contains r.verbs verb ≡ true
    → (length r.resource_names == 0) ≡ false
    → rule_covers r verb name ≡ contains r.resource_names name
unfolding rule_covers
rule_covers-named r verb name core pods does named = ground (arith, core, pods, does, named)

length-place : (x : Text) (l : List Text) → 0 < length (place x l)
unfolding place
length-place x [] = omega arith
length-place x (y ∷ l) = ground arith

length-sort : (x : Text) (l : List Text) → (length (sort (x ∷ l)) == 0) ≡ false
unfolding sort
length-sort x l = ground (arith, length-place x (sort l))

-- By Kubernetes' reading of the rules (the API group, the resource, the action and the names), the
-- owner may get and delete exactly the pods that are the owner's boxes of the listed templates;
-- without templates there is none.
pub allows-owner_rules :
    (sha256 : Text → Text) (owner : Text) (templates : List Text) (verb name : Text)
    → (verb ≡ codes "get") ⊎ (verb ≡ codes "delete")
    → allows (owner_rules sha256 owner templates) verb name
      ≡ contains (map (box_pod_name sha256 (trim_space owner)) templates) name
unfolding owner_rules allows granted_names
allows-owner_rules sha256 owner [] verb name h = ground arith
allows-owner_rules sha256 owner (t ∷ templates) verb name h =
    let first = box_pod_name sha256 (trim_space owner) t in
    let boxes = map (box_pod_name sha256 (trim_space owner)) templates in
    let covered =
      rule_covers-named
        (record {
          api_groups = [] ∷ [];
          resources = codes "pods" ∷ [];
          verbs = codes "get" ∷ codes "delete" ∷ [];
          resource_names = sort (first ∷ boxes);
        })
        verb name (ground arith) (ground (arith, ==_refl (codes "pods"))) (contains-verbs verb h)
        (length-sort first boxes) in
    ground (arith, covered, contains-sort name (first ∷ boxes))

module _ {S : Type 0} (retry : Retry S) (attempts : Attempts retry) (roles : ObjectApi S Role)
    (stored : S → Text → Text → Option Role) (tells : Tells roles (λ r. r.name) stored)
    (echoes : Echoes roles (λ r. r.name) (λ r. r.rules) stored) (namespace : Text) where
  -- The role is stored with the rules.
  abbrev pub RoleHolds : Text → List Rule → S → Type 0
  RoleHolds = Holds roles (λ r. r.name) (λ r. r.rules) stored tells echoes namespace

  settled :
      (name : Text) (rules : List Rule) (s₀ : S) (r : Result ApiError Role) (s s' : S)
      → roles.get namespace name s₀ ≡ (r, s)
      → settle_role retry namespace roles name rules (r, s) ≡ (ok tt, s')
      → RoleHolds name rules s'
  unfolding settle_role
  settled name rules s₀ (err already_exists) s s' g h = absurd (ground arith)
  settled name rules s₀ (err conflict) s s' g h = absurd (ground arith)
  settled name rules s₀ (err other) s s' g h = absurd (ground arith)
  settled name rules s₀ (err not_found) s s' g h =
      let given : Role = record { name = name; rules = rules } in
      created roles (λ r. r.name) (λ r. r.rules) stored tells echoes namespace given s
        (roles.create namespace given s).0 (roles.create namespace given s).1 s' refl h
  settled name rules s₀ (ok current) s s' g h = elim (Bool-cases (current.rules == rules)) [
    | inl same ↦
        let here : s ≡ s' = ground arith in
        rw (← here) (current, tells.get-ok namespace name s₀ current s g, ==→≡ _ _ same)
    | inr old ↦
        let given : Role = record current { rules = rules } in
        let its_name =
          got roles (λ r. r.name) (λ r. r.rules) stored tells echoes namespace name s₀ current s
            g in
        let wrote = rw (old, settle_role) at h in
        rw its_name at (
          updated roles (λ r. r.name) (λ r. r.rules) stored tells echoes namespace given s
            (roles.update namespace given s).0 (roles.update namespace given s).1 s' refl wrote)
  ]

  -- In a cluster that stores what its successful calls answer with, and echoes the rules that it is
  -- given, under retries that succeed only by an attempt: if the role could be ensured, then the
  -- cluster holds it with just the rules wanted.
  pub ensure_owner_role-ok :
      (name : Text) (rules : List Rule) (s s' : S)
      → ensure_owner_role retry namespace roles name rules s ≡ (ok tt, s')
      → RoleHolds name rules s'
  unfolding ensure_owner_role
  ensure_owner_role-ok name rules s s' h =
      let (t, tried) = attempts is_retriable (try_role retry namespace roles name rules) s s' h in
      settled name rules t (roles.get namespace name t).0 (roles.get namespace name t).1 s' refl
        tried
