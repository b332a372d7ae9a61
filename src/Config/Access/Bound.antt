-- ===== src/Config/Access/Bound.antt =====
-- That a success leaves the owner's binding in the cluster.
use dev_box.Common.{
  ◌≡◌, refl, ap, ap₂, subst, ◌∙◌, List, Option, some, Text, Result, ok, err, ◌==◌, ==→≡, text_eq,
  Bool-cases, inl, inr, arith,
}
use dev_box.Config.Storage.{ObjectApi, ApiError, not_found, already_exists, conflict, other}
use dev_box.Config.Storage.Retained.{Tells}
use dev_box.Config.Access.{
  Retry, Binding, RoleRef, Subject, role_ref_eq, subject_eq, is_retriable, wanted_ref,
  wanted_subjects, settle_binding, try_binding, ensure_owner_binding,
}
use dev_box.Config.Access.Held.{Attempts, Echoes, created, updated, got}

-- What a binding grants to whom.
abbrev pub granted_by : Binding → RoleRef × List Subject
granted_by b = (b.role_ref, b.subjects)

module _ {S : Type 0} (retry : Retry S) (attempts : Attempts retry) (bindings : ObjectApi S Binding)
    (stored : S → Text → Text → Option Binding) (tells : Tells bindings (λ b. b.name) stored)
    (echoes : Echoes bindings (λ b. b.name) granted_by stored) (namespace : Text) where
  -- The binding is stored: of the role of the name, to the service account of the name alone.
  abbrev pub Binds : Text → S → Type 0
  Binds name s =
      (b : Binding) × (stored s namespace name ≡ some b)
      × (granted_by b ≡ (wanted_ref retry namespace name, wanted_subjects retry namespace name))

  settled :
      (name : Text) (s₀ : S) (r : Result ApiError Binding) (s s' : S)
      → bindings.get namespace name s₀ ≡ (r, s)
      → settle_binding retry namespace bindings name (r, s) ≡ (ok tt, s')
      → Binds name s'
  unfolding settle_binding
  settled name s₀ (err already_exists) s s' g h = absurd (ground arith)
  settled name s₀ (err conflict) s s' g h = absurd (ground arith)
  settled name s₀ (err other) s s' g h = absurd (ground arith)
  settled name s₀ (err not_found) s s' g h =
      let given : Binding = record {
        name = name;
        role_ref = wanted_ref retry namespace name;
        subjects = wanted_subjects retry namespace name;
      } in
      created bindings (λ b. b.name) granted_by stored tells echoes namespace given s
        (bindings.create namespace given s).0 (bindings.create namespace given s).1 s' refl h
  settled name s₀ (ok current) s s' g h =
      elim (Bool-cases (current.role_ref == wanted_ref retry namespace name)) [
        | inr foreign ↦ absurd (ground arith)
        | inl ref ↦ elim (Bool-cases (current.subjects == wanted_subjects retry namespace name)) [
          | inl same ↦
              let here : s ≡ s' = ground arith in
              rw (← here) (
                current,
                tells.get-ok namespace name s₀ current s g,
                ap₂ (λ x y. (x, y)) (==→≡ _ _ ref) (==→≡ _ _ same),
              )
          | inr old ↦
              let given : Binding = record current {
                subjects = wanted_subjects retry namespace name;
              } in
              let its_name =
                got bindings (λ b. b.name) granted_by stored tells echoes namespace name s₀ current
                  s g in
              let wrote = rw (old, settle_binding) at (rw (ref, settle_binding) at h) in
              let (b, held, grants) =
                updated bindings (λ b. b.name) granted_by stored tells echoes namespace given s
                  (bindings.update namespace given s).0 (bindings.update namespace given s).1 s'
                  refl wrote in
              (
                b,
                subst (λ n. stored s' namespace n ≡ some b) its_name held,
                grants ∙ ap (λ ref. (ref, wanted_subjects retry namespace name)) (==→≡ _ _ ref),
              )
        ]
      ]

  -- In a cluster that stores what its successful calls answer with, and echoes the role reference and the subjects that it is given, under retries that succeed only by an attempt: if the binding could be ensured, then the cluster holds it, for the role of its name and for the service account of its name alone.
  pub ensure_owner_binding-ok :
      (name : Text) (s s' : S)
      → ensure_owner_binding retry namespace bindings name s ≡ (ok tt, s')
      → Binds name s'
  unfolding ensure_owner_binding
  ensure_owner_binding-ok name s s' h =
      let (t, tried) = attempts is_retriable (try_binding retry namespace bindings name) s s' h in
      settled name t (bindings.get namespace name t).0 (bindings.get namespace name t).1 s' refl
        tried
