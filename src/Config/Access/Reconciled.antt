-- ===== src/Config/Access/Reconciled.antt =====
-- That a success leaves each of the three objects in the cluster when it was ensured.
use dev_box.Common.{◌≡◌, inl, inr, List, Option, Text, ok, Result-cases, arith}
use dev_box.Config.Storage.Retained.{Tells}
use dev_box.Config.Access.Held.{Attempts, Echoes}
use dev_box.Config.Access.Accounts.{AccountHolds, ensure_owner_service_account-ok}
use dev_box.Config.Access.Grants.{RoleHolds, ensure_owner_role-ok}
use dev_box.Config.Access.Bound.{granted_by, Binds, ensure_owner_binding-ok}
use dev_box.Config.Access.{
  Retry, Kube, Account, Role, Rule, Binding, Action, ensure_owner_service_account,
  ensure_owner_role, ensure_owner_binding, reconcile, after_success,
}

after_success-ok :
    {S : Type 0} (retry : Retry S) (kube : Kube S) (sha256 : Text → Text) (namespace : Text)
    (m n : Action S) (s s' : S)
    → after_success retry kube sha256 namespace m n s ≡ (ok tt, s')
    → (t : S) × (m s ≡ (ok tt, t)) × (n t ≡ (ok tt, s'))
after_success-ok retry kube sha256 namespace m n s s' h = elim (Result-cases (m s).0) [
  | inr (e, failed) ↦ absurd (ground arith)
  | inl (u, worked) ↦ ((m s).1, ground arith, ground arith)
]

module _ {S : Type 0} (retry : Retry S) (attempts : Attempts retry) (kube : Kube S)
    (sha256 : Text → Text) (namespace : Text) (stored_accounts : S → Text → Text → Option Account)
    (accounts_tell : Tells kube.accounts (λ a. a.name) stored_accounts)
    (accounts_echo : Echoes kube.accounts (λ a. a.name) (λ a. a.automount_token) stored_accounts)
    (stored_roles : S → Text → Text → Option Role)
    (roles_tell : Tells kube.roles (λ r. r.name) stored_roles)
    (roles_echo : Echoes kube.roles (λ r. r.name) (λ r. r.rules) stored_roles)
    (stored_bindings : S → Text → Text → Option Binding)
    (bindings_tell : Tells kube.bindings (λ b. b.name) stored_bindings)
    (bindings_echo : Echoes kube.bindings (λ b. b.name) granted_by stored_bindings) where
  -- In a cluster that stores what its successful calls answer with, and echoes what it is given, under retries that succeed only by an attempt: if the three objects of an owner could be ensured, then first the account was stored, with its token off, then a role of its name with just the rules wanted, and last a binding of that role to that account alone, which is in the cluster at the end.
  pub reconcile-ok :
      (name : Text) (rules : List Rule) (s s' : S)
      → reconcile retry kube sha256 namespace name rules s ≡ (ok tt, s')
      → (s₁ : S) × (s₂ : S) × (ensure_owner_service_account retry namespace kube.accounts name s
          ≡ (ok tt, s₁))
        × (ensure_owner_role retry namespace kube.roles name rules s₁ ≡ (ok tt, s₂))
        × (ensure_owner_binding retry namespace kube.bindings name s₂ ≡ (ok tt, s'))
        × AccountHolds retry attempts kube.accounts stored_accounts accounts_tell accounts_echo
            namespace name s₁
        × RoleHolds retry attempts kube.roles stored_roles roles_tell roles_echo namespace name
            rules s₂
        × Binds retry attempts kube.bindings stored_bindings bindings_tell bindings_echo namespace
            name s'
  unfolding reconcile
  reconcile-ok name rules s s' h =
      let account = ensure_owner_service_account retry namespace kube.accounts name in
      let role = ensure_owner_role retry namespace kube.roles name rules in
      let binding = ensure_owner_binding retry namespace kube.bindings name in
      let (s₁, first, rest) =
        after_success-ok retry kube sha256 namespace account
          (after_success retry kube sha256 namespace role binding) s s' h in
      let (s₂, second, third) =
        after_success-ok retry kube sha256 namespace role binding s₁ s' rest in
      (
        s₁,
        s₂,
        first,
        second,
        third,
        ensure_owner_service_account-ok retry attempts kube.accounts stored_accounts accounts_tell
            accounts_echo namespace name s s₁ first,
        ensure_owner_role-ok retry attempts kube.roles stored_roles roles_tell roles_echo namespace
            name rules s₁ s₂ second,
        ensure_owner_binding-ok retry attempts kube.bindings stored_bindings bindings_tell
            bindings_echo namespace name s₂ s' third,
      )
