-- ===== src/Tests/Access.antt =====
-- The three objects of an owner in a cluster that holds at most one of each kind.
use dev_box.Common.{
  ◌≡◌, refl, ==_refl, true, false, List, [], ◌∷◌, Option, none, some, Text, codes, ok, err, ◌==◌,
  if◌then◌else◌, text_eq, bytes_dec, ℕ_discrete, arith,
}
use dev_box.Config.Storage.{ObjectApi, not_found}
use dev_box.Config.Storage.Retained.{Tells}
use dev_box.Config.Access.{
  Kube, Retry, Account, Role, Rule, Binding, owner_rules, wanted_ref, wanted_subjects, reconcile,
  ensure_owner_service_account, ensure_owner_role, ensure_owner_binding,
}
use dev_box.Config.Access.Held.{Attempts, Echoes}
use dev_box.Config.Access.Bound.{granted_by}
use dev_box.Config.Access.Reconciled.{reconcile-ok}
use dev_box.Tests.Fixtures.{digest}

record Objects : Type 0 where
  account : Option Account
  role : Option Role
  binding : Option Binding

abbrev stored_as : {O : Type 0} → (O → Text) → Option O → Text → Option O
stored_as name none n = none
stored_as name (some o) n = if name o == n then some o else none

stored_as-name :
    {O : Type 0} (name : O → Text) (h : Option O) (n : Text) (o : O)
    → stored_as name h n ≡ some o
    → name o ≡ n
stored_as-name name h n o e = ground arith

-- A kind of object, by what is held of it and how it is written.
module _ {O : Type 0} (name : O → Text) (held : Objects → Option O) (put : O → Objects → Objects)
    (held-put : (o : O) (s : Objects) → held (put o s) ≡ some o) where
  abbrev stored : Objects → Text → Text → Option O
  stored s namespace n = stored_as name (held s) n

  abbrev api : ObjectApi Objects O
  api = record {
    get = λ namespace n s. elim (stored s namespace n) [
      | none ↦ (err not_found, s)
      | some o ↦ (ok o, s)
    ];
    create = λ namespace o s. (ok o, put o s);
    update = λ namespace o s. (ok o, put o s);
  }

  api-Tells : Tells api name stored
  api-Tells = record {
    get-ok = λ namespace n s o s' h. ground arith;
    create-ok = λ namespace given s o s' h. ground (arith, ==_refl (name o), held-put given s);
    update-ok = λ namespace given s o s' h. ground (arith, ==_refl (name o), held-put given s);
  }

  api-Echoes : {A : Type 0} (content : O → A) → Echoes api name content stored
  api-Echoes content = record {
    named = λ namespace n s o h. stored_as-name name (held s) n o h;
    create-same = λ namespace given s o s' h. ground arith;
    update-same = λ namespace given s o s' h. ground arith;
  }

-- One attempt.
abbrev retry : {S : Type 0} → Retry S
retry p m s = m s

retry-Attempts : {S : Type 0} → Attempts {S = S} retry
retry-Attempts p m s s' h = (s, h)

abbrev put_account : Account → Objects → Objects
put_account o s = record s { account = some o }

abbrev put_role : Role → Objects → Objects
put_role o s = record s { role = some o }

abbrev put_binding : Binding → Objects → Objects
put_binding o s = record s { binding = some o }

abbrev kube : Kube Objects
kube = record {
  accounts = api (λ a. a.name) (λ s. s.account) put_account (λ o s. refl);
  roles = api (λ r. r.name) (λ s. s.role) put_role (λ o s. refl);
  bindings = api (λ b. b.name) (λ s. s.binding) put_binding (λ o s. refl);
}

abbrev stored_accounts : Objects → Text → Text → Option Account
stored_accounts = stored (λ a. a.name) (λ s. s.account) put_account (λ o s. refl)

abbrev stored_roles : Objects → Text → Text → Option Role
stored_roles = stored (λ r. r.name) (λ s. s.role) put_role (λ o s. refl)

abbrev stored_bindings : Objects → Text → Text → Option Binding
stored_bindings = stored (λ b. b.name) (λ s. s.binding) put_binding (λ o s. refl)

accounts_tell : Tells kube.accounts (λ a. a.name) stored_accounts
accounts_tell = api-Tells (λ a. a.name) (λ s. s.account) put_account (λ o s. refl)

accounts_echo : Echoes kube.accounts (λ a. a.name) (λ a. a.automount_token) stored_accounts
accounts_echo =
    api-Echoes (λ a. a.name) (λ s. s.account) put_account (λ o s. refl) (λ a. a.automount_token)

roles_tell : Tells kube.roles (λ r. r.name) stored_roles
roles_tell = api-Tells (λ r. r.name) (λ s. s.role) put_role (λ o s. refl)

roles_echo : Echoes kube.roles (λ r. r.name) (λ r. r.rules) stored_roles
roles_echo = api-Echoes (λ r. r.name) (λ s. s.role) put_role (λ o s. refl) (λ r. r.rules)

bindings_tell : Tells kube.bindings (λ b. b.name) stored_bindings
bindings_tell = api-Tells (λ b. b.name) (λ s. s.binding) put_binding (λ o s. refl)

bindings_echo : Echoes kube.bindings (λ b. b.name) granted_by stored_bindings
bindings_echo = api-Echoes (λ b. b.name) (λ s. s.binding) put_binding (λ o s. refl) granted_by

abbrev rules : List Rule
rules = owner_rules digest (codes "ann") (codes "go" ∷ [])

-- An account with its token on, no role, and a binding of the role to nobody.
abbrev before : Objects
before = record {
  account = some (record { name = codes "owner"; automount_token = some true });
  role = none;
  binding = some (record {
    name = codes "owner";
    role_ref = wanted_ref {S = Objects} retry (codes "ns") (codes "owner");
    subjects = [];
  });
}

abbrev after : Objects
after = record {
  account = some (record { name = codes "owner"; automount_token = some false });
  role = some (record { name = codes "owner"; rules = rules });
  binding = some (record {
    name = codes "owner";
    role_ref = wanted_ref {S = Objects} retry (codes "ns") (codes "owner");
    subjects = wanted_subjects {S = Objects} retry (codes "ns") (codes "owner");
  });
}

reconciled : reconcile retry kube digest (codes "ns") (codes "owner") rules before ≡ (ok tt, after)
unfolding codes reconcile bytes_dec ℕ_discrete dev_box.Config.Access.role_ref_eq
    dev_box.Config.Access.subject_eq ensure_owner_service_account ensure_owner_role
    ensure_owner_binding
reconciled = refl

reconcile-ok_example :
    (s₁ : Objects) × (s₂ : Objects) × (ensure_owner_service_account retry
        (codes "ns")
        kube.accounts
        (codes "owner")
        before
      ≡ (ok tt, s₁))
    × (ensure_owner_role retry (codes "ns") kube.roles (codes "owner") rules s₁ ≡ (ok tt, s₂))
    × (ensure_owner_binding retry (codes "ns") kube.bindings (codes "owner") s₂ ≡ (ok tt, after))
    × ((a : Account) × (stored_as (λ a. a.name) s₁.account (codes "owner") ≡ some a)
        × (a.automount_token ≡ some false))
    × ((r : Role) × (stored_as (λ r. r.name) s₂.role (codes "owner") ≡ some r) × (r.rules ≡ rules))
    × ((b : Binding) × (stored_as (λ b. b.name) after.binding (codes "owner") ≡ some b)
        × (granted_by b ≡ (
          wanted_ref {S = Objects} retry (codes "ns") (codes "owner"),
          wanted_subjects {S = Objects} retry (codes "ns") (codes "owner"),
        )))
reconcile-ok_example =
    reconcile-ok retry retry-Attempts kube digest (codes "ns") stored_accounts accounts_tell
      accounts_echo stored_roles roles_tell roles_echo stored_bindings bindings_tell bindings_echo
      (codes "owner") rules before after reconciled
