-- ===== src/Config/Access/Accounts.antt =====
-- That a success leaves the owner's service account in the cluster.
use dev_box.Common.{
  ◌≡◌, refl, subst, Bool, true, false, not, Option, none, some, Text, Result, ok, err, Bool-cases,
  inl, inr, arith,
}
use dev_box.Config.Storage.{ObjectApi, ApiError, not_found, already_exists, conflict, other}
use dev_box.Config.Storage.Retained.{Tells}
use dev_box.Config.Access.Held.{Attempts, Echoes, Holds, created, updated, got}
use dev_box.Config.Access.{
  Retry, Account, keeps_token_off, is_retriable, settle_account, try_account,
  ensure_owner_service_account,
}

token_off :
    (token : Option Bool)
    → elim token [ none ↦ false | some on ↦ not on ] ≡ true
    → token ≡ some false
token_off none h = absurd (ground arith)
token_off (some on) h = ground arith

module _ {S : Type 0} (retry : Retry S) (attempts : Attempts retry) (accounts : ObjectApi S Account)
    (stored : S → Text → Text → Option Account) (tells : Tells accounts (λ a. a.name) stored)
    (echoes : Echoes accounts (λ a. a.name) (λ a. a.automount_token) stored)
    (namespace : Text) where
  -- The account is stored, and no pod mounts its token unless it asks to.
  abbrev pub AccountHolds : Text → S → Type 0
  AccountHolds name s =
      Holds accounts (λ a. a.name) (λ a. a.automount_token) stored tells echoes namespace name
        (some false) s

  settled :
      (name : Text) (s₀ : S) (r : Result ApiError Account) (s s' : S)
      → accounts.get namespace name s₀ ≡ (r, s)
      → settle_account retry namespace accounts name (r, s) ≡ (ok tt, s')
      → AccountHolds name s'
  unfolding settle_account
  settled name s₀ (err already_exists) s s' g h = absurd (ground arith)
  settled name s₀ (err conflict) s s' g h = absurd (ground arith)
  settled name s₀ (err other) s s' g h = absurd (ground arith)
  settled name s₀ (err not_found) s s' g h =
      let given : Account = record { name = name; automount_token = some false } in
      created accounts (λ a. a.name) (λ a. a.automount_token) stored tells echoes namespace given s
        (accounts.create namespace given s).0 (accounts.create namespace given s).1 s' refl h
  settled name s₀ (ok current) s s' g h = elim (Bool-cases (keeps_token_off current)) [
    | inl off ↦
        let here : s ≡ s' = ground arith in
        rw (← here) (
          current,
          tells.get-ok namespace name s₀ current s g,
          token_off current.automount_token off,
        )
    | inr on ↦
        let given : Account = record current { automount_token = some false } in
        let its_name =
          got accounts (λ a. a.name) (λ a. a.automount_token) stored tells echoes namespace name s₀
            current s g in
        let wrote = rw (on, settle_account) at h in
        subst (λ n. AccountHolds n s') its_name
          (updated accounts (λ a. a.name) (λ a. a.automount_token) stored tells echoes namespace
            given s (accounts.update namespace given s).0 (accounts.update namespace given s).1 s'
            refl wrote)
  ]

  -- In a cluster that stores what its successful calls answer with, and echoes what it is given,
  -- under retries that succeed only by an attempt: if the account could be ensured, then the cluster
  -- holds it with its token off.
  pub ensure_owner_service_account-ok :
      (name : Text) (s s' : S)
      → ensure_owner_service_account retry namespace accounts name s ≡ (ok tt, s')
      → AccountHolds name s'
  unfolding ensure_owner_service_account
  ensure_owner_service_account-ok name s s' h =
      let (t, tried) = attempts is_retriable (try_account retry namespace accounts name) s s' h in
      settled name t (accounts.get namespace name t).0 (accounts.get namespace name t).1 s' refl
        tried
