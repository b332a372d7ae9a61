-- ===== src/Config/Access/Ensured.antt =====
-- When the three objects of an owner are in place.
use dev_box.Common.{
  ◌≡◌, sym, ap₂, inl, inr, Bool, ◌||◌, not, List, [], Text, ok, ◌==◌, text_eq, Bool-cases,
  Result-cases, arith,
}
use dev_box.Config.Access.{
  Retry, Kube, ensure_owner_access, owner_object_name, owner_rules, reconcile, named,
}

module _ {S : Type 0} (retry : Retry S) (kube : Kube S) (sha256 : Text → Text) where
  -- Access is granted under the owner's object name, and only if each of the three objects could be
  -- ensured, with the rules for the listed templates.
  pub ensure_owner_access-ok :
      (namespace : Text) (has_client : Bool) (owner : Text) (templates : List Text) (s : S)
      (account : Text) (s' : S)
      → ensure_owner_access retry kube sha256 namespace has_client owner templates s
        ≡ (ok account, s')
      → (account ≡ owner_object_name sha256 owner)
        × (reconcile retry kube sha256 namespace account (owner_rules sha256 owner templates) s
            ≡ (ok tt, s'))
  unfolding ensure_owner_access named
  ensure_owner_access-ok namespace has_client owner templates s account s' h =
      elim (Bool-cases (not has_client || namespace == [])) [
        | inl off ↦ absurd (ground arith)
        | inr on ↦
            let name = owner_object_name sha256 owner in
            let r =
              reconcile retry kube sha256 namespace name (owner_rules sha256 owner templates) s in
            elim (Result-cases r.0) [
              | inr (e, failed) ↦ absurd (ground arith)
              | inl (u, done) ↦
                  let same : name ≡ account = ground arith in
                  let state : r.1 ≡ s' = ground arith in
                  (sym same, rw (← same) (ap₂ (λ x y. (x, y)) done state))
            ]
      ]
