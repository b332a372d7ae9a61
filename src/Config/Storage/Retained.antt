-- ===== src/Config/Storage/Retained.antt =====
-- A claim that was ensured is the owner's, and retained.
use dev_box.Common.{
  ◌≡◌, refl, true, false, [], ◌∷◌, Option, some, Text, Result, ok, err, text_eq, number_eq, length,
  arith,
}
use dev_box.Common.Table.{Table}
use dev_box.Config.App.{Claim}
use dev_box.Config.Storage.{
  ObjectApi, ApiError, not_found, already_exists, conflict, other, value_at, has_identity,
  check_claim, created_or_found, found_or_created, judge, identity_of, labels_of, desired_claim,
  ensure_claim,
}

-- A call that succeeds answers with the object as the cluster then holds it.
pub record Tells {S O : Type 0} (api : ObjectApi S O) (name : O → Text)
    (stored : S → Text → Text → Option O) : Type 0 where
  pub get-ok :
      (namespace n : Text) (s : S) (o : O) (s' : S)
      → api.get namespace n s ≡ (ok o, s')
      → stored s' namespace n ≡ some o
  pub create-ok :
      (namespace : Text) (given : O) (s : S) (o : O) (s' : S)
      → api.create namespace given s ≡ (ok o, s')
      → stored s' namespace (name given) ≡ some o
  pub update-ok :
      (namespace : Text) (given : O) (s : S) (o : O) (s' : S)
      → api.update namespace given s ≡ (ok o, s')
      → stored s' namespace (name given) ≡ some o

-- Each key has its annotation and its label.
abbrev pub Bears : Claim → Table Text → Table Text → Type 0
Bears c [] labels = Unit
Bears c ((k, v) ∷ identity) labels =
    (value_at k c.annotations ≡ v)
    × (value_at k c.labels ≡ value_at k labels)
    × Bears c identity labels

has_identity-Bears :
    (c : Claim) (identity labels : Table Text)
    → has_identity c identity labels ≡ true
    → Bears c identity labels
unfolding has_identity
has_identity-Bears c [] labels h = tt
has_identity-Bears c ((k, v) ∷ identity) labels h =
    ground (arith, has_identity-Bears c identity labels)

-- The claim is not being deleted, has no owner to be collected with, and bears the identity.
pub record IsRetained (c : Claim) (identity labels : Table Text) : Type 0 where
  pub stays : c.terminating ≡ false
  pub independent : length c.owner_references ≡ 0
  pub bears : Bears c identity labels

check_claim-IsRetained :
    (c : Claim) (identity labels : Table Text)
    → check_claim c identity labels ≡ ok tt
    → IsRetained c identity labels
unfolding check_claim
check_claim-IsRetained c identity labels h = record {
  stays = ground arith;
  independent = ground arith;
  bears = has_identity-Bears c identity labels (ground arith);
}

module _ {S : Type 0} (claims : ObjectApi S Claim) (stored : S → Text → Text → Option Claim)
    (tells : Tells claims (λ c. c.name) stored) (sha256 : Text → Text) (namespace : Text) where
  -- A success answers with what is stored.
  abbrev AnswersStored : Text → Result ApiError Claim × S → Type 0
  AnswersStored name (err e, s) = Unit
  AnswersStored name (ok c, s) = stored s namespace name ≡ some c

  get-AnswersStored :
      (name : Text) (s : S) (r : Result ApiError Claim) (s' : S)
      → claims.get namespace name s ≡ (r, s')
      → AnswersStored name (r, s')
  get-AnswersStored name s (ok c) s' e = tells.get-ok namespace name s c s' e
  get-AnswersStored name s (err x) s' e = tt

  created_or_found-AnswersStored :
      (name : Text) (r : Result ApiError Claim) (s : S)
      → AnswersStored name (r, s)
      → AnswersStored name (created_or_found claims sha256 namespace name (r, s))
  unfolding created_or_found
  created_or_found-AnswersStored name (ok c) s h = h
  created_or_found-AnswersStored name (err already_exists) s h =
      get-AnswersStored name s (claims.get namespace name s).0 (claims.get namespace name s).1 refl
  created_or_found-AnswersStored name (err not_found) s h = tt
  created_or_found-AnswersStored name (err conflict) s h = tt
  created_or_found-AnswersStored name (err other) s h = tt

  create-AnswersStored :
      (desired : Claim) (s : S) (r : Result ApiError Claim) (s' : S)
      → claims.create namespace desired s ≡ (r, s')
      → AnswersStored desired.name (r, s')
  create-AnswersStored desired s (ok c) s' e = tells.create-ok namespace desired s c s' e
  create-AnswersStored desired s (err x) s' e = tt

  found_or_created-AnswersStored :
      (desired : Claim) (r : Result ApiError Claim) (s : S)
      → AnswersStored desired.name (r, s)
      → AnswersStored desired.name
          (found_or_created claims sha256 namespace desired.name desired (r, s))
  unfolding found_or_created
  found_or_created-AnswersStored desired (ok c) s h = h
  found_or_created-AnswersStored desired (err not_found) s h =
      let (r, s') = claims.create namespace desired s in
      created_or_found-AnswersStored desired.name r s' (create-AnswersStored desired s r s' refl)
  found_or_created-AnswersStored desired (err already_exists) s h = tt
  found_or_created-AnswersStored desired (err conflict) s h = tt
  found_or_created-AnswersStored desired (err other) s h = tt

  judge-ok :
      (name : Text) (identity labels : Table Text) (r : Result ApiError Claim × S) (s' : S)
      → AnswersStored name r
      → judge claims sha256 namespace identity labels r ≡ (ok tt, s')
      → (c : Claim) × (stored s' namespace name ≡ some c) × IsRetained c identity labels
  unfolding judge
  judge-ok name identity labels (err e, s) s' a h = absurd (ground arith)
  judge-ok name identity labels (ok c, s) s' a h =
      let same : s ≡ s' = ground arith in
      (c, rw (← same) a, check_claim-IsRetained c identity labels (ground arith))

  -- In a cluster that stores what its successful calls answer with: if a claim could be ensured,
  -- then the cluster holds a claim of that name, which is not being deleted, has no owner
  -- references, and bears the identity of the owner, the template and the declaration in its
  -- annotations and labels.
  pub ensure_claim-ok :
      (template : Claim) (name owner template_name : Text) (s s' : S)
      → ensure_claim claims sha256 namespace template name owner template_name s ≡ (ok tt, s')
      → (c : Claim) × (stored s' namespace name ≡ some c)
        × IsRetained c
            (identity_of owner template_name template.name)
            (labels_of sha256 owner template_name template.name)
  unfolding ensure_claim
  ensure_claim-ok template name owner template_name s s' h =
      let identity = identity_of owner template_name template.name in
      let labels = labels_of sha256 owner template_name template.name in
      let desired = desired_claim template namespace name identity labels in
      let (r, t) = claims.get namespace name s in
      judge-ok name identity labels (found_or_created claims sha256 namespace name desired (r, t))
        s' (found_or_created-AnswersStored desired r t (get-AnswersStored name s r t refl)) h
