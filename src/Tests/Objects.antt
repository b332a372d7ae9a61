-- ===== src/Tests/Objects.antt =====
-- The objects of the configuration server in a cluster that holds at most one.
use dev_box.Common.{
  ◌≡◌, ◌≢◌, refl, ◌⊎◌, inl, inr, ◌↔◌, ==_refl, Bool, true, false, List, [], ◌∷◌, map, contains,
  Option, none, some, Text, codes, Result, ok, err, pos, leb_ℤ, ◌==◌, if◌then◌else◌, text_eq,
  bytes_dec, ℕ_discrete, arith,
}
use dev_box.Strings.Trim.{trim_space}
use dev_box.Config.App.{Claim}
use dev_box.Config.Naming.{box_pod_name}
use dev_box.Config.Storage.{
  ObjectApi, not_found, identity_of, labels_of, desired_claim, ensure_claim,
}
use dev_box.Config.Storage.Retained.{Tells, IsRetained, ensure_claim-ok}
use dev_box.Config.Access.Held.{Echoes}
use dev_box.Config.Access.{Rule, owner_rules}
use dev_box.Config.Access.Grants.{allows, allows-owner_rules}
use dev_box.Tests.Fixtures.{digest, claim}

module _ {O : Type 0} (name : O → Text) where
  abbrev pub stored : Option O → Text → Text → Option O
  stored none namespace n = none
  stored (some o) namespace n = if name o == n then some o else none

  abbrev pub api : ObjectApi (Option O) O
  api = record {
    get = λ namespace n s. elim (stored s namespace n) [
      | none ↦ (err not_found, s)
      | some o ↦ (ok o, s)
    ];
    create = λ namespace o s. (ok o, some o);
    update = λ namespace o s. (ok o, some o);
  }

  api-Tells : Tells api name stored
  api-Tells = record {
    get-ok = λ namespace n s o s' h. ground arith;
    create-ok = λ namespace given s o s' h. ground (arith, ==_refl (name o));
    update-ok = λ namespace given s o s' h. ground (arith, ==_refl (name o));
  }

  api-Echoes : {A : Type 0} (content : O → A) → Echoes api name content stored
  api-Echoes content = record {
    named = λ namespace n s o h. ground arith;
    create-same = λ namespace given s o s' h. ground arith;
    update-same = λ namespace given s o s' h. ground arith;
  }

abbrev pub claim_name : Claim → Text
claim_name c = c.name

abbrev pub go_claim : Claim
go_claim =
    desired_claim claim (codes "ns") (codes "box-home")
      (identity_of (codes "ann") (codes "go") (codes "home"))
      (labels_of digest (codes "ann") (codes "go") (codes "home"))

claim_ensured :
    ensure_claim
      (api claim_name)
      digest
      (codes "ns")
      claim
      (codes "box-home")
      (codes "ann")
      (codes "go")
      none
    ≡ (ok tt, some go_claim)
unfolding codes ensure_claim ℕ_discrete dev_box.Config.Storage.has_identity bytes_dec
    dev_box.Common.Table.lookup dev_box.Common.Table.insert dev_box.Config.Naming.owner_label_value
claim_ensured = refl

ensure_claim-ok_example :
    (c : Claim) × (stored claim_name (some go_claim) (codes "ns") (codes "box-home") ≡ some c)
    × IsRetained c
        (identity_of (codes "ann") (codes "go") (codes "home"))
        (labels_of digest (codes "ann") (codes "go") (codes "home"))
ensure_claim-ok_example =
    ensure_claim-ok (api claim_name) (stored claim_name) (api-Tells claim_name) digest (codes "ns")
      claim (codes "box-home") (codes "ann") (codes "go") none (some go_claim) claim_ensured

abbrev rules : List Rule
rules = owner_rules digest (codes "ann") (codes "go" ∷ [])

allows-owner_rules_example :
    allows rules (codes "delete") (codes "box-0601020304")
    ≡ contains
        (map (box_pod_name digest (trim_space (codes "ann"))) (codes "go" ∷ []))
        (codes "box-0601020304")
allows-owner_rules_example =
    allows-owner_rules digest (codes "ann") (codes "go" ∷ []) (codes "delete")
      (codes "box-0601020304") (inr refl)
