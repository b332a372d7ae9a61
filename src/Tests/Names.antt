-- ===== src/Tests/Names.antt =====
-- Names at concrete inputs.
use dev_box.Common.{
  ◌≡◌, refl, ◌≢◌, ◌↔◌, inl, true, false, ◌∷◌, Text, codes, length, ℕ_discrete, bytes_dec,
}
use dev_box.Config.Naming.{is_alnum, is_valid_label_value, owner_label_value, box_pod_name}
use dev_box.Config.Naming.Legal.{IsAlnum, IsLabelValue}
use dev_box.Config.Naming.Label.{first_byte, owner_label_value_valid_iff, owner_label_value_shared}
use dev_box.Config.Naming.Leading.{owner_label_value-leading}
use dev_box.Config.Naming.Pods.{IsDnsLabel, box_pod_name-IsDnsLabel}
use dev_box.Tests.Fixtures.{digest, digest-IsDigest}

-- What is not legal in a label becomes one dash, and the hash follows.
hashed_owner : owner_label_value digest (codes "ann @ lab") ≡ codes "ann-lab-09010203"
unfolding codes owner_label_value ℕ_discrete bytes_dec dev_box.Strings.Hex.encode
    dev_box.Strings.Trim.trim_byte
hashed_owner = refl

pod_of_ann : box_pod_name digest (codes "ann") (codes "go") ≡ codes "box-0601020304"
unfolding codes box_pod_name ℕ_discrete dev_box.Strings.Hex.encode
pod_of_ann = refl

owner_label_value_valid_iff_example :
    IsLabelValue (owner_label_value digest (codes "ann @ lab"))
    ↔ IsAlnum (first_byte (owner_label_value digest (codes "ann @ lab")))
owner_label_value_valid_iff_example =
    owner_label_value_valid_iff digest digest-IsDigest (codes "ann @ lab")

ann_is_hashed : is_valid_label_value (codes "ann @ lab") ≡ false
unfolding codes is_valid_label_value ℕ_discrete
ann_is_hashed = refl

ann_begins_well : is_alnum (first_byte (owner_label_value digest (codes "ann @ lab"))) ≡ true
unfolding codes owner_label_value ℕ_discrete bytes_dec is_alnum dev_box.Strings.Hex.encode
    dev_box.Strings.Trim.trim_byte
ann_begins_well = refl

owner_label_value_shared_example :
    (other : Text) × (other ≢ codes "ann @ lab")
    × (owner_label_value digest other ≡ owner_label_value digest (codes "ann @ lab"))
owner_label_value_shared_example =
    owner_label_value_shared digest digest-IsDigest (codes "ann @ lab") ann_is_hashed
      ann_begins_well

owner_label_value-leading_example :
    (first_byte (owner_label_value digest (b'_' ∷ codes "svc")) ≡ b'_')
    × (is_valid_label_value (owner_label_value digest (b'_' ∷ codes "svc")) ≡ false)
owner_label_value-leading_example =
    owner_label_value-leading digest digest-IsDigest b'_' (codes "svc") (inl refl)

box_pod_name-IsDnsLabel_example :
    IsDnsLabel (box_pod_name digest (codes "ann") (codes "go"))
    × (length (box_pod_name digest (codes "ann") (codes "go")) ≡ 14)
box_pod_name-IsDnsLabel_example =
    box_pod_name-IsDnsLabel digest digest-IsDigest (codes "ann") (codes "go")
