-- ===== src/Config/Naming/Leading.antt =====
-- Owners whose name begins with `_` or `.`.
use dev_box.Common.{
  ℕ, ◌≡◌, refl, ◌∙◌, ◌≢◌, ◌⊎◌, true, false, [], ◌∷◌, Text, take, number_eq, text_eq, arith,
}
use dev_box.Strings.Trim.{trim_byte, keep_byte, trim_left_byte, trim_right_byte}
use dev_box.Config.Naming.{
  is_alnum, is_kept_byte, is_valid_label_value, sanitize_label, label_core, owner_label_value,
}
use dev_box.Config.Naming.Digest.{IsDigest}
use dev_box.Config.Naming.Label.{first_byte, hashed_label}

module _ (c d : ℕ) (apart : c ≢ d) where
  -- Trimming another byte keeps the first byte.
  trim_right_byte-first : (s : Text) → (r : Text) × (trim_right_byte d (c ∷ s) ≡ c ∷ r)
  unfolding trim_right_byte
  trim_right_byte-first s =
      elim (trim_right_byte d s) as (λ t. (r : Text) × (keep_byte d c t ≡ c ∷ r)) [
        | [] ↦ ([], ground arith)
        | x ∷ r ↦ (x ∷ r, refl)
      ]

  trim_left_byte-first : (s : Text) → trim_left_byte d (c ∷ s) ≡ c ∷ s
  unfolding trim_left_byte
  trim_left_byte-first s = ground arith

label_core-first :
    (c : ℕ) (s : Text) → is_kept_byte c ≡ true → c ≢ b'-' → first_byte (label_core 54 (c ∷ s)) ≡ c
unfolding label_core trim_byte sanitize_label
label_core-first c s kept apart =
    let (r, e) = trim_right_byte-first c b'-' apart (sanitize_label false s) in
    let (r', e') = trim_right_byte-first c b'-' apart (take 53 r) in
    rw kept
      (rw (trim_left_byte-first c b'-' apart (sanitize_label false s)) (rw e (ground (arith, e'))))

is_valid_label_value-leading :
    (c : ℕ) (s : Text) → is_alnum c ≡ false → is_valid_label_value (c ∷ s) ≡ false
unfolding is_valid_label_value
is_valid_label_value-leading c s h = ground arith

leading_facts :
    (c : ℕ) → (c ≡ b'_') ⊎ (c ≡ b'.') → (is_alnum c ≡ false) × (is_kept_byte c ≡ true) × (c ≢ b'-')
unfolding is_kept_byte is_alnum
leading_facts c h = ground arith

module _ (sha256 : Text → Text) (digest : IsDigest sha256) where
  -- If a digest is 32 bytes, the label value of an owner whose name begins with `_` or `.` begins
  -- so too, and is no legal Kubernetes label value.
  pub owner_label_value-leading :
      (c : ℕ) (s : Text)
      → (c ≡ b'_') ⊎ (c ≡ b'.')
      → (first_byte (owner_label_value sha256 (c ∷ s)) ≡ c)
        × (is_valid_label_value (owner_label_value sha256 (c ∷ s)) ≡ false)
  owner_label_value-leading c s h =
      let (other, kept, apart) = leading_facts c h in
      let (value, first) =
        hashed_label sha256 digest (c ∷ s) (is_valid_label_value-leading c s other) in
      let core = label_core-first c s kept apart in (first ∙ core, value ∙ rw core other)
