-- ===== src/Config/Naming/Label.antt =====
-- The owner label.
use dev_box.Common.{
  ℕ, ◌≤◌, ◌≡◌, refl, ◌≢◌, ◌↔◌, Bool, true, false, inl, inr, [], ◌∷◌, ◌++◌, Text, codes, length,
  length-append, length-take, take, all, all-append, all-take, number_eq, text_eq, Bool-cases, ◌∙◌,
  ℕ_discrete, arith,
}
use mathlib.Core.Bool.{and-eq-true_iff}
use dev_box.Strings.Trim.{trim_byte, trim_left_byte, trim_right_byte}
use dev_box.Strings.Hex.{is_hex}
use dev_box.Config.Naming.{
  is_alnum, is_label_byte, last_byte, is_valid_label_value, is_kept_byte, sanitize_label,
  label_core, owner_label_value, short_hash,
}
use dev_box.Config.Naming.Legal.{
  IsAlnum, IsLabelValue, is_alnum-IsAlnum, is_valid_label_value-IsLabelValue,
}
use dev_box.Config.Naming.Digest.{IsDigest, length-short_hash, all-short_hash}

is_label_byte_of_kept : (c : ℕ) → is_kept_byte c ≡ true → is_label_byte c ≡ true
unfolding is_kept_byte is_label_byte
is_label_byte_of_kept c h = ground arith

is_label_byte-dash : is_label_byte b'-' ≡ true
unfolding is_label_byte ℕ_discrete
is_label_byte-dash = refl

abbrev KeepsLabel : Bool → Text → Type 0
KeepsLabel prev s = all is_label_byte (sanitize_label prev s) ≡ true

-- All bytes that the loop writes are legal in a label.
all-sanitize_label : (prev : Bool) (s : Text) → KeepsLabel prev s
unfolding sanitize_label
all-sanitize_label prev [] = refl
all-sanitize_label prev (c ∷ s) = elim (Bool-cases (is_kept_byte c)) [
  | inl copied ↦ rw copied (rw (is_label_byte_of_kept c copied) (all-sanitize_label false s))
  | inr other ↦ rw other (ground (arith, is_label_byte-dash, all-sanitize_label true s))
]

module _ (p : ℕ → Bool) (c : ℕ) where
  all-trim_left_byte : (s : Text) → all p s ≡ true → all p (trim_left_byte c s) ≡ true
  unfolding trim_left_byte
  all-trim_left_byte [] h = refl
  all-trim_left_byte (b ∷ s) h = ground (arith, all-trim_left_byte s)

  all-trim_right_byte : (s : Text) → all p s ≡ true → all p (trim_right_byte c s) ≡ true
  unfolding trim_right_byte
  all-trim_right_byte [] h = refl
  all-trim_right_byte (b ∷ s) h = ground (arith, all-trim_right_byte s)

length-trim_right_byte : (c : ℕ) (s : Text) → length (trim_right_byte c s) ≤ length s
unfolding trim_right_byte
length-trim_right_byte c [] = omega arith
length-trim_right_byte c (b ∷ s) = ground (arith, length-trim_right_byte c s)

all-owner : all is_label_byte (codes "owner") ≡ true
unfolding codes is_label_byte ℕ_discrete
all-owner = refl

all-label_core : (most : ℕ) (s : Text) → all is_label_byte (label_core most s) ≡ true
unfolding label_core trim_byte codes
all-label_core most s =
    let kept = all-trim_left_byte is_label_byte b'-' _ (all-sanitize_label false s) in
    let core = all-trim_right_byte is_label_byte b'-' _ kept in
    ground (
      arith,
      core,
      all-owner,
      all-trim_right_byte is_label_byte b'-' _ (all-take is_label_byte most _ core),
    )

-- Between one byte and `most` of them.
length-label_core :
    (most : ℕ) (s : Text)
    → 5 ≤ most
    → (1 ≤ length (label_core most s)) × (length (label_core most s) ≤ most)
unfolding label_core trim_byte codes
length-label_core most s h =
    let core = trim_right_byte b'-' (trim_left_byte b'-' (sanitize_label false s)) in
    grind (arith, length-trim_right_byte b'-' (take most core), length-take most core)

last_byte-append : (c d : ℕ) (s t : Text) → last_byte c (s ++ d ∷ t) ≡ last_byte d t
last_byte-append c d [] t = refl
last_byte-append c d (b ∷ s) t = last_byte-append b d s t

is_alnum_of_hex : (c : ℕ) → is_hex c ≡ true → is_alnum c ≡ true
unfolding is_alnum
is_alnum_of_hex c h = ground arith

is_label_byte_of_alnum : (c : ℕ) → is_alnum c ≡ true → is_label_byte c ≡ true
unfolding is_label_byte
is_label_byte_of_alnum c h = ground arith

is_alnum-last_byte :
    (c : ℕ) (s : Text) → is_hex c ≡ true → all is_hex s ≡ true → is_alnum (last_byte c s) ≡ true
is_alnum-last_byte c [] h k = is_alnum_of_hex c h
is_alnum-last_byte c (d ∷ s) h k =
    let (here, later) = (and-eq-true_iff _ _).0 k in is_alnum-last_byte d s here later

all-is_label_byte_of_hex : (s : Text) → all is_hex s ≡ true → all is_label_byte s ≡ true
all-is_label_byte_of_hex [] h = refl
all-is_label_byte_of_hex (c ∷ s) h =
    let (here, later) = (and-eq-true_iff _ _).0 h in
    rw (is_label_byte_of_alnum c (is_alnum_of_hex c here)) (all-is_label_byte_of_hex s later)

-- The first byte, 0 if there is none.
abbrev pub first_byte : Text → ℕ
first_byte [] = 0
first_byte (c ∷ s) = c

-- A core of legal bytes with a hash behind it is a legal label value if it begins well.
valid-hashed :
    (core hash : Text)
    → all is_label_byte core ≡ true
    → 1 ≤ length core
    → length core ≤ 54
    → length hash ≡ 8
    → all is_hex hash ≡ true
    → is_valid_label_value (core ++ b'-' ∷ hash) ≡ is_alnum (first_byte core)
unfolding is_valid_label_value
valid-hashed [] hash a n m e k = absurd (omega arith)
valid-hashed (c ∷ s) [] a n m e k = absurd (omega arith)
valid-hashed (c ∷ s) (d ∷ hash) a n m e k =
    let (here, later) = (and-eq-true_iff _ _).0 k in
    let legal =
      all-append is_label_byte (c ∷ s) (b'-' ∷ d ∷ hash) a
        (rw is_label_byte-dash (all-is_label_byte_of_hex (d ∷ hash) k)) in
    rw (last_byte-append c b'-' s (d ∷ hash)) (
      rw (is_alnum-last_byte d hash here later, legal)
        (ground (arith, length-append s (b'-' ∷ d ∷ hash))))

first_byte-append : (s t : Text) → 1 ≤ length s → first_byte (s ++ t) ≡ first_byte s
first_byte-append [] t h = absurd (omega arith)
first_byte-append (c ∷ s) t h = refl

first_byte_of_valid : (s : Text) → is_valid_label_value s ≡ true → is_alnum (first_byte s) ≡ true
unfolding is_valid_label_value
first_byte_of_valid [] h = cc
first_byte_of_valid (c ∷ s) h = ground arith

module _ (sha256 : Text → Text) (digest : IsDigest sha256) where
  owner_label_value_of_valid :
      (owner : Text) → is_valid_label_value owner ≡ true → owner_label_value sha256 owner ≡ owner
  unfolding owner_label_value
  owner_label_value_of_valid owner h = rw h

  -- A hashed label is legal exactly if its core begins with a letter or a digit.
  pub hashed_label :
      (owner : Text)
      → is_valid_label_value owner ≡ false
      → (is_valid_label_value (owner_label_value sha256 owner)
          ≡ is_alnum (first_byte (label_core 54 owner)))
        × (first_byte (owner_label_value sha256 owner) ≡ first_byte (label_core 54 owner))
  unfolding owner_label_value
  hashed_label owner h =
      let n = length-short_hash sha256 digest owner 8 (omega arith) in
      let (low, high) = length-label_core 54 owner (omega arith) in
      rw h (
        rw n (
          valid-hashed (label_core 54 owner) (short_hash sha256 owner 8) (all-label_core 54 owner)
              low high n (all-short_hash sha256 digest owner 8),
          first_byte-append _ _ low,
        ))

  valid_iff_first :
      (owner : Text)
      → (is_valid_label_value (owner_label_value sha256 owner) ≡ true)
        ↔ (is_alnum (first_byte (owner_label_value sha256 owner)) ≡ true)
  valid_iff_first owner = elim (Bool-cases (is_valid_label_value owner)) [
    | inl valid ↦ (first_byte_of_valid _, λ _. rw (owner_label_value_of_valid owner valid) valid)
    | inr invalid ↦
        let (value, first) = hashed_label owner invalid in
        (first_byte_of_valid _, λ a. value ∙ rw first at a)
  ]

  -- If a digest is 32 bytes, then whatever the owner, the label value is a legal Kubernetes label
  -- value (1 to 63 bytes, each a letter, a digit, `-`, `_` or `.`, the first and the last a letter
  -- or a digit) exactly when its first byte is a letter or a digit.
  pub owner_label_value_valid_iff :
      (owner : Text)
      → IsLabelValue (owner_label_value sha256 owner)
        ↔ IsAlnum (first_byte (owner_label_value sha256 owner))
  owner_label_value_valid_iff owner =
      let label = owner_label_value sha256 owner in
      let (to, from) = is_valid_label_value-IsLabelValue label in
      let (up, down) = is_alnum-IsAlnum (first_byte label) in
      let (first, whole) = valid_iff_first owner in
      (λ h. up (first (from h)), λ h. to (whole (down h)))

  -- If a digest is 32 bytes, an owner whose label had to be hashed shares the label, and with it a
  -- cap quota, with another owner if the label is legal: the one whose name is that label.
  pub owner_label_value_shared :
      (owner : Text)
      → is_valid_label_value owner ≡ false
      → is_alnum (first_byte (owner_label_value sha256 owner)) ≡ true
      → (other : Text) × (other ≢ owner)
        × (owner_label_value sha256 other ≡ owner_label_value sha256 owner)
  owner_label_value_shared owner h a =
      let valid = (valid_iff_first owner).1 a in
      (owner_label_value sha256 owner, λ e. cc (rw e at valid), owner_label_value_of_valid _ valid)
