-- ===== src/Config/Naming/Legal.antt =====
-- Legal label values, by Kubernetes' description of them.
use dev_box.Common.{ℕ, ◌≤◌, ◌≡◌, ◌↔◌, ◌⊎◌, true, [], ◌∷◌, Text, All, length, all, arith}
use dev_box.Config.Naming.{is_alnum, is_label_byte, last_byte, is_valid_label_value}

-- A letter or a digit.
abbrev pub IsAlnum : ℕ → Type 0
IsAlnum c = ((b'a' ≤ c) × (c ≤ b'z')) ⊎ ((b'A' ≤ c) × (c ≤ b'Z')) ⊎ ((b'0' ≤ c) × (c ≤ b'9'))

abbrev IsLabelByte : ℕ → Type 0
IsLabelByte c = IsAlnum c ⊎ (c ≡ b'-') ⊎ (c ≡ b'_') ⊎ (c ≡ b'.')

-- The last byte of `c ∷ s` is a letter or a digit.
abbrev EndsInAlnum : ℕ → Text → Type 0
EndsInAlnum c [] = IsAlnum c
EndsInAlnum c (d ∷ s) = EndsInAlnum d s

-- Between 1 and 63 bytes, each a letter, a digit, `-`, `_` or `.`, the first and the last a letter or a
-- digit.
abbrev pub IsLabelValue : Text → Type 0
IsLabelValue [] = ⊥
IsLabelValue (c ∷ s) = (length (c ∷ s) ≤ 63) × All IsLabelByte (c ∷ s) × IsAlnum c × EndsInAlnum c s

pub is_alnum-IsAlnum : (c : ℕ) → (is_alnum c ≡ true) ↔ IsAlnum c
unfolding is_alnum
is_alnum-IsAlnum c = ground arith

is_label_byte-IsLabelByte : (c : ℕ) → (is_label_byte c ≡ true) ↔ IsLabelByte c
unfolding is_label_byte
is_label_byte-IsLabelByte c = ground (arith, is_alnum-IsAlnum c)

all-IsLabelByte : (s : Text) → (all is_label_byte s ≡ true) ↔ All IsLabelByte s
all-IsLabelByte [] = ground arith
all-IsLabelByte (c ∷ s) = ground (arith, is_label_byte-IsLabelByte c, all-IsLabelByte s)

last_byte-EndsInAlnum : (c : ℕ) (s : Text) → (is_alnum (last_byte c s) ≡ true) ↔ EndsInAlnum c s
last_byte-EndsInAlnum c [] = is_alnum-IsAlnum c
last_byte-EndsInAlnum c (d ∷ s) = last_byte-EndsInAlnum d s

pub is_valid_label_value-IsLabelValue :
    (s : Text) → (is_valid_label_value s ≡ true) ↔ IsLabelValue s
unfolding is_valid_label_value
is_valid_label_value-IsLabelValue [] = ground arith
is_valid_label_value-IsLabelValue (c ∷ s) =
    ground (arith, is_alnum-IsAlnum c, all-IsLabelByte (c ∷ s), last_byte-EndsInAlnum c s)
