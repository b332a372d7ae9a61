-- ===== src/Config/Naming.antt =====
-- config-server/persistent.go, the names: pod names, owner labels, and the hash that both use.
-- `crypto/sha256` is the parameter `sha256`, from the bytes of a text to the 32 bytes of its digest.
pub mod Digest
pub mod Legal
pub mod Label
pub mod Leading
pub mod Pods
use dev_box.Common.{
  ℕ, suc, ◌+◌, ◌-◌, Bool, true, false, ◌&&◌, ◌||◌, List, [], ◌∷◌, ◌++◌, Text, codes, length, take,
  all, leb, ltb, ◌==◌, if◌then◌else◌, number_eq, text_eq,
}
use dev_box.Strings.Trim.{trim_byte, trim_right_byte}
use dev_box.Strings.Hex.{encode}

abbrev pub owner_label_key : Text
owner_label_key = codes "dev.box/owner"

abbrev pub template_label_key : Text
template_label_key = codes "dev.box/template"

abbrev pub claim_label_key : Text
claim_label_key = codes "dev.box/claim"

abbrev pub limit_label_value : ℕ
limit_label_value = 63

unfoldable pub is_alnum : ℕ → Bool
is_alnum c = (leb b'a' c && leb c b'z') || (leb b'A' c && leb c b'Z') || (leb b'0' c && leb c b'9')

unfoldable pub is_label_byte : ℕ → Bool
unfolding is_alnum
is_label_byte c = is_alnum c || c == b'-' || c == b'_' || c == b'.'

-- The bytes that the loop of `ownerLabelValue` copies.
unfoldable pub is_kept_byte : ℕ → Bool
unfolding is_alnum
is_kept_byte c = is_alnum c || c == b'_' || c == b'.'

-- The last byte of `c ∷ s`.
abbrev pub last_byte : ℕ → Text → ℕ
last_byte c [] = c
last_byte c (d ∷ s) = last_byte d s

unfoldable pub is_valid_label_value : Text → Bool
unfolding is_label_byte
is_valid_label_value [] = false
is_valid_label_value (c ∷ s) =
    if ltb limit_label_value (length (c ∷ s))
    then false
    else if is_alnum c && is_alnum (last_byte c s)
    then all is_label_byte (c ∷ s)
    else false

-- The loop of `ownerLabelValue`, with its variable `prevDash`.
unfoldable pub sanitize_label : Bool → Text → Text
unfolding is_kept_byte
sanitize_label prev_dash [] = []
sanitize_label prev_dash (c ∷ s) =
    let kept = c ∷ sanitize_label false s in
    let dashed = sanitize_label true s in
    if is_kept_byte c then kept else if prev_dash then dashed else b'-' ∷ dashed

-- The readable part of a label, at most `most` bytes.
unfoldable pub label_core : ℕ → Text → Text
unfolding sanitize_label
label_core most owner =
    let core = trim_byte b'-' (sanitize_label false owner) in
    let cut = if ltb most (length core) then trim_right_byte b'-' (take most core) else core in
    if cut == [] then codes "owner" else cut

module _ (sha256 : Text → Text) where
  unfoldable pub short_hash : Text → ℕ → Text
  short_hash value n = take n (encode (sha256 value))

  -- The separator between owner and template is the byte 0.
  unfoldable pub box_pod_name : Text → Text → Text
  unfolding short_hash codes
  box_pod_name owner template = codes "box-" ++ short_hash (owner ++ 0 ∷ template) 10

  unfoldable pub owner_label_value : Text → Text
  unfolding short_hash label_core is_valid_label_value
  owner_label_value owner =
      if is_valid_label_value owner
      then owner
      else let suffix = b'-' ∷ short_hash owner 8 in
        label_core (limit_label_value - length suffix) owner ++ suffix
