-- ===== src/Config/Templates/Paths.antt =====
-- config-server/handler.go: the names of templates, the paths of their files, and the errors of a request.
use dev_box.Common.{
  ℕ, Bool, false, ◌&&◌, ◌||◌, not, [], ◌∷◌, none, some, Text, codes, all, leb, Result, ok, err,
  ◌==◌, if◌then◌else◌, number_eq, text_eq,
}
use dev_box.Strings.Path.{clean, join_path, rel, has_prefix}

abbrev pub is_name_byte : ℕ → Bool
is_name_byte r =
    (leb b'a' r && leb r b'z')
    || (leb b'A' r && leb r b'Z')
    || (leb b'0' r && leb r b'9')
    || r == b'.'
    || r == b'-'
    || r == b'_'

-- A rune beyond ASCII is refused, as each of its bytes is here.
unfoldable pub valid_template_name : Text → Bool
valid_template_name [] = false
valid_template_name (r ∷ username) = all is_name_byte (r ∷ username)

pub data ConfigError : Type 0 where
  no_matching_template : Text → ConfigError
  unsafe_file_name unsafe_path : Text → ConfigError
  stat_failed read_failed invalid_yaml invalid_claims : Text → ConfigError
  claims_need_persistent_mode : ConfigError
  invalid_claim_name duplicate_claim no_storage_request : Text → ConfigError
  directory_unreadable : ConfigError
  no_authenticated_identity pod_cap_reached : ConfigError
  pods_not_listed : Text → ConfigError
  kubernetes_not_configured settings_image_missing : ConfigError
  claim_refused access_refused : Text → ConfigError

abbrev contains_slash : Text → Bool
contains_slash s = not (all (λ b. not (b == b'/')) s)

unfoldable pub safe_join : Text → Text → Result ConfigError Text
safe_join dir name =
    let clean_dir = clean dir in
    let clean_name = clean name in
    let path = join_path clean_dir clean_name in
    if clean_name == b'.' ∷ [] || clean_name == [] || contains_slash clean_name
    then err (unsafe_file_name name)
    else elim (rel clean_dir path) [
      | none ↦ err (unsafe_path path)
      | some way ↦
          if way == codes ".." || has_prefix way (codes "../")
          then err (unsafe_path path)
          else ok path
    ]
