-- ===== src/Config/Templates.antt =====
-- config-server/handler.go and storage.go, the templates: their names, files, claims and cache.
pub mod Files
pub mod Cache
pub mod Claims
pub mod Races
mod Paths
unfoldable pub use Paths.*
use dev_box.Common.{
  ℕ, Bool, true, false, ◌&&◌, ◌||◌, not, List, [], ◌∷◌, ◌++◌, Option, none, some, Text, codes, all,
  contains, leb, ℤ, pos, leb_ℤ, Result, ok, err, ◌==◌, if◌then◌else◌, number_eq, text_eq,
}
use dev_box.Common.Table.{Table, lookup, insert}
use dev_box.Strings.Path.{clean, join_path, rel, has_prefix, has_suffix, trim_suffix, cut_suffix}
use dev_box.Strings.Split.{split}
use dev_box.Strings.Sort.{sort}
use dev_box.Config.App.{AppConfig, Claim, template_selects_non_persistent}

pub record PodTemplate : Type 0 where
  pub app : AppConfig
  pub claims : List Claim

-- `size` and `mod_time` identify a version of a file.
pub record FileInfo : Type 0 where
  pub size : ℕ
  pub mod_time : ℕ

pub data Stat : Type 0 where
  missing unknown : Stat
  found : FileInfo → Stat

-- The directory, YAML, and Kubernetes' check of a name (`true` if it is legal).
pub record Store : Type 0 where
  pub stat : Text → Stat
  pub read_file : Text → Option Text
  -- The names in the directory in ascending order, with `IsDir`.
  pub read_dir : Text → Option (List (Text × Bool))
  pub parse_app : Text → Option AppConfig
  pub parse_claims : Text → Option (List Claim)
  pub is_dns1123_label : Text → Bool

pub record CachedEntry : Type 0 where
  pub template : PodTemplate
  pub info : FileInfo

abbrev pub Cache : Type 0
Cache = Table CachedEntry

abbrev pub has_positive_request : Claim → Bool
has_positive_request c = elim c.storage_request [
  | none ↦ false
  | some size ↦ not (leb_ℤ size (pos 0))
]

abbrev same_info : FileInfo → FileInfo → Bool
same_info a b = a.size == b.size && a.mod_time == b.mod_time

abbrev pub Parsed : Type 0
Parsed = Result ConfigError PodTemplate

remember : Cache → Text → FileInfo → Parsed → Parsed × Cache
remember cache path info (err e) = (err e, cache)
remember cache path info (ok t) = (ok t, insert path (record { template = t; info = info }) cache)

-- The template, with the path of its file.
abbrev pub Loaded : Type 0
Loaded = Result ConfigError (PodTemplate × Text) × Cache

with_path : Text → Parsed × Cache → Loaded
with_path path (err e, cache) = (err e, cache)
with_path path (ok t, cache) = (ok (t, path), cache)

-- The name of a template file without its extension.
unfoldable pub template_of_file : Text → Option Text
template_of_file filename =
    if has_suffix filename (codes ".yaml")
    then some (trim_suffix filename (codes ".yaml"))
    else if has_suffix filename (codes ".json")
    then some (trim_suffix filename (codes ".json"))
    else none

abbrev pub settings_template_name : Text
settings_template_name = codes "settings"

unfoldable pub is_skipped : List Text → Bool → Text → Bool
is_skipped seen is_dir template =
    is_dir
    || not (valid_template_name template)
    || template == settings_template_name
    || contains seen template

abbrev pub Names : Type 0
Names = Result ConfigError (List Text) × Cache

-- `persistent` is whether the server runs in persistent mode.
module _ (store : Store) (persistent : Bool) where
  open store use {stat, read_file, read_dir, parse_app, parse_claims, is_dns1123_label}

  -- The loop of `readClaims`.
  unfoldable pub check_claims : List Text → List Claim → Result ConfigError (Unit {0})
  check_claims seen [] = ok tt
  check_claims seen (c ∷ claims) =
      let rest = check_claims (c.name ∷ seen) claims in
      if not (is_dns1123_label c.name)
      then err (invalid_claim_name c.name)
      else if contains seen c.name
      then err (duplicate_claim c.name)
      else if has_positive_request c
      then rest
      else err (no_storage_request c.name)

  judge_claims : AppConfig → List Claim → Result ConfigError (Unit {0})
  unfolding check_claims
  judge_claims app [] = ok tt
  judge_claims app (c ∷ claims) =
      if not persistent || template_selects_non_persistent app
      then err claims_need_persistent_mode
      else check_claims [] (c ∷ claims)

  unfoldable pub read_claims : AppConfig → Text → Result ConfigError (List Claim)
  unfolding judge_claims
  read_claims app content = elim (parse_claims content) [
    | none ↦ err (invalid_claims [])
    | some claims ↦ elim (judge_claims app claims) [ err e ↦ err e | ok u ↦ ok claims ]
  ]

  -- Reading and parsing a file, with no cache.
  unfoldable pub parse_template : Text → Parsed
  unfolding read_claims
  parse_template path = elim (read_file path) [
    | none ↦ err (read_failed path)
    | some content ↦ elim (parse_app content) [
      | none ↦ err (invalid_yaml path)
      | some app ↦ elim (read_claims app content) [
        | err e ↦ err e
        | ok claims ↦ ok (record { app = app; claims = claims })
      ]
    ]
  ]

  reuse : Cache → Text → FileInfo → Option CachedEntry → Parsed × Cache
  unfolding remember
  reuse cache path info none = remember cache path info (parse_template path)
  reuse cache path info (some entry) =
      if same_info entry.info info
      then (ok entry.template, cache)
      else remember cache path info (parse_template path)

  unfoldable pub read_cached : Cache → Text → FileInfo → Parsed × Cache
  unfolding reuse
  read_cached cache path info = reuse cache path info (lookup path cache)

  -- The loop of `load` over the file names.
  unfoldable pub load_first : Text → Text → Cache → List Text → Loaded
  unfolding with_path
  load_first dir username cache [] = (err (no_matching_template username), cache)
  load_first dir username cache (name ∷ more) =
      let other = load_first dir username cache more in
      elim (safe_join dir name) [
        | err e ↦ (err e, cache)
        | ok path ↦ elim (stat path) [
          | missing ↦ other
          | unknown ↦ (err (stat_failed path), cache)
          | found info ↦ with_path path (read_cached cache path info)
        ]
      ]

  unfoldable pub load : Text → Cache → Text → Loaded
  load dir cache username =
      if valid_template_name username
      then load_first dir username cache
          ((username ++ codes ".yaml") ∷ (username ++ codes ".json") ∷ [])
      else (err (no_matching_template username), cache)

  -- The loop of `persistentTemplates`; the names are collected and sorted at its end.
  unfoldable pub collect : Text → Cache → List Text → List Text → List (Text × Bool) → Names
  collect dir cache seen templates [] = (ok (sort templates), cache)
  collect dir cache seen templates ((filename, is_dir) ∷ entries) =
      let skipped = collect dir cache seen templates entries in
      elim (template_of_file filename) [
        | none ↦ skipped
        | some template ↦
            let (result, cache') = load dir cache template in
            let kept = collect dir cache' (template ∷ seen) (templates ++ template ∷ []) entries in
            let passed = collect dir cache' (template ∷ seen) templates entries in
            if is_skipped seen is_dir template then skipped else elim result [
              | err e ↦ (err e, cache')
              | ok (t, path) ↦
                  if persistent && not (template_selects_non_persistent t.app) then kept else passed
            ]
      ]

  unfoldable pub persistent_templates : Text → Cache → Names
  unfolding collect
  persistent_templates dir cache = elim (read_dir dir) [
    | none ↦ (err directory_unreadable, cache)
    | some entries ↦ collect dir cache [] [] entries
  ]
