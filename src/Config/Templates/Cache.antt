-- ===== src/Config/Templates/Cache.antt =====
-- The cache is not observable: a file's size and time of change identify its content.
use dev_box.Common.{
  ◌≡◌, refl, sym, ap, ◌∙◌, ◌⊎◌, inl, inr, Bool, true, List, [], ◌∷◌, ◌++◌, Option, none, some, Text,
  codes, Result, ok, err, Result-cases, Bool-cases, number_eq, text_eq, if◌then◌else◌, arith,
}
use dev_box.Common.Table.{lookup, insert, lookup-insert}
use dev_box.Config.Templates.{
  Store, Stat, missing, unknown, found, FileInfo, PodTemplate, CachedEntry, Cache, Parsed,
  same_info, ConfigError, no_matching_template, stat_failed, parse_template, read_cached, remember,
  reuse, with_path, load_first, load, safe_join, valid_template_name, Loaded,
}

-- `version path info` is what the version `info` of the file at `path` parses to. What the
-- directory holds now is the version that it reports.
abbrev pub IsVersioned : Store → Bool → (Text → FileInfo → Parsed) → Type 0
IsVersioned store persistent version =
    (path : Text) (info : FileInfo)
    → store.stat path ≡ found info
    → parse_template store persistent path ≡ version path info

-- Each entry holds what its version parses to.
abbrev pub IsCoherent : (Text → FileInfo → Parsed) → Cache → Type 0
IsCoherent version cache =
    (path : Text) (entry : CachedEntry)
    → lookup path cache ≡ some entry
    → version path entry.info ≡ ok entry.template

Stat-cases : (s : Stat) → (s ≡ missing) ⊎ ((s ≡ unknown) ⊎ ((info : FileInfo) × (s ≡ found info)))
Stat-cases missing = inl refl
Stat-cases unknown = inr (inl refl)
Stat-cases (found info) = inr (inr (info, refl))

pub same_info-eq : (a b : FileInfo) → same_info a b ≡ true → a ≡ b
same_info-eq a b h = ground arith

-- The template with its path, if it was read.
abbrev at_path : Text → Parsed → Result ConfigError (PodTemplate × Text)
at_path path (err e) = err e
at_path path (ok t) = ok (t, path)

-- A load that reads and parses every file anew.
module _ (store : Store) (persistent : Bool) (dir username : Text) where
  unfoldable pub fresh_first : List Text → Result ConfigError (PodTemplate × Text)
  fresh_first [] = err (no_matching_template username)
  fresh_first (name ∷ more) =
      let other = fresh_first more in
      elim (safe_join dir name) [
        | err e ↦ err e
        | ok path ↦ elim (store.stat path) [
          | missing ↦ other
          | unknown ↦ err (stat_failed path)
          | found info ↦ at_path path (parse_template store persistent path)
        ]
      ]

  unfoldable pub fresh_load : Result ConfigError (PodTemplate × Text)
  fresh_load =
      if valid_template_name username
      then fresh_first ((username ++ codes ".yaml") ∷ (username ++ codes ".json") ∷ [])
      else err (no_matching_template username)

module _ (version : Text → FileInfo → Parsed) where
  insert-IsCoherent :
      (cache : Cache) (path : Text) (entry : CachedEntry)
      → IsCoherent version cache
      → version path entry.info ≡ ok entry.template
      → IsCoherent version (insert path entry cache)
  insert-IsCoherent cache path entry c h j e held =
      ground (arith, c j e, lookup-insert j path entry cache)

  -- What a read of a file gives, and leaves in the cache.
  abbrev Reads : Parsed → Parsed × Cache → Type 0
  Reads fresh (result, cache) = (result ≡ fresh) × IsCoherent version cache

  remember-Reads :
      (cache : Cache) (path : Text) (info : FileInfo) (parsed : Parsed)
      → IsCoherent version cache
      → parsed ≡ version path info
      → Reads parsed (remember cache path info parsed)
  unfolding remember
  remember-Reads cache path info (err e) c h = (refl, c)
  remember-Reads cache path info (ok t) c h =
      (refl, insert-IsCoherent cache path (record { template = t; info = info }) c (sym h))

  module _ (store : Store) (persistent : Bool)
      (versioned : IsVersioned store persistent version) where
    reuse-Reads :
        (cache : Cache) (path : Text) (info : FileInfo) (entry : Option CachedEntry)
        → IsCoherent version cache
        → store.stat path ≡ found info
        → lookup path cache ≡ entry
        → Reads
            (parse_template store persistent path)
            (reuse store persistent cache path info entry)
    unfolding reuse
    reuse-Reads cache path info none c s e =
        remember-Reads cache path info _ c (versioned path info s)
    reuse-Reads cache path info (some entry) c s e = elim (Bool-cases (same_info entry.info info)) [
      | inl same ↦
          let i = same_info-eq entry.info info same in
          rw (same, reuse)
            (sym (c path entry e) ∙ ap (version path) i ∙ sym (versioned path info s), c)
      | inr other ↦ rw (other, reuse) (remember-Reads cache path info _ c (versioned path info s))
    ]

    read_cached-Reads :
        (cache : Cache) (path : Text) (info : FileInfo)
        → IsCoherent version cache
        → store.stat path ≡ found info
        → Reads
            (parse_template store persistent path)
            (read_cached store persistent cache path info)
    unfolding read_cached
    read_cached-Reads cache path info c s = reuse-Reads cache path info (lookup path cache) c s refl

    -- What a load gives, and leaves in the cache.
    abbrev LoadReads : Result ConfigError (PodTemplate × Text) → Loaded → Type 0
    LoadReads fresh (result, cache) = (result ≡ fresh) × IsCoherent version cache

    with_path-LoadReads :
        (path : Text) (parsed : Parsed) (r : Parsed × Cache)
        → Reads parsed r
        → LoadReads (at_path path parsed) (with_path path r)
    unfolding with_path
    with_path-LoadReads path parsed (err e, cache) (same, c) = (ap (at_path path) same, c)
    with_path-LoadReads path parsed (ok t, cache) (same, c) = (ap (at_path path) same, c)

    load_first-LoadReads :
        (dir username : Text) (cache : Cache) (names : List Text)
        → IsCoherent version cache
        → LoadReads
            (fresh_first store persistent dir username names)
            (load_first store persistent dir username cache names)
    unfolding load_first fresh_first
    load_first-LoadReads dir username cache [] c = (refl, c)
    load_first-LoadReads dir username cache (name ∷ more) c =
        elim (Result-cases (safe_join dir name)) [
          | inr (e, refused) ↦ rw (refused, load_first, fresh_first) (refl, c)
          | inl (path, joined) ↦ elim (Stat-cases (store.stat path)) [
            | inl gone ↦
                rw (joined, load_first, fresh_first)
                  (rw gone (load_first-LoadReads dir username cache more c))
            | inr (inl failed) ↦ rw (joined, load_first, fresh_first) (rw failed (refl, c))
            | inr (inr (info, s)) ↦
                rw (joined, load_first, fresh_first)
                  (rw s (with_path-LoadReads path _ _ (read_cached-Reads cache path info c s)))
          ]
        ]

    -- Where the size and the time of change of a file identify what it parses to, a load with a
    -- coherent cache gives what a load without a cache gives, the template or the error, and leaves
    -- the cache coherent.
    pub load-eq-fresh_load :
        (dir : Text) (cache : Cache) (username : Text)
        → IsCoherent version cache
        → ((load store persistent dir cache username).0 ≡ fresh_load store persistent dir username)
          × IsCoherent version (load store persistent dir cache username).1
    unfolding load fresh_load
    load-eq-fresh_load dir cache username c = elim (Bool-cases (valid_template_name username)) [
      | inr invalid ↦ rw (invalid, load, fresh_load) (refl, c)
      | inl valid ↦ rw (valid, load, fresh_load) (load_first-LoadReads dir username cache _ c)
    ]
