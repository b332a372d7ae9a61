-- ===== src/Config/Templates/Races.antt =====
-- The cache under concurrent requests: each asks for a file's size and time first, and reads through
-- the cache, which is locked, later. The directory changes at any time.
use dev_box.Common.{
  ℕ, zero, suc, ◌≤◌, ◌≡◌, refl, sym, ◌∙◌, inl, inr, Bool, [], Option, none, some, Text, ok, err,
  Bool-cases, number_eq, text_eq, ◌==◌, ==→≡, arith,
}
use native.Mathlib.Decide.{dec_lt}
use dev_box.Common.Table.{lookup, insert, lookup-insert}
use dev_box.Config.Templates.{
  Store, found, FileInfo, CachedEntry, Cache, Parsed, same_info, parse_template, read_cached,
  remember, reuse,
}
use dev_box.Config.Templates.Cache.{IsVersioned, same_info-eq}

-- The directory at each time. A version of a file that is gone does not come back.
abbrev pub NeverReturns : (ℕ → Store) → Type 0
NeverReturns dir =
    (path : Text) (info : FileInfo) (a b c : ℕ)
    → a ≤ b
    → b ≤ c
    → (dir a).stat path ≡ found info
    → (dir c).stat path ≡ found info
    → (dir b).stat path ≡ found info

module _ (dir : ℕ → Store) (persistent : Bool) where
  -- The caches that the server can have at a time. A request that reads has asked before.
  pub data Cached : ℕ → Cache → Type 0 where
    start : Cached zero []
    passes : {t : ℕ} {cache : Cache} → Cached t cache → Cached (suc t) cache
    reads :
        {t : ℕ} {cache : Cache} (path : Text) (info : FileInfo) (a : ℕ)
        → a ≤ t
        → (dir a).stat path ≡ found info
        → Cached t cache
        → Cached t (read_cached (dir t) persistent cache path info).1

  -- An entry was read from its file, after its size and time were asked for.
  abbrev WasRead : ℕ → Text → CachedEntry → Type 0
  WasRead t path entry =
      (a : ℕ) × (b : ℕ) × (a ≤ b)
      × (b ≤ t)
      × ((dir a).stat path ≡ found entry.info)
      × (parse_template (dir b) persistent path ≡ ok entry.template)

  AllRead : ℕ → Cache → Type 0
  AllRead t cache =
      (path : Text) (entry : CachedEntry) → lookup path cache ≡ some entry → WasRead t path entry

  insert-AllRead :
      (t : ℕ) (cache : Cache) (path : Text) (entry : CachedEntry)
      → AllRead t cache
      → WasRead t path entry
      → AllRead t (insert path entry cache)
  unfolding AllRead
  insert-AllRead t cache path entry all read j e held = elim (Bool-cases (j == path)) [
    | inl same ↦
        let at : j ≡ path = ==→≡ j path same in
        let it : entry ≡ e = ground (arith, lookup-insert j path entry cache) in
        rw at (rw (← it) read)
    | inr other ↦ all j e (ground (arith, lookup-insert j path entry cache))
  ]

  remember-AllRead :
      (t a : ℕ) (cache : Cache) (path : Text) (info : FileInfo) (parsed : Parsed)
      → a ≤ t
      → (dir a).stat path ≡ found info
      → parse_template (dir t) persistent path ≡ parsed
      → AllRead t cache
      → AllRead t (remember cache path info parsed).1
  unfolding remember
  remember-AllRead t a cache path info (err e) before s h all = all
  remember-AllRead t a cache path info (ok parsed) before s h all =
      insert-AllRead t cache path (record { template = parsed; info = info }) all
        (a, t, before, omega arith, s, h)

  WasRead-later :
      (t : ℕ) (path : Text) (entry : CachedEntry)
      → WasRead t path entry
      → WasRead (suc t) path entry
  WasRead-later t path entry (a, b, ab, bt, s, h) = (a, b, ab, omega arith, s, h)

  reuse-AllRead :
      (t a : ℕ) (cache : Cache) (path : Text) (info : FileInfo) (entry : Option CachedEntry)
      → a ≤ t
      → (dir a).stat path ≡ found info
      → AllRead t cache
      → AllRead t (reuse (dir t) persistent cache path info entry).1
  unfolding reuse
  reuse-AllRead t a cache path info none before s all =
      remember-AllRead t a cache path info _ before s refl all
  reuse-AllRead t a cache path info (some entry) before s all =
      elim (Bool-cases (same_info entry.info info)) [
        | inl same ↦ rw (same, reuse) all
        | inr other ↦ rw (other, reuse) (remember-AllRead t a cache path info _ before s refl all)
      ]

  Cached-AllRead : {t : ℕ} {cache : Cache} → Cached t cache → AllRead t cache
  unfolding AllRead read_cached lookup
  Cached-AllRead start path entry held = absurd (ground arith)
  Cached-AllRead (passes {t} {cache} c) path entry held =
      WasRead-later t path entry (Cached-AllRead c path entry held)
  Cached-AllRead (reads {t} {cache} file info a before s c) path entry held =
      reuse-AllRead t a cache file info (lookup file cache) before s (Cached-AllRead c) path entry
        held

  module _ (version : Text → FileInfo → Parsed)
      (versioned : (t : ℕ) → IsVersioned (dir t) persistent version)
      (never_returns : NeverReturns dir) where
    -- What was read for an older request is what the file held at this request's own asking, or later.
    InTime : ℕ → ℕ → Text → Parsed → Type 0
    InTime a t path result =
        (b : ℕ) × (a ≤ b) × (b ≤ t) × (result ≡ parse_template (dir b) persistent path)

    hit-InTime :
        (t a : ℕ) (path : Text) (entry : CachedEntry)
        → a ≤ t
        → (dir a).stat path ≡ found entry.info
        → WasRead t path entry
        → InTime a t path (ok entry.template)
    unfolding InTime
    hit-InTime t a path entry before s (c, b, cb, bt, asked, h) = elim (dec_lt b a) [
      | no later ↦ (b, omega arith, bt, sym h)
      | yes earlier ↦
          let then_too = never_returns path entry.info c b a cb (omega arith) asked s in
          (
            a,
            omega arith,
            before,
            sym h ∙ versioned b path entry.info then_too ∙ sym (versioned a path entry.info s),
          )
    ]

    result-remember :
        (cache : Cache) (path : Text) (info : FileInfo) (parsed : Parsed)
        → (remember cache path info parsed).0 ≡ parsed
    unfolding remember
    result-remember cache path info (err e) = refl
    result-remember cache path info (ok parsed) = refl

    reuse-InTime :
        (t a : ℕ) (cache : Cache) (path : Text) (info : FileInfo) (entry : Option CachedEntry)
        → lookup path cache ≡ entry
        → a ≤ t
        → (dir a).stat path ≡ found info
        → AllRead t cache
        → InTime a t path (reuse (dir t) persistent cache path info entry).0
    unfolding reuse InTime AllRead
    reuse-InTime t a cache path info none e before s all =
        (t, before, omega arith, result-remember cache path info _)
    reuse-InTime t a cache path info (some entry) e before s all =
        elim (Bool-cases (same_info entry.info info)) [
          | inr other ↦
              rw (other, reuse) (t, before, omega arith, result-remember cache path info _)
          | inl same ↦
              let at = rw (← same_info-eq entry.info info same) at s in
              rw (same, reuse) (hit-InTime t a path entry before at (all path entry e))
        ]

    -- Where the size and the time of change of a file identify what it parses to, and a version that is gone does not come back: however requests and changes of the directory interleave, a request that asked for a file at one time and reads it through the cache at a later one gets what the file parsed to at some moment in between.
    pub read_cached-InTime :
        {t : ℕ} {cache : Cache} (path : Text) (info : FileInfo) (a : ℕ)
        → Cached t cache
        → a ≤ t
        → (dir a).stat path ≡ found info
        → (b : ℕ) × (a ≤ b)
          × (b ≤ t)
          × ((read_cached (dir t) persistent cache path info).0
              ≡ parse_template (dir b) persistent path)
    unfolding read_cached InTime
    read_cached-InTime {t} {cache} path info a c before s =
        reuse-InTime t a cache path info (lookup path cache) refl before s (Cached-AllRead c)
