-- ===== src/Tests/Races.antt =====
-- A template that changes between the two steps of a request.
use dev_box.Common.{
  ℕ, ◌≤◌, ◌≡◌, refl, ap, true, [], none, Text, codes, ltb, ◌==◌, number_eq, if◌then◌else◌, arith,
}
use dev_box.Config.Templates.{Store, found, FileInfo, Parsed, Cache, parse_template, read_cached}
use dev_box.Config.Templates.Cache.{IsVersioned}
use dev_box.Config.Templates.Races.{NeverReturns, Cached, start, passes, reads, read_cached-InTime}
use dev_box.Tests.Serving.{store}

abbrev old : Store
old = store

-- The file after its change; it no longer parses.
abbrev new : Store
new = record store {
  stat = λ path. found (record { size = 1; mod_time = 2 });
  parse_app = λ content. none;
}

abbrev dir : ℕ → Store
dir t = if ltb t 2 then old else new

abbrev version : Text → FileInfo → Parsed
version path info = parse_template (if info.mod_time == 1 then old else new) true path

mod_time-dir :
    (t : ℕ) (path : Text) (info : FileInfo)
    → (dir t).stat path ≡ found info
    → ltb t 2 ≡ (info.mod_time == 1)
mod_time-dir t path info h = ground arith

dir-IsVersioned : (t : ℕ) → IsVersioned (dir t) true version
dir-IsVersioned t path info h =
    ap (λ b. parse_template (if b then old else new) true path) (mod_time-dir t path info h)

dir-NeverReturns : NeverReturns dir
dir-NeverReturns path info a b c ab bc s r = ground arith

abbrev old_info : FileInfo
old_info = record { size = 1; mod_time = 1 }

abbrev new_info : FileInfo
new_info = record { size = 1; mod_time = 2 }

-- A request has read the file before it changed; another one asked before and reads after that.
abbrev first_cache : Cache
first_cache = (read_cached (dir 1) true [] (codes "t/go.yaml") old_info).1

abbrev raced_cache : Cache
raced_cache = (read_cached (dir 2) true first_cache (codes "t/go.yaml") old_info).1

raced : Cached dir true 2 raced_cache
raced =
    reads (codes "t/go.yaml") old_info 1 (omega arith) refl
      (passes (reads (codes "t/go.yaml") old_info 0 (omega arith) refl (passes start)))

-- It is served the entry, which is what the file held when it asked.
read_cached-InTime_example :
    (b : ℕ) × (1 ≤ b)
    × (b ≤ 2)
    × ((read_cached (dir 2) true raced_cache (codes "t/go.yaml") old_info).0
        ≡ parse_template (dir b) true (codes "t/go.yaml"))
read_cached-InTime_example =
    read_cached-InTime dir true version dir-IsVersioned dir-NeverReturns (codes "t/go.yaml")
      old_info 1 raced (omega arith) refl
