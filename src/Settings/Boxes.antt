-- ===== src/Settings/Boxes.antt =====
-- settings-tui/boxes.go: the trusted inputs, the names of the boxes, and two formats.
pub mod Inputs
pub mod Parse
pub mod Valid
use dev_box.Common.{
  ℕ, ◌+◌, ◌-◌, ◌*◌, ◌/◌, ◌%◌, min, Bool, true, false, ◌&&◌, ◌||◌, List, [], ◌∷◌, ◌++◌, Option, none,
  some, Text, codes, ℤ, pos, negsuc, take, all, contains, leb, ltb, Result, ok, err, ◌==◌,
  if◌then◌else◌, number_eq, text_eq,
}
use dev_box.Common.Table.{Table, lookup}
use dev_box.Strings.Trim.{trim_space}
use dev_box.Strings.Split.{split}
use dev_box.Strings.Sort.{sort}
use dev_box.Strings.Hex.{encode}
use dev_box.Strings.Decimal.{atoi, itoa}

unfoldable pub box_pod_name : (Text → Text) → Text → Text → Text
box_pod_name sha256 owner template =
    codes "box-" ++ take 10 (encode (sha256 (owner ++ 0 ∷ template)))

-- A rune beyond ASCII is refused, as each of its bytes is here.
abbrev is_name_byte : ℕ → Bool
is_name_byte r =
    (leb b'a' r && leb r b'z')
    || (leb b'A' r && leb r b'Z')
    || (leb b'0' r && leb r b'9')
    || r == b'.'
    || r == b'-'
    || r == b'_'

unfoldable pub valid_template_name : Text → Bool
valid_template_name [] = false
valid_template_name (r ∷ name) = all is_name_byte (r ∷ name)

pub data InputError : Type 0 where
  invalid_template_name invalid_max_boxes : Text → InputError

-- The loop of `parseTemplates`; `seen` holds just the names in `templates`.
unfoldable pub parse_parts : List Text → List Text → Result InputError (List Text)
parse_parts templates [] = ok (sort templates)
parse_parts templates (part ∷ parts) =
    let name = trim_space part in
    let skipped = parse_parts templates parts in
    let added = parse_parts (templates ++ name ∷ []) parts in
    if name == []
    then skipped
    else if valid_template_name name
    then (if contains templates name then skipped else added)
    else err (invalid_template_name name)

unfoldable pub parse_templates : Text → Result InputError (List Text)
unfolding parse_parts
parse_templates value = parse_parts [] (split b',' value)

non_negative : Text → Option ℤ → Result InputError ℕ
non_negative value (some (pos n)) = ok n
non_negative value _ = err (invalid_max_boxes value)

unfoldable pub parse_max_boxes : Text → Result InputError ℕ
unfolding non_negative
parse_max_boxes value =
    let trimmed = trim_space value in
    if trimmed == [] then ok 0 else non_negative trimmed (atoi trimmed)

-- A `time.Time` is its nanoseconds since the zero time, which is 0. `Sub` stops at the greatest
-- `Duration`. `d.Hours()` and `d.Minutes()` are read as exact.
abbrev pub Time : Type 0
Time = ℕ

abbrev pub minute : ℕ
minute = 60000000000

abbrev pub em_dash : Text
em_dash = 0xe2 ∷ 0x80 ∷ 0x94 ∷ []

unfoldable pub format_uptime : Time → Time → Text
format_uptime started now =
    let d = min (now - started) 9223372036854775807 in
    let days = d / (60 * minute) / 24 in
    let hours = d / (60 * minute) % 24 in
    let minutes = d / minute % 60 in
    if started == 0
    then em_dash
    else if ltb d minute
    then codes "up <1m"
    else if ltb 0 days
    then codes "up " ++ itoa (pos days) ++ codes "d" ++ itoa (pos hours) ++ codes "h"
    else if ltb 0 hours
    then codes "up " ++ itoa (pos hours) ++ codes "h" ++ itoa (pos minutes) ++ codes "m"
    else codes "up " ++ itoa (pos minutes) ++ codes "m"

-- A missing key of a Go map is the empty text.
abbrev found_or_empty : Option Text → Text
found_or_empty none = []
found_or_empty (some v) = v

unfoldable pub format_mem_cpu : Table Text → Text
format_mem_cpu quantities =
    let memory = found_or_empty (lookup (codes "memory") quantities) in
    let cpu = found_or_empty (lookup (codes "cpu") quantities) in
    if memory == []
    then (if cpu == [] then em_dash else cpu)
    else if cpu == []
    then memory
    else memory ++ codes "/" ++ cpu
