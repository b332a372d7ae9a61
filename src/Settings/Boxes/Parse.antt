-- ===== src/Settings/Boxes/Parse.antt =====
-- Parsing the lists that the config server writes.
use mathlib.Core.Bool.{and-eq-true_iff}
use mathlib.Core.List.{append_assoc, append-nil}
use dev_box.Common.{
  ℕ, ◌≡◌, refl, ap, ◌∙◌, true, false, ◌||◌, List, [], ◌∷◌, ◌++◌, Text, All, all, contains, Distinct,
  ok, err, ◌==◌, number_eq, text_eq, ≢→==, arith, Result, err, some, bytes_dec, ℤ, pos, negsuc, ◌≤◌,
}
use dev_box.Strings.Trim.{trim_space, trim_space-eq_self, is_graphic}
use dev_box.Strings.Split.{Lacks, AllLack, split, join, split-join}
use dev_box.Strings.Decimal.{itoa, atoi, max_int}
use dev_box.Strings.Decimal.Laws.{atoi-itoa_pos, atoi-itoa_negsuc, all-itoa, itoa-ne-nil}
use dev_box.Strings.Sort.{sort, IsSorted, sort-eq_self}
use dev_box.Settings.Boxes.{
  is_name_byte, valid_template_name, parse_parts, parse_templates, parse_max_boxes, non_negative,
  InputError, invalid_max_boxes,
}

-- None of the names of `l` is in `seen`.
abbrev Fresh : List Text → List Text → Type 0
Fresh seen [] = Unit
Fresh seen (x ∷ l) = (contains seen x ≡ false) × Fresh seen l

abbrev pub AllValid : List Text → Type 0
AllValid = All (λ name. valid_template_name name ≡ true)

name_byte_facts : (c : ℕ) → is_name_byte c ≡ true → (is_graphic c ≡ true) × ((c == b',') ≡ false)
name_byte_facts c h = ground arith

valid_name_facts : (s : Text) → all is_name_byte s ≡ true → (all is_graphic s ≡ true) × Lacks b',' s
valid_name_facts [] h = (refl, refl)
valid_name_facts (c ∷ s) h =
    let (here, later) = (and-eq-true_iff (is_name_byte c) (all is_name_byte s)).0 h in
    let (graphic, lacks) = valid_name_facts s later in
    let (graphic_c, lacks_c) = name_byte_facts c here in (rw graphic_c graphic, rw lacks_c lacks)

-- A valid name is not empty, has no comma, and is left as it is by trimming.
pub valid_template_name-graphic :
    (s : Text) → valid_template_name s ≡ true → all is_graphic s ≡ true
unfolding valid_template_name
valid_template_name-graphic [] h = cc
valid_template_name-graphic (c ∷ s) h = (valid_name_facts (c ∷ s) h).0

valid_template_name_facts :
    (s : Text)
    → valid_template_name s ≡ true
    → (trim_space s ≡ s) × ((s == []) ≡ false) × Lacks b',' s
unfolding valid_template_name
valid_template_name_facts [] h = cc
valid_template_name_facts (c ∷ s) h =
    let (graphic, lacks) = valid_name_facts (c ∷ s) h in
    (trim_space-eq_self (c ∷ s) graphic, ground arith, lacks)

AllLack-of_AllValid : (l : List Text) → AllValid l → AllLack b',' l
AllLack-of_AllValid [] h = tt
AllLack-of_AllValid (x ∷ l) (h, hs) = ((valid_template_name_facts x h).2, AllLack-of_AllValid l hs)

contains-snoc : (l : List Text) (x y : Text) → contains (l ++ x ∷ []) y ≡ (contains l y || (y == x))
contains-snoc [] x y = ground arith
contains-snoc (z ∷ l) x y = ground (arith, contains-snoc l x y)

Fresh-snoc :
    (seen l : List Text) (x : Text) → Fresh seen l → contains l x ≡ false → Fresh (seen ++ x ∷ []) l
Fresh-snoc seen [] x h k = tt
Fresh-snoc seen (y ∷ l) x (h, hs) k =
    (ground (arith, contains-snoc seen x y), Fresh-snoc seen l x hs (ground arith))

parse_parts-ok :
    (seen l : List Text)
    → AllValid l
    → Distinct l
    → Fresh seen l
    → parse_parts seen l ≡ ok (sort (seen ++ l))
unfolding parse_parts
parse_parts-ok seen [] v d f = rw append-nil
parse_parts-ok seen (x ∷ l) (v, vs) (d, ds) (f, fs) =
    let (trimmed, filled, _) = valid_template_name_facts x v in
    let ih = parse_parts-ok (seen ++ x ∷ []) l vs ds (Fresh-snoc seen l x fs d) in
    rw (trimmed, filled) (rw (v, f) (ih ∙ rw append_assoc))

Fresh-nil : (l : List Text) → Fresh [] l
Fresh-nil [] = tt
Fresh-nil (x ∷ l) = (refl, Fresh-nil l)

parse_templates-nil : parse_templates [] ≡ ok []
unfolding parse_templates split sort trim_space bytes_dec
parse_templates-nil = refl

-- A sorted list of valid names, none listed twice, comes back from its text with commas.
pub parse_templates-join :
    (templates : List Text)
    → AllValid templates
    → Distinct templates
    → IsSorted templates
    → parse_templates (join b',' templates) ≡ ok templates
unfolding parse_templates join
parse_templates-join [] v d s = parse_templates-nil
parse_templates-join (x ∷ l) v d s =
    rw (split-join b',' x l (valid_template_name_facts x v.0).2 (AllLack-of_AllValid l v.1))
      (parse_parts-ok [] (x ∷ l) v d (Fresh-nil (x ∷ l)) ∙ ap ok (sort-eq_self (x ∷ l) s))

-- What the application makes of a cap.
abbrev pub read_cap : ℤ → Result InputError ℕ
read_cap (pos n) = ok n
read_cap (negsuc n) = err (invalid_max_boxes (itoa (negsuc n)))

abbrev pub Fits64 : ℤ → Type 0
Fits64 (pos n) = n ≤ max_int
Fits64 (negsuc n) = n ≤ max_int

atoi-itoa : (cap : ℤ) → Fits64 cap → atoi (itoa cap) ≡ some cap
atoi-itoa (pos n) h = atoi-itoa_pos n h
atoi-itoa (negsuc n) h = atoi-itoa_negsuc n h

non_negative-cap : (cap : ℤ) → non_negative (itoa cap) (some cap) ≡ read_cap cap
unfolding non_negative
non_negative-cap (pos n) = refl
non_negative-cap (negsuc n) = refl

-- A 64-bit cap that is written in decimal is read back if it is not negative, and refused if it is.
pub parse_max_boxes-itoa : (cap : ℤ) → Fits64 cap → parse_max_boxes (itoa cap) ≡ read_cap cap
unfolding parse_max_boxes
parse_max_boxes-itoa cap h =
    rw (trim_space-eq_self (itoa cap) (all-itoa cap))
      (rw (≢→== (itoa cap) [] (itoa-ne-nil cap)) (rw (atoi-itoa cap h) (non_negative-cap cap)))
