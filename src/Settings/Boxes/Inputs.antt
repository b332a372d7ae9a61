-- ===== src/Settings/Boxes/Inputs.antt =====
-- What the two inputs of the settings application are read as.
use dev_box.Common.{
  ℕ, ◌≡◌, ◌≢◌, ◌⊎◌, inl, inr, true, ◌||◌, List, [], ◌∷◌, ◌++◌, map, some, Text, All, contains,
  Distinct, ok, pos, negsuc, ◌==◌, ==→≡, ≢→==, text_eq, Bool-cases, Option-cases, arith,
}
use dev_box.Strings.Trim.{trim_space}
use dev_box.Strings.Split.{split}
use dev_box.Strings.Decimal.{atoi}
use dev_box.Strings.Sort.{sort, IsSorted, sort-IsSorted}
use dev_box.Strings.Sort.Members.{contains-sort, sort-Distinct, Distinct-snoc}
use dev_box.Settings.Boxes.{
  valid_template_name, parse_parts, parse_templates, parse_max_boxes, non_negative,
}

-- The cap is 0 where nothing is given, and else a number that is not negative.
abbrev pub IsCapOf : Text → ℕ → Type 0
IsCapOf value n =
    ((trim_space value ≡ []) × (n ≡ 0))
    ⊎ ((trim_space value ≢ []) × (atoi (trim_space value) ≡ some (pos n)))

pub parse_max_boxes-IsCapOf :
    (value : Text) (n : ℕ) → parse_max_boxes value ≡ ok n → IsCapOf value n
unfolding parse_max_boxes non_negative
parse_max_boxes-IsCapOf value n h = elim (Bool-cases (trim_space value == [])) [
  | inl empty ↦ inl (==→≡ _ _ empty, ground arith)
  | inr given ↦ elim (Option-cases (atoi (trim_space value))) [
    | inl missing ↦ absurd (ground arith)
    | inr (pos k, read) ↦ inr (ground arith, ground arith)
    | inr (negsuc k, read) ↦ absurd (ground arith)
  ]
]

-- The names between the commas, trimmed, and without the empty ones: each is a valid name. They are
-- listed in ascending order, each once.
abbrev pub AreNamesOf : Text → List Text → Type 0
AreNamesOf value templates =
    All (λ name. (name ≡ []) ⊎ (valid_template_name name ≡ true))
      (map trim_space (split b',' value))
    × ((name : Text)
        → name ≢ []
        → contains templates name ≡ contains (map trim_space (split b',' value)) name)
    × IsSorted templates
    × Distinct templates

abbrev Reads : List Text → List Text → List Text → Type 0
Reads seen names templates =
    All (λ name. (name ≡ []) ⊎ (valid_template_name name ≡ true)) names
    × ((name : Text)
        → name ≢ []
        → contains templates name ≡ (contains seen name || contains names name))
    × IsSorted templates
    × Distinct templates

contains-append_one :
    (l : List Text) (x y : Text) → contains (l ++ x ∷ []) y ≡ (contains l y || y == x)
contains-append_one [] x y = ground arith
contains-append_one (z ∷ l) x y = ground (arith, contains-append_one l x y)

parse_parts-Reads :
    (seen parts templates : List Text)
    → Distinct seen
    → parse_parts seen parts ≡ ok templates
    → Reads seen (map trim_space parts) templates
unfolding parse_parts
parse_parts-Reads seen [] templates d h =
    let e : sort seen ≡ templates = ground arith in
    rw (← e) (
      tt,
      λ name filled. ground (arith, contains-sort name seen),
      sort-IsSorted seen,
      sort-Distinct seen d,
    )
parse_parts-Reads seen (part ∷ parts) templates d h = elim (Bool-cases (trim_space part == [])) [
  | inl empty ↦
      let (valid, same, sorted, distinct) =
        parse_parts-Reads seen parts templates d (ground arith) in
      (
        (inl (==→≡ _ _ empty), valid),
        λ name filled. ground (arith, same name filled, ≢→== name [] filled),
        sorted,
        distinct,
      )
  | inr given ↦ elim (Bool-cases (valid_template_name (trim_space part))) [
    | inr bad ↦ absurd (ground arith)
    | inl good ↦ elim (Bool-cases (contains seen (trim_space part))) [
      | inl known ↦
          let (valid, same, sorted, distinct) =
            parse_parts-Reads seen parts templates d (ground arith) in
          (
            (inr good, valid),
            λ name filled. known_name name (same name filled) known,
            sorted,
            distinct,
          )
      | inr fresh ↦
          let (valid, same, sorted, distinct) =
            parse_parts-Reads (seen ++ trim_space part ∷ []) parts templates
              (Distinct-snoc (trim_space part) seen d fresh) (ground arith) in
          (
            (inr good, valid),
            λ name filled.
                ground (arith, same name filled, contains-append_one seen (trim_space part) name),
            sorted,
            distinct,
          )
    ]
  ]
]
  where
    known_name :
        (name : Text)
        → contains templates name ≡ (contains seen name || contains (map trim_space parts) name)
        → contains seen (trim_space part) ≡ true
        → contains templates name
          ≡ (contains seen name || contains (map trim_space (part ∷ parts)) name)
    known_name name e known = elim (Bool-cases (name == trim_space part)) [
      | inl same ↦ let eq : name ≡ trim_space part = ==→≡ _ _ same in ground (arith, eq)
      | inr other ↦ ground arith
    ]

pub parse_templates-AreNamesOf :
    (value : Text) (templates : List Text)
    → parse_templates value ≡ ok templates
    → AreNamesOf value templates
unfolding parse_templates
parse_templates-AreNamesOf value templates h =
    let (valid, same, sorted, distinct) = parse_parts-Reads [] (split b',' value) templates tt h in
    (valid, λ name filled. ground (arith, same name filled), sorted, distinct)
