-- ===== src/Settings/Boxes/Valid.antt =====
-- The templates that are read are valid.
use dev_box.Common.{
  ◌≡◌, true, List, [], ◌∷◌, ◌++◌, All-snoc, ok, err, Result, Text, contains, ◌==◌, text_eq,
  Bool-cases, inl, inr,
}
use dev_box.Strings.Split.{split}
use dev_box.Strings.Sort.Members.{sort-All}
use dev_box.Strings.Trim.{trim_space}
use dev_box.Settings.Boxes.{InputError, valid_template_name, parse_parts, parse_templates}
use dev_box.Settings.Boxes.Parse.{AllValid}

-- Valid names, or an error.
abbrev Lists : Result InputError (List Text) → Type 0
Lists (err e) = Unit
Lists (ok templates) = AllValid templates

parse_parts-Lists :
    (templates parts : List Text) → AllValid templates → Lists (parse_parts templates parts)
unfolding parse_parts
parse_parts-Lists templates [] v = sort-All (λ name. valid_template_name name ≡ true) templates v
parse_parts-Lists templates (part ∷ parts) v =
    let name = trim_space part in
    let skipped = parse_parts-Lists templates parts v in
    elim (Bool-cases (name == [])) [
      | inl blank ↦ rw blank skipped
      | inr filled ↦ elim (Bool-cases (valid_template_name name)) [
        | inr bad ↦ rw filled (rw bad tt)
        | inl valid ↦ elim (Bool-cases (contains templates name)) [
          | inl again ↦ rw filled (rw valid (rw again skipped))
          | inr fresh ↦ rw filled (
              rw valid (
                rw fresh (
                  parse_parts-Lists (templates ++ name ∷ []) parts
                    (All-snoc (λ n. valid_template_name n ≡ true) name templates v valid))))
        ]
      ]
    ]

pub parse_templates-AllValid :
    (value : Text) (templates : List Text)
    → parse_templates value ≡ ok templates
    → AllValid templates
unfolding parse_templates
parse_templates-AllValid value templates h = rw h at (parse_parts-Lists [] (split b',' value) tt)
