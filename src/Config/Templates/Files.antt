-- ===== src/Config/Templates/Files.antt =====
-- The files of a template.
use dev_box.Common.{
  ℕ, ◌<◌, ◌≡◌, ◌≢◌, refl, ap, sym, ◌∙◌, ◌↔◌, ◌⊎◌, inl, inr, [], ◌∷◌, ◌++◌, some, Text, codes,
  length, Option-cases, arith,
}
use dev_box.Strings.Path.{cut_suffix, has_suffix, trim_suffix}
use dev_box.Strings.Path.Suffix.{cut_suffix-eq, cut_suffix-append}
use dev_box.Config.Templates.{template_of_file}

-- The name of a file of the template: the template's with one of the two extensions.
abbrev pub IsFileOf : Text → Text → Type 0
IsFileOf t filename = (filename ≡ t ++ codes ".yaml") ⊎ (filename ≡ t ++ codes ".json")

-- The last byte of `c ∷ s`.
abbrev last_of : ℕ → Text → ℕ
last_of c [] = c
last_of c (d ∷ s) = last_of d s

last_of-append : (c d : ℕ) (t s : Text) → last_of c (t ++ d ∷ s) ≡ last_of d s
last_of-append c d [] s = refl
last_of-append c d (b ∷ t) s = last_of-append b d t s

yaml-ne-json : (t u : Text) → t ++ codes ".yaml" ≢ u ++ codes ".json"
unfolding codes
yaml-ne-json t u e =
    let same = sym (last_of-append 0 b'.' t _) ∙ ap (last_of 0) e ∙ last_of-append 0 b'.' u _ in
    omega (arith, same)

json-ne-yaml : (t u : Text) → t ++ codes ".json" ≢ u ++ codes ".yaml"
json-ne-yaml t u e = yaml-ne-json u t (sym e)

extensions_filled : (0 < length (codes ".yaml")) × (0 < length (codes ".json"))
unfolding codes
extensions_filled = (omega arith, omega arith)

pub template_of_file-IsFileOf :
    (t filename : Text) → (template_of_file filename ≡ some t) ↔ IsFileOf t filename
unfolding template_of_file has_suffix trim_suffix
template_of_file-IsFileOf t filename = (to, from)
  where
    to : template_of_file filename ≡ some t → IsFileOf t filename
    to h = elim (Option-cases (cut_suffix (codes ".yaml") filename)) [
      | inr (u, first) ↦
          let e = cut_suffix-eq (codes ".yaml") filename u first in
          let same : u ≡ t = ground arith in inl (rw (← same) e)
      | inl no_yaml ↦ elim (Option-cases (cut_suffix (codes ".json") filename)) [
        | inr (u, second) ↦
            let e = cut_suffix-eq (codes ".json") filename u second in
            let same : u ≡ t = ground arith in inr (rw (← same) e)
        | inl no_json ↦ absurd (ground arith)
      ]
    ]

    from : IsFileOf t filename → template_of_file filename ≡ some t
    from (inl e) =
        let cut = cut_suffix-append (codes ".yaml") t extensions_filled.0 in
        rw e (rw (cut, template_of_file, has_suffix, trim_suffix) refl)
    from (inr e) = elim (Option-cases (cut_suffix (codes ".yaml") (t ++ codes ".json"))) [
      | inr (u, first) ↦ absurd (json-ne-yaml t u (cut_suffix-eq (codes ".yaml") _ u first))
      | inl no_yaml ↦
          let cut = cut_suffix-append (codes ".json") t extensions_filled.1 in
          rw e (
            rw (no_yaml, template_of_file, has_suffix, trim_suffix)
              (rw (cut, has_suffix, trim_suffix) refl))
    ]
