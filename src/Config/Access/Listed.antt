-- ===== src/Config/Access/Listed.antt =====
-- The list of the persistent templates.
use dev_box.Common.{
  All-snoc, ◌≡◌, ◌≢◌, refl, inl, inr, Bool, true, false, not, ◌&&◌, List, [], ◌∷◌, ◌++◌, Text, All,
  contains, Distinct, ok, err, text_eq, Bool-cases, Option-cases, Result-cases, arith,
}
use dev_box.Strings.Sort.{IsSorted, sort-IsSorted}
use dev_box.Strings.Sort.Members.{sort-Distinct, sort-All, Distinct-snoc}
use dev_box.Config.App.{template_selects_non_persistent}
use dev_box.Config.Templates.{
  Store, Cache, Names, valid_template_name, load, is_skipped, template_of_file, collect,
  settings_template_name, persistent_templates,
}

-- A name that is listed: valid, and not that of the settings application.
abbrev pub IsListable : Text → Type 0
IsListable t = (valid_template_name t ≡ true) × (t ≢ settings_template_name)

abbrev Within : List Text → List Text → Type 0
Within seen l = All (λ t. contains seen t ≡ true) l

Within-cons : (t : Text) (seen l : List Text) → Within seen l → Within (t ∷ seen) l
Within-cons t seen [] h = tt
Within-cons t seen (x ∷ l) (h, hs) = (ground arith, Within-cons t seen l hs)

Within-snoc : (t : Text) (seen l : List Text) → Within seen l → Within (t ∷ seen) (l ++ t ∷ [])
Within-snoc t seen [] h = (ground arith, tt)
Within-snoc t seen (x ∷ l) (h, hs) = (ground arith, Within-snoc t seen l hs)

not_listed :
    (t : Text) (seen l : List Text) → Within seen l → contains seen t ≡ false → contains l t ≡ false
not_listed t seen [] h k = refl
not_listed t seen (x ∷ l) (h, hs) k = ground (arith, not_listed t seen l hs k)

-- What is collected so far, and what comes out.
abbrev IsCollected : List Text → List Text → Type 0
IsCollected seen l = Within seen l × Distinct l × All IsListable l

abbrev pub IsTemplateList : List Text → Type 0
IsTemplateList l = IsSorted l × Distinct l × All IsListable l

abbrev Comes : Names → Type 0
Comes (err e, cache) = Unit
Comes (ok l, cache) = IsTemplateList l

not_skipped :
    (seen : List Text) (is_dir : Bool) (t : Text)
    → is_skipped seen is_dir t ≡ false
    → IsListable t × (contains seen t ≡ false)
unfolding is_skipped
not_skipped seen is_dir t h = ground arith

module _ (store : Store) (persistent : Bool) (dir : Text) where
  collect-Comes :
      (cache : Cache) (seen templates : List Text) (entries : List (Text × Bool))
      → IsCollected seen templates
      → Comes (collect store persistent dir cache seen templates entries)
  unfolding collect
  collect-Comes cache seen templates [] (w, d, v) =
      (sort-IsSorted templates, sort-Distinct templates d, sort-All IsListable templates v)
  collect-Comes cache seen templates ((filename, is_dir) ∷ entries) (w, d, v) =
      elim (Option-cases (template_of_file filename)) [
        | inl other ↦ rw (other, collect) (collect-Comes cache seen templates entries (w, d, v))
        | inr (template, e) ↦ elim (Bool-cases (is_skipped seen is_dir template)) [
          | inl skipped ↦
              rw (e, collect) (rw skipped (collect-Comes cache seen templates entries (w, d, v)))
          | inr taken ↦
              let (listable, fresh) = not_skipped seen is_dir template taken in
              let r = load store persistent dir cache template in
              let w' = Within-cons template seen templates w in
              let added : IsCollected (template ∷ seen) (templates ++ template ∷ []) = (
                Within-snoc template seen templates w,
                Distinct-snoc template templates d (not_listed template seen templates w fresh),
                All-snoc IsListable template templates v listable,
              ) in
              let kept =
                collect-Comes r.1 (template ∷ seen) (templates ++ template ∷ []) entries added in
              let passed = collect-Comes r.1 (template ∷ seen) templates entries (w', d, v) in
              elim (Result-cases r.0) [
                | inr (x, failed) ↦ rw (e, collect) (rw taken (rw failed tt))
                | inl ((t, path), read) ↦
                    elim (Bool-cases (persistent && not (template_selects_non_persistent t.app))) [
                      | inl box ↦ rw (e, collect) (rw taken (rw read (rw box kept)))
                      | inr none_such ↦ rw (e, collect) (rw taken (rw read (rw none_such passed)))
                    ]
              ]
        ]
      ]

  -- The templates that are listed are in ascending order, each once, and each is a valid name
  -- other than that of the settings application.
  pub persistent_templates-IsTemplateList :
      (cache cache' : Cache) (templates : List Text)
      → persistent_templates store persistent dir cache ≡ (ok templates, cache')
      → IsTemplateList templates
  unfolding persistent_templates
  persistent_templates-IsTemplateList cache cache' templates h =
      elim (Option-cases (store.read_dir dir)) [
        | inl unreadable ↦ absurd (ground arith)
        | inr (entries, read) ↦
            let listed : collect store persistent dir cache [] [] entries ≡ (ok templates, cache') =
              ground arith in
            rw listed at (collect-Comes cache [] [] entries (tt, tt, tt))
      ]
