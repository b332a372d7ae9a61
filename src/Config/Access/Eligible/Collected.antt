-- ===== src/Config/Access/Eligible/Collected.antt =====
-- Which templates of the directory are listed: the loop over the entries.
use dev_box.Common.{
  if◌then◌else◌, ◌≡◌, ap, ◌∙◌, inl, inr, Bool, false, not, ◌&&◌, List, [], ◌∷◌, ◌++◌, none, some,
  Text, All-snoc, ok, text_eq, Bool-cases, Option-cases, Result-cases, arith,
}
use dev_box.Strings.Sort.Members.{contains-sort, sort-All}
use dev_box.Config.App.{template_selects_non_persistent}
use dev_box.Config.Templates.Files.{template_of_file-IsFileOf}
use dev_box.Config.Templates.{
  Store, Cache, Names, PodTemplate, load, is_skipped, template_of_file, collect,
  persistent_templates,
}
use dev_box.Config.Access.Eligible.{
  Lists, HasFile, contains-snoc, Includes-snoc, IsLoaded, AreEligible, Seen, Comes,
  loaded-IsEligible, loaded-IsLeftOut, Comes-cons, entry-Comes, skipped-IsSettled, Seen-kept,
  Seen-passed,
}

taken-file :
    (seen : List Text) (is_dir : Bool) (t : Text)
    → is_skipped seen is_dir t ≡ false
    → is_dir ≡ false
unfolding is_skipped
taken-file seen is_dir t h = ground arith

abbrev IsPartOf : List (Text × Bool) → List (Text × Bool) → Type 0
IsPartOf all entries = (t : Text) → HasFile entries t → HasFile all t

module _ (store : Store) (persistent : Bool) (dir : Text) where
  loaded-Comes :
      (all entries : List (Text × Bool)) (filename : Text) (is_dir : Bool) (t : Text)
      (seen templates : List Text) (template : PodTemplate) (kept passed : Names)
      → template_of_file filename ≡ some t
      → IsLoaded store persistent dir t template
      → HasFile all t
      → AreEligible store persistent dir all templates
      → Seen store persistent dir seen templates
      → (AreEligible store persistent dir all (templates ++ t ∷ [])
          → Seen store persistent dir (t ∷ seen) (templates ++ t ∷ [])
          → Comes store persistent dir all entries (templates ++ t ∷ []) kept)
      → (Seen store persistent dir (t ∷ seen) templates
          → Comes store persistent dir all entries templates passed)
      → Comes store persistent dir all ((filename, is_dir) ∷ entries) templates (
          if persistent && not (template_selects_non_persistent template.app) then kept else passed)
  loaded-Comes all entries filename is_dir t seen templates template kept passed e loaded file
        eligible s on_kept on_passed =
      elim (Bool-cases (persistent && not (template_selects_non_persistent template.app))) [
        | inl box ↦
            let box_of = loaded-IsEligible store persistent dir t template loaded box in
            rw box (
              entry-Comes store persistent dir all entries filename is_dir t templates
                (templates ++ t ∷ []) kept e (Includes-snoc t templates)
                (λ listed incl f. inl (incl t (contains-snoc t templates)))
                (on_kept (All-snoc _ t templates eligible (file, box_of))
                  (Seen-kept store persistent dir seen templates t s)))
        | inr other ↦
            let out = loaded-IsLeftOut store persistent dir t template loaded other in
            rw other (
              entry-Comes store persistent dir all entries filename is_dir t templates templates
                passed e (λ t h. h) (λ listed incl f. inr (inl out))
                (on_passed (Seen-passed store persistent dir seen templates t s out)))
      ]

  collect-Comes :
      (all : List (Text × Bool)) (cache : Cache) (seen templates : List Text)
      (entries : List (Text × Bool))
      → IsPartOf all entries
      → AreEligible store persistent dir all templates
      → Seen store persistent dir seen templates
      → Comes store persistent dir all entries templates
          (collect store persistent dir cache seen templates entries)
  unfolding collect
  collect-Comes all cache seen templates [] part eligible s = (
    sort-All _ templates eligible,
    λ t none_left. absurd none_left,
    λ t h. contains-sort t templates ∙ h,
  )
  collect-Comes all cache seen templates ((filename, is_dir) ∷ entries) part eligible s =
      let part' : IsPartOf all entries = λ t h. part t (inr h) in
      elim (Option-cases (template_of_file filename)) [
        | inl other ↦
            rw (other, collect)
              (Comes-cons store persistent dir all entries (filename, is_dir) templates templates _
                (λ t h. h) (λ listed incl t h. absurd (no_template t h other))
                (collect-Comes all cache seen templates entries part' eligible s))
        | inr (t, e) ↦ elim (Bool-cases (is_skipped seen is_dir t)) [
          | inl skipped ↦
              rw (e, collect)
                (rw skipped (
                  entry-Comes store persistent dir all entries filename is_dir t templates templates
                    _ e (λ t h. h)
                    (λ listed incl.
                      skipped-IsSettled store persistent dir seen templates listed is_dir t s incl
                        skipped)
                    (collect-Comes all cache seen templates entries part' eligible s)))
          | inr taken ↦ elim (Result-cases (load store persistent dir cache t).0) [
            | inr (x, failed) ↦ rw (e, collect) (rw taken (rw failed tt))
            | inl ((template, path), read) ↦
                let r = load store persistent dir cache t in
                let file = part t (
                  inl
                    (taken-file seen is_dir t taken, (template_of_file-IsFileOf t filename).0 e)) in
                rw (e, collect)
                  (rw taken (
                    rw read (
                      loaded-Comes all entries filename is_dir t seen templates template _ _ e
                        (cache, r.1, path, ap (λ x. (x, r.1)) read) file eligible s
                        (collect-Comes all r.1 (t ∷ seen) (templates ++ t ∷ []) entries part')
                        (collect-Comes all r.1 (t ∷ seen) templates entries part' eligible))))
          ]
        ]
      ]
    where
      no_template :
          (t : Text) → HasFile ((filename, is_dir) ∷ []) t → template_of_file filename ≡ none → ⊥
      no_template t (inl (file, named)) other =
          let found = (template_of_file-IsFileOf t filename).1 named in cc
      no_template t (inr no_more) other = no_more

  pub persistent_templates-Lists :
      (cache cache' : Cache) (templates : List Text)
      → persistent_templates store persistent dir cache ≡ (ok templates, cache')
      → Lists store persistent dir templates
  unfolding persistent_templates
  persistent_templates-Lists cache cache' templates h = elim (Option-cases (store.read_dir dir)) [
    | inl unreadable ↦ absurd (ground arith)
    | inr (entries, read) ↦
        let listed : collect store persistent dir cache [] [] entries ≡ (ok templates, cache') =
          ground arith in
        let (eligible, settled, _) = rw listed at (
          collect-Comes entries cache [] [] entries (λ t file. file) tt
            (λ t h. absurd (ground arith))) in
        (entries, read, eligible, settled)
  ]
