-- ===== src/Config/Access/Eligible.antt =====
-- Which templates of the directory are to be listed.
pub mod Collected
use dev_box.Common.{
  ◌≡◌, ◌≢◌, ◌↔◌, refl, ap, ◌∙◌, ==→≡, ◌⊎◌, inl, inr, Bool, true, false, not, ◌&&◌, List, [], ◌∷◌,
  ◌++◌, Option, none, some, Text, All, All-snoc, contains, ok, err, ◌==◌, ==_refl, text_eq,
  Bool-cases, Option-cases, Result-cases, arith,
}
use dev_box.Strings.Sort.{sort}
use dev_box.Strings.Sort.Members.{contains-sort, sort-All}
use dev_box.Config.App.{AppConfig, persistent_mode, template_selects_non_persistent}
use dev_box.Config.Templates.Files.{IsFileOf, template_of_file-IsFileOf}
use dev_box.Config.Templates.{
  Store, Cache, Names, PodTemplate, valid_template_name, load, is_skipped, template_of_file,
  collect, settings_template_name, persistent_templates,
}

-- A template leaves the mode of its pods open, or asks for persistent ones.
abbrev pub IsPersistent : AppConfig → Type 0
IsPersistent app = (app.pod.mode ≡ []) ⊎ (app.pod.mode ≡ persistent_mode)

-- A file of the directory is the template's.
abbrev HasFile : List (Text × Bool) → Text → Type 0
HasFile [] t = ⊥
HasFile ((filename, is_dir) ∷ entries) t =
    ((is_dir ≡ false) × IsFileOf t filename) ⊎ HasFile entries t

abbrev Includes : List Text → List Text → Type 0
Includes listed earlier = (t : Text) → contains earlier t ≡ true → contains listed t ≡ true

IsPersistent-selects :
    (app : AppConfig) → (template_selects_non_persistent app ≡ false) ↔ IsPersistent app
unfolding template_selects_non_persistent
IsPersistent-selects app = ground arith

contains-snoc : (t : Text) (l : List Text) → contains (l ++ t ∷ []) t ≡ true
contains-snoc t [] = ground (arith, ==_refl t)
contains-snoc t (x ∷ l) = ground (arith, contains-snoc t l)

Includes-snoc : (t : Text) (l : List Text) → Includes (l ++ t ∷ []) l
Includes-snoc t [] x h = ground arith
Includes-snoc t (y ∷ l) x h = ground (arith, Includes-snoc t l x)

module _ (store : Store) (persistent : Bool) (dir : Text) where
  -- The template was loaded, with the cache as it was then.
  abbrev IsLoaded : Text → PodTemplate → Type 0
  IsLoaded t template =
      (cache : Cache) × (cache' : Cache) × (path : Text) × (load store persistent dir cache t
        ≡ (ok (template, path), cache'))

  -- The server is in persistent mode, and the template is one for persistent boxes.
  abbrev IsEligible : Text → Type 0
  IsEligible t =
      (template : PodTemplate) × IsLoaded t template
      × (persistent ≡ true)
      × IsPersistent template.app

  -- The server is not, or the template is not.
  abbrev IsLeftOut : Text → Type 0
  IsLeftOut t =
      (template : PodTemplate) × IsLoaded t template
      × ((persistent ≡ false) ⊎ (IsPersistent template.app → ⊥))

  -- A name that a file of the directory gives is listed, or there is a reason why it is not.
  abbrev IsSettled : List Text → Text → Type 0
  IsSettled listed t =
      (contains listed t ≡ true)
      ⊎ IsLeftOut t
      ⊎ (valid_template_name t ≡ false)
      ⊎ (t ≡ settings_template_name)

  -- All names that the files of the directory give are settled.
  abbrev AreSettled : List Text → List (Text × Bool) → Type 0
  AreSettled listed entries = (t : Text) → HasFile entries t → IsSettled listed t

  abbrev AreEligible : List (Text × Bool) → List Text → Type 0
  AreEligible entries listed = All (λ t. HasFile entries t × IsEligible t) listed

  -- Each template that is listed is of a file of the directory, and eligible, and each name that a file
  -- of the directory gives is listed, or is left out for a reason.
  abbrev pub Lists : List Text → Type 0
  Lists listed =
      (entries : List (Text × Bool)) × (store.read_dir dir ≡ some entries)
      × AreEligible entries listed
      × AreSettled listed entries

  -- What has been seen is listed or left out.
  abbrev Seen : List Text → List Text → Type 0
  Seen seen listed = (t : Text) → contains seen t ≡ true → (contains listed t ≡ true) ⊎ IsLeftOut t

  abbrev Comes : List (Text × Bool) → List (Text × Bool) → List Text → Names → Type 0
  Comes all entries templates (err e, cache) = Unit
  Comes all entries templates (ok l, cache) =
      AreEligible all l
      × AreSettled l entries
      × ((t : Text) → contains templates t ≡ true → contains l t ≡ true)

  loaded-IsEligible :
      (t : Text) (template : PodTemplate)
      → IsLoaded t template
      → (persistent && not (template_selects_non_persistent template.app)) ≡ true
      → IsEligible t
  loaded-IsEligible t template loaded h =
      (template, loaded, ground arith, (IsPersistent-selects template.app).0 (ground arith))

  loaded-IsLeftOut :
      (t : Text) (template : PodTemplate)
      → IsLoaded t template
      → (persistent && not (template_selects_non_persistent template.app)) ≡ false
      → IsLeftOut t
  loaded-IsLeftOut t template loaded h = elim (Bool-cases persistent) [
    | inr off ↦ (template, loaded, inl off)
    | inl on ↦ (
      template,
      loaded,
      inr (λ p. let q = (IsPersistent-selects template.app).1 p in ground arith),
    )
  ]

  -- One more entry, whose name is settled in whatever is listed in the end.
  Comes-cons :
      (all entries : List (Text × Bool)) (entry : Text × Bool) (templates more : List Text)
      (r : Names)
      → Includes more templates
      → ((listed : List Text) → Includes listed more → AreSettled listed (entry ∷ []))
      → Comes all entries more r
      → Comes all (entry ∷ entries) templates r
  Comes-cons all entries entry templates more (err e, cache) grows settles h = tt
  Comes-cons all entries entry templates more (ok l, cache) grows settles
        (eligible, settled, incl) =
      (eligible, both, λ t h. incl t (grows t h))
    where
      both : AreSettled l (entry ∷ entries)
      both t (inl here) = settles l incl t (inl here)
      both t (inr later) = settled t later

  -- The name of the entry, if it has one.
  settles-by :
      (filename : Text) (is_dir : Bool) (template : Text) (listed : List Text)
      → template_of_file filename ≡ some template
      → (is_dir ≡ false → IsSettled listed template)
      → AreSettled listed ((filename, is_dir) ∷ [])
  settles-by filename is_dir template listed e h t (inl (file, named)) =
      let found = (template_of_file-IsFileOf t filename).1 named in
      let same : template ≡ t = ground arith in rw (← same) (h file)
  settles-by filename is_dir template listed e h t (inr no_more) = absurd no_more

  -- The same for an entry that gives a name.
  entry-Comes :
      (all entries : List (Text × Bool)) (filename : Text) (is_dir : Bool) (t : Text)
      (templates more : List Text) (r : Names)
      → template_of_file filename ≡ some t
      → Includes more templates
      → ((listed : List Text) → Includes listed more → is_dir ≡ false → IsSettled listed t)
      → Comes all entries more r
      → Comes all ((filename, is_dir) ∷ entries) templates r
  entry-Comes all entries filename is_dir t templates more r e grows settles =
      Comes-cons all entries (filename, is_dir) templates more r grows
        (λ listed incl. settles-by filename is_dir t listed e (settles listed incl))

  skipped-IsSettled :
      (seen templates listed : List Text) (is_dir : Bool) (t : Text)
      → Seen seen templates
      → Includes listed templates
      → is_skipped seen is_dir t ≡ true
      → is_dir ≡ false
      → IsSettled listed t
  unfolding is_skipped
  skipped-IsSettled seen templates listed is_dir t s incl skipped file =
      elim (Bool-cases (contains seen t)) [
        | inl earlier ↦ elim (s t earlier) [
          | inl known ↦ inl (incl t known)
          | inr left_out ↦ inr (inl left_out)
        ]
        | inr fresh ↦ inr (inr (ground arith))
      ]

  Seen-kept :
      (seen templates : List Text) (t : Text)
      → Seen seen templates
      → Seen (t ∷ seen) (templates ++ t ∷ [])
  Seen-kept seen templates t s x h = elim (Bool-cases (x == t)) [
    | inl same ↦ let e : x ≡ t = ==→≡ _ _ same in inl (rw e (contains-snoc t templates))
    | inr other ↦ elim (s x (ground arith)) [
      | inl known ↦ inl (Includes-snoc t templates x known)
      | inr left_out ↦ inr left_out
    ]
  ]

  Seen-passed :
      (seen templates : List Text) (t : Text)
      → Seen seen templates
      → IsLeftOut t
      → Seen (t ∷ seen) templates
  Seen-passed seen templates t s out x h = elim (Bool-cases (x == t)) [
    | inl same ↦ let e : x ≡ t = ==→≡ _ _ same in inr (rw e out)
    | inr other ↦ s x (ground arith)
  ]
