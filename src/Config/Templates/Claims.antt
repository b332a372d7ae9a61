-- ===== src/Config/Templates/Claims.antt =====
-- config-server/storage.go, `readClaims`: which claims a template may declare.
use dev_box.Common.{
  ◌≡◌, ◌≢◌, refl, inl, inr, Bool, true, false, ◌||◌, not, List, [], ◌∷◌, map, Text, All, contains,
  Distinct, ok, text_eq, Bool-cases, Option-cases, Result-cases, arith,
}
use dev_box.Config.App.{AppConfig, Claim, template_selects_non_persistent}
use dev_box.Config.Templates.{
  PodTemplate, Store, has_positive_request, check_claims, judge_claims, read_claims, parse_template,
}

abbrev pub names_of : List Claim → List Text
names_of = map (λ c. c.name)

module _ (store : Store) (persistent : Bool) where
  -- A legal name, and a positive request.
  abbrev pub IsDeclarable : Claim → Type 0
  IsDeclarable c = (store.is_dns1123_label c.name ≡ true) × (has_positive_request c ≡ true)

  -- Claims with distinct legal names and positive requests, and none unless the template is made a
  -- persistent box.
  pub record AreClaims (app : AppConfig) (claims : List Claim) : Type 0 where
    pub declarable : All IsDeclarable claims
    pub distinct : Distinct (names_of claims)
    pub of_box : claims ≢ [] → (persistent ≡ true) × (template_selects_non_persistent app ≡ false)

  abbrev AreNew : List Text → List Claim → Type 0
  AreNew seen = All (λ c. contains seen c.name ≡ false)

  AreNew-cons :
      (name : Text) (seen : List Text) (claims : List Claim)
      → AreNew (name ∷ seen) claims
      → (contains (names_of claims) name ≡ false) × AreNew seen claims
  AreNew-cons name seen [] h = (refl, tt)
  AreNew-cons name seen (c ∷ claims) (new, h) =
      let (fresh, later) = AreNew-cons name seen claims h in (ground arith, (ground arith, later))

  check_claims-ok :
      (seen : List Text) (claims : List Claim) (u : Unit {0})
      → check_claims store persistent seen claims ≡ ok u
      → All IsDeclarable claims × Distinct (names_of claims) × AreNew seen claims
  unfolding check_claims
  check_claims-ok seen [] u h = (tt, tt, tt)
  check_claims-ok seen (c ∷ claims) u h = elim (Bool-cases (store.is_dns1123_label c.name)) [
    | inr bad ↦ absurd (ground arith)
    | inl legal ↦ elim (Bool-cases (contains seen c.name)) [
      | inl twice ↦ absurd (ground arith)
      | inr new ↦ elim (Bool-cases (has_positive_request c)) [
        | inr empty ↦
            let refused = rw empty at (rw new at (rw (legal, check_claims) at h)) in
            absurd (ground arith)
        | inl requested ↦
            let (declarable, distinct, are_new) =
              check_claims-ok (c.name ∷ seen) claims u
                (rw requested at (rw new at (rw (legal, check_claims) at h))) in
            let (fresh, later) = AreNew-cons c.name seen claims are_new in
            (((legal, requested), declarable), (fresh, distinct), (new, later))
      ]
    ]
  ]

  judge_claims-ok :
      (app : AppConfig) (claims : List Claim) (u : Unit {0})
      → judge_claims store persistent app claims ≡ ok u
      → AreClaims app claims
  unfolding judge_claims
  judge_claims-ok app [] u h = record {
    declarable = tt;
    distinct = tt;
    of_box = λ ne. absurd (ne refl);
  }
  judge_claims-ok app (c ∷ claims) u h =
      elim (Bool-cases (not persistent || template_selects_non_persistent app)) [
        | inl refused ↦ absurd (ground arith)
        | inr box ↦
            let (declarable, distinct, _) =
              check_claims-ok [] (c ∷ claims) u (rw (box, judge_claims) at h) in
            record { declarable = declarable; distinct = distinct; of_box = λ ne. ground arith }
      ]

  read_claims-ok :
      (app : AppConfig) (content : Text) (claims : List Claim)
      → read_claims store persistent app content ≡ ok claims
      → AreClaims app claims
  unfolding read_claims
  read_claims-ok app content claims h = elim (Option-cases (store.parse_claims content)) [
    | inl broken ↦ absurd (ground arith)
    | inr (parsed, read) ↦ elim (Result-cases (judge_claims store persistent app parsed)) [
      | inr (e, refused) ↦ absurd (ground arith)
      | inl (u, fine) ↦
          let same : parsed ≡ claims = ground arith in
          rw same at (judge_claims-ok app parsed u fine)
    ]
  ]

  -- A template that is read declares claims with distinct legal names and positive storage requests,
  -- and any at all only if the server is persistent and the template does not opt out.
  pub parse_template-ok :
      (path : Text) (t : PodTemplate)
      → parse_template store persistent path ≡ ok t
      → AreClaims t.app t.claims
  unfolding parse_template
  parse_template-ok path t h = elim (Option-cases (store.read_file path)) [
    | inl unread ↦ absurd (ground arith)
    | inr (content, found) ↦ elim (Option-cases (store.parse_app content)) [
      | inl broken ↦ absurd (ground arith)
      | inr (app, parsed) ↦ elim (Result-cases (read_claims store persistent app content)) [
        | inr (e, refused) ↦ absurd (ground arith)
        | inl (claims, read) ↦
            let same_app : app ≡ t.app = ground arith in
            let same_claims : claims ≡ t.claims = ground arith in
            rw same_app at (rw same_claims at (read_claims-ok app content claims read))
      ]
    ]
  ]
