-- ===== src/Config/Naming/Pods.antt =====
-- Pod names.
use dev_box.Common.{
  ℕ, ◌≤◌, ◌≡◌, refl, ◌≢◌, ◌⊎◌, inl, inr, Bool, true, ◌&&◌, ◌||◌, [], ◌∷◌, ◌++◌, Text, codes, length,
  all, leb, ◌==◌, number_eq, bytes_dec, arith,
}
use mathlib.Core.Bool.{and-eq-true_iff}
use dev_box.Strings.Hex.{is_hex}
use dev_box.Strings.Split.{Lacks}
use dev_box.Config.Naming.{box_pod_name, short_hash}
use dev_box.Config.Naming.Digest.{IsDigest, length-short_hash, all-short_hash}

-- A DNS-1123 label as Kubernetes checks it: lowercase letters, digits and inner dashes.
abbrev is_dns_byte : ℕ → Bool
is_dns_byte c = (leb b'a' c && leb c b'z') || (leb b'0' c && leb c b'9') || c == b'-'

-- The last byte of `c ∷ s` is no dash.
abbrev EndsWell : ℕ → Text → Type 0
EndsWell c [] = c ≢ b'-'
EndsWell c (d ∷ s) = EndsWell d s

abbrev pub IsDnsLabel : Text → Type 0
IsDnsLabel [] = ⊥
IsDnsLabel (c ∷ s) =
    (length (c ∷ s) ≤ 63) × (all is_dns_byte (c ∷ s) ≡ true) × (c ≢ b'-') × EndsWell c s

hex_label :
    (c : ℕ) (s : Text)
    → is_hex c ≡ true
    → all is_hex s ≡ true
    → (all is_dns_byte (c ∷ s) ≡ true) × EndsWell c s
hex_label c [] h k = ground arith
hex_label c (d ∷ s) h k = ground (arith, hex_label d s)

-- A text without zero bytes does not end in one and more.
not_after_zero : (o t : Text) → Lacks 0 (o ++ 0 ∷ t) → ⊥
not_after_zero [] t h = ground arith
not_after_zero (c ∷ o) t h = not_after_zero o t (ground arith)

-- After the last zero byte a text without zero bytes is determined, and so is what stands before.
after_zero :
    (o o' t t' : Text) → Lacks 0 t → Lacks 0 t' → o ++ 0 ∷ t ≡ o' ++ 0 ∷ t' → (o ≡ o') × (t ≡ t')
after_zero [] [] t t' h h' e = (refl, cc)
after_zero [] (c ∷ o') t t' h h' e =
    let same : t ≡ o' ++ 0 ∷ t' = cc in absurd (not_after_zero o' t' (rw (← same) h))
after_zero (c ∷ o) [] t t' h h' e =
    let same : o ++ 0 ∷ t ≡ t' = cc in absurd (not_after_zero o t (rw same h'))
after_zero (c ∷ o) (c' ∷ o') t t' h h' e = let (p, q) = after_zero o o' t t' h h' (cc) in (cc, q)

-- Two texts that a hash does not tell apart.
abbrev pub Collides : (Text → Text) → Text → Text → Type 0
Collides hash x y = (x ≢ y) × (hash x ≡ hash y)

cancel_box : (s t : Text) → codes "box-" ++ s ≡ codes "box-" ++ t → s ≡ t
unfolding codes
cancel_box s t e = cc

hex_tail : (s : Text) → length s ≡ 10 → all is_hex s ≡ true → IsDnsLabel (codes "box-" ++ s)
unfolding codes
hex_tail [] n h = absurd (omega arith)
hex_tail (c ∷ s) n h =
    let (here, later) = (and-eq-true_iff _ _).0 h in
    let (legal, ending) = hex_label c s here later in
    (omega (arith, n), rw legal (ground arith), omega arith, ending)

module _ (sha256 : Text → Text) where
  -- If a digest is 32 bytes, a pod name is a legal DNS-1123 label of 14 bytes, whatever the owner
  -- and the template.
  pub box_pod_name-IsDnsLabel :
      IsDigest sha256
      → (owner template : Text)
      → IsDnsLabel (box_pod_name sha256 owner template)
        × (length (box_pod_name sha256 owner template) ≡ 14)
  unfolding box_pod_name
  box_pod_name-IsDnsLabel digest owner template =
      let n = length-short_hash sha256 digest (owner ++ 0 ∷ template) 10 (omega arith) in
      (hex_tail _ n (all-short_hash sha256 digest _ 10), omega (arith, n))

  -- For templates without zero bytes, two boxes have one pod name only if they are of one owner and
  -- one template, or the truncated hash of just these two owners and templates is the same.
  pub box_pod_name_separates :
      (owner owner' template template' : Text)
      → Lacks 0 template
      → Lacks 0 template'
      → box_pod_name sha256 owner template ≡ box_pod_name sha256 owner' template'
      → ((owner ≡ owner') × (template ≡ template'))
        ⊎ Collides (λ s. short_hash sha256 s 10) (owner ++ 0 ∷ template) (owner' ++ 0 ∷ template')
  unfolding box_pod_name
  box_pod_name_separates owner owner' template template' h h' e =
      let same = cancel_box _ _ e in
      elim (bytes_dec (owner ++ 0 ∷ template) (owner' ++ 0 ∷ template')) [
        | yes p ↦ inl (after_zero owner owner' template template' h h' p)
        | no n ↦ inr (n, same)
      ]
