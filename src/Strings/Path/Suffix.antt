-- ===== src/Strings/Path/Suffix.antt =====
-- What stands before a suffix.
use dev_box.Common.{
  ℕ, suc, ◌<◌, ◌≡◌, ◌≢◌, refl, ap, inl, inr, [], ◌∷◌, ◌++◌, some, Text, length, length-append, ◌==◌,
  ==_refl, ==→≡, ≢→==, text_eq, Bool-cases, Option-cases, arith,
}
use dev_box.Strings.Path.{cut_suffix}

pub cut_suffix-eq : (suffix s t : Text) → cut_suffix suffix s ≡ some t → s ≡ t ++ suffix
unfolding cut_suffix
cut_suffix-eq suffix [] t h = elim (Bool-cases (suffix == [])) [
  | inl empty ↦ let e : suffix ≡ [] = ==→≡ _ _ empty in ground arith
  | inr other ↦ absurd (ground arith)
]
cut_suffix-eq suffix (c ∷ s) t h = elim (Bool-cases (suffix == c ∷ s)) [
  | inl whole ↦ let e : suffix ≡ c ∷ s = ==→≡ _ _ whole in ground arith
  | inr other ↦ elim (Option-cases (cut_suffix suffix s)) [
    | inl missing ↦ absurd (ground arith)
    | inr (u, found) ↦ let ih = cut_suffix-eq suffix s u found in ground arith
  ]
]

longer : (c : ℕ) (s suffix : Text) → suffix ≢ c ∷ (s ++ suffix)
longer c s suffix e =
    let n : length suffix ≡ suc (length (s ++ suffix)) = ap length e in
    omega (arith, n, length-append s suffix)

pub cut_suffix-append :
    (suffix t : Text) → 0 < length suffix → cut_suffix suffix (t ++ suffix) ≡ some t
unfolding cut_suffix
cut_suffix-append [] t h = absurd (omega arith)
cut_suffix-append (d ∷ suffix) [] h = rw (==_refl (d ∷ suffix)) refl
cut_suffix-append suffix (c ∷ t) h =
    rw (≢→== _ _ (longer c t suffix)) (rw (cut_suffix-append suffix t h) refl)
