-- ===== src/Strings/Decimal/Laws.antt =====
-- Reading back a printed number.
use dev_box.Common.{
  ℕ, zero, suc, ◌+◌, ◌-◌, ◌*◌, ◌/◌, ◌%◌, ◌≤◌, ◌<◌, ◌≡◌, refl, Bool-cases, true, [], ◌∷◌, ◌++◌, some,
  inl, inr, arith, Text, ltb, ℤ, pos, negsuc, ◌≢◌, all, all-append,
}
use dev_box.Strings.Trim.{is_graphic}
use dev_box.Strings.Decimal.{is_digit, digits_of, itoa, read_digits, atoi, max_int}

read_digits-snoc :
    (acc : ℕ) (s : Text) (m d : ℕ)
    → read_digits acc s ≡ some m
    → d < 10
    → read_digits acc (s ++ (b'0' + d) ∷ []) ≡ some (m * 10 + d)
unfolding read_digits
read_digits-snoc acc [] m d h k = ground arith
read_digits-snoc acc (c ∷ s) m d h k =
    ground (arith, read_digits-snoc (acc * 10 + (c - b'0')) s m d)

read_digits-digits_of : (fuel n : ℕ) → n < fuel → read_digits 0 (digits_of fuel n) ≡ some n
unfolding read_digits digits_of
read_digits-digits_of zero n h = absurd (omega arith)
read_digits-digits_of (suc fuel) n h = elim (Bool-cases (ltb n 10)) [
  | inl small ↦ rw small (ground arith)
  | inr large ↦ rw large (
      rw
        (read_digits-snoc 0 (digits_of fuel (n / 10)) (n / 10) (n % 10)
          (read_digits-digits_of fuel (n / 10) (ground arith)) (omega arith))
        (ground arith))
]

-- A printed number begins with a digit.
digits_of-cons :
    (fuel n : ℕ)
    → n < fuel
    → (c : ℕ) × (s : Text) × (digits_of fuel n ≡ c ∷ s) × (is_digit c ≡ true)
unfolding digits_of
digits_of-cons zero n h = absurd (omega arith)
digits_of-cons (suc fuel) n h = elim (Bool-cases (ltb n 10)) [
  | inl small ↦ (b'0' + n, [], rw small, ground arith)
  | inr large ↦
      let (c, s, e, d) = digits_of-cons fuel (n / 10) (ground arith) in
      (c, s ++ (b'0' + n % 10) ∷ [], rw (large, e), d)
]

-- A number that is not negative and fits 64 bits is read back.
pub atoi-itoa_pos : (n : ℕ) → n ≤ max_int → atoi (itoa (pos n)) ≡ some (pos n)
unfolding atoi itoa
atoi-itoa_pos n h =
    let (c, s, e, d) = digits_of-cons (suc n) n (omega arith) in
    let value = rw e at (read_digits-digits_of (suc n) n (omega arith)) in
    rw e (ground (arith, value))

-- So is a negative one.
pub atoi-itoa_negsuc : (n : ℕ) → n ≤ max_int → atoi (itoa (negsuc n)) ≡ some (negsuc n)
unfolding atoi itoa
atoi-itoa_negsuc n h =
    let (c, s, e, d) = digits_of-cons (suc (suc n)) (suc n) (omega arith) in
    let value = rw e at (read_digits-digits_of (suc (suc n)) (suc n) (omega arith)) in
    rw e (ground (arith, value))

-- The bytes of a printed number are printable.
all-digits_of : (fuel n : ℕ) → all is_graphic (digits_of fuel n) ≡ true
unfolding digits_of
all-digits_of zero n = refl
all-digits_of (suc fuel) n = elim (Bool-cases (ltb n 10)) [
  | inl small ↦ rw small (ground arith)
  | inr large ↦ rw large (
      all-append is_graphic (digits_of fuel (n / 10)) ((b'0' + n % 10) ∷ [])
        (all-digits_of fuel (n / 10)) (ground arith))
]

pub all-itoa : (i : ℤ) → all is_graphic (itoa i) ≡ true
unfolding itoa
all-itoa (pos n) = all-digits_of (suc n) n
all-itoa (negsuc n) = all-digits_of (suc (suc n)) (suc n)

pub itoa-ne-nil : (i : ℤ) → itoa i ≢ []
unfolding itoa
itoa-ne-nil (pos n) h = let (c, s, e, d) = digits_of-cons (suc n) n (omega arith) in cc
itoa-ne-nil (negsuc n) h = cc
