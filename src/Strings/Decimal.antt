-- ===== src/Strings/Decimal.antt =====
-- `strconv.Itoa` and `strconv.Atoi`.
pub mod Laws
use dev_box.Common.{
  ℕ, zero, suc, ◌+◌, ◌-◌, ◌*◌, ◌/◌, ◌%◌, ◌^◌, ◌≤◌, ◌<◌, ◌≡◌, refl, Bool, true, false, ◌&&◌, List,
  [], ◌∷◌, ◌++◌, Option, none, some, arith, Text, leb, ltb, ◌==◌, if◌then◌else◌, number_eq, ℤ, pos,
  negsuc,
}

abbrev pub is_digit : ℕ → Bool
is_digit c = leb b'0' c && leb c b'9'

-- The fuel is above the number: each round divides it.
digits_of : ℕ → ℕ → Text
digits_of zero n = []
digits_of (suc fuel) n =
    let more = digits_of fuel (n / 10) ++ (b'0' + n % 10) ∷ [] in
    if ltb n 10 then (b'0' + n) ∷ [] else more

unfoldable pub itoa : ℤ → Text
unfolding digits_of
itoa (pos n) = digits_of (suc n) n
itoa (negsuc n) = b'-' ∷ digits_of (suc (suc n)) (suc n)

read_digits : ℕ → Text → Option ℕ
read_digits acc [] = some acc
read_digits acc (c ∷ s) =
    let rest = read_digits (acc * 10 + (c - b'0')) s in if is_digit c then rest else none

-- `strconv.ParseInt` is bounded by 64 bits.
abbrev pub max_int : ℕ
max_int = 9223372036854775807

abbrev bounded : ℕ → (ℕ → ℤ) → Option ℕ → Option ℤ
bounded most sign none = none
bounded most sign (some n) = if leb n most then some (sign n) else none

abbrev minus : ℕ → ℤ
minus zero = pos 0
minus (suc n) = negsuc n

-- One digit at least.
read_number : (Text → Option ℤ) → Text → Option ℤ
read_number read [] = none
read_number read (c ∷ s) = read (c ∷ s)

abbrev signed : ℕ → Text → Option ℤ
signed c s =
    if c == b'-'
    then read_number (λ t. bounded (max_int + 1) minus (read_digits 0 t)) s
    else if c == b'+'
    then read_number (λ t. bounded max_int pos (read_digits 0 t)) s
    else bounded max_int pos (read_digits 0 (c ∷ s))

-- `none` is the error.
unfoldable pub atoi : Text → Option ℤ
unfolding read_digits read_number
atoi [] = none
atoi (c ∷ s) = signed c s
