-- ===== src/Strings/Trim.antt =====
-- `strings.TrimSpace`, and `strings.Trim` and `strings.TrimRight` of one byte.
use dev_box.Common.{
  ℕ, zero, suc, ◌≡◌, refl, Bool, true, ◌&&◌, ◌||◌, [], ◌∷◌, reverse, arith, Text, length, drop, all,
  all-reverse, leb, ltb, ◌==◌, if◌then◌else◌, number_eq,
}
use mathlib.Core.List.{reverse-reverse}

-- The leading bytes that are `c` go.
unfoldable pub trim_left_byte : ℕ → Text → Text
trim_left_byte c [] = []
trim_left_byte c (b ∷ s) = let rest = trim_left_byte c s in if b == c then rest else b ∷ s

-- The trailing bytes that are `c` go.
abbrev pub keep_byte : ℕ → ℕ → Text → Text
keep_byte c b [] = if b == c then [] else b ∷ []
keep_byte c b (x ∷ s) = b ∷ x ∷ s

unfoldable pub trim_right_byte : ℕ → Text → Text
trim_right_byte c [] = []
trim_right_byte c (b ∷ s) = keep_byte c b (trim_right_byte c s)

unfoldable pub trim_byte : ℕ → Text → Text
unfolding trim_left_byte trim_right_byte
trim_byte c s = trim_right_byte c (trim_left_byte c s)

-- `unicode.IsSpace`, by the UTF-8 encodings of its one-, two- and three-byte members.
abbrev pub is_space1 : ℕ → Bool
is_space1 a = (leb 9 a && leb a 13) || a == 32

abbrev is_space2 : ℕ → ℕ → Bool
is_space2 a b = a == 0xc2 && (b == 0x85 || b == 0xa0)

abbrev is_space3 : ℕ → ℕ → ℕ → Bool
is_space3 a b c =
    (a == 0xe1 && b == 0x9a && c == 0x80)
    || (a == 0xe2
        && b == 0x80
        && ((leb 0x80 c && leb c 0x8a) || c == 0xa8 || c == 0xa9 || c == 0xaf))
    || (a == 0xe2 && b == 0x81 && c == 0x9f)
    || (a == 0xe3 && b == 0x80 && c == 0x80)

-- How many bytes the space at the front of a text takes, 0 if there is none.
leading_space : Text → ℕ
leading_space [] = 0
leading_space (a ∷ []) = if is_space1 a then 1 else 0
leading_space (a ∷ b ∷ []) = if is_space1 a then 1 else if is_space2 a b then 2 else 0
leading_space (a ∷ b ∷ c ∷ s) =
    if is_space1 a then 1 else if is_space2 a b then 2 else if is_space3 a b c then 3 else 0

-- The same for the space at the end of a text that is given in reverse.
trailing_space : Text → ℕ
trailing_space [] = 0
trailing_space (a ∷ []) = if is_space1 a then 1 else 0
trailing_space (a ∷ b ∷ []) = if is_space1 a then 1 else if is_space2 b a then 2 else 0
trailing_space (a ∷ b ∷ c ∷ s) =
    if is_space1 a then 1 else if is_space2 b a then 2 else if is_space3 c b a then 3 else 0

-- The fuel is the text's length: each round takes a byte at least.
strip : (Text → ℕ) → ℕ → Text → Text
strip width zero s = s
strip width (suc fuel) s =
    let n = width s in let rest = strip width fuel (drop n s) in if n == 0 then s else rest

unfoldable pub trim_space : Text → Text
unfolding strip leading_space trailing_space
trim_space s =
    let front = strip leading_space (length s) s in
    reverse (strip trailing_space (length front) (reverse front))

-- Printable ASCII.
abbrev pub is_graphic : ℕ → Bool
is_graphic c = ltb 32 c && ltb c 127

leading_space_of_graphic : (s : Text) → all is_graphic s ≡ true → leading_space s ≡ 0
unfolding leading_space
leading_space_of_graphic [] h = refl
leading_space_of_graphic (a ∷ []) h = ground arith
leading_space_of_graphic (a ∷ b ∷ []) h = ground arith
leading_space_of_graphic (a ∷ b ∷ c ∷ s) h = ground arith

trailing_space_of_graphic : (s : Text) → all is_graphic s ≡ true → trailing_space s ≡ 0
unfolding trailing_space
trailing_space_of_graphic [] h = refl
trailing_space_of_graphic (a ∷ []) h = ground arith
trailing_space_of_graphic (a ∷ b ∷ []) h = ground arith
trailing_space_of_graphic (a ∷ b ∷ c ∷ s) h = ground arith

strip-eq_self : (width : Text → ℕ) (fuel : ℕ) (s : Text) → width s ≡ 0 → strip width fuel s ≡ s
unfolding strip
strip-eq_self width zero s h = refl
strip-eq_self width (suc fuel) s h = ground arith

-- A text without spaces is left as it is.
pub trim_space-eq_self : (s : Text) → all is_graphic s ≡ true → trim_space s ≡ s
unfolding trim_space
trim_space-eq_self s h =
    rw (strip-eq_self leading_space (length s) s (leading_space_of_graphic s h)) (
      rw
        (strip-eq_self trailing_space (length s) (reverse s)
          (trailing_space_of_graphic (reverse s) (all-reverse is_graphic s h)))
        (reverse-reverse s))
