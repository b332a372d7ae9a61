-- ===== src/Strings/Hex.antt =====
-- `hex.EncodeToString`.
use dev_box.Common.{
  ℕ, ◌+◌, ◌*◌, ◌/◌, ◌%◌, ◌<◌, ◌≡◌, refl, Bool, true, ◌&&◌, ◌||◌, [], ◌∷◌, arith, Text, length, All,
  all, leb, ltb, if◌then◌else◌,
}

abbrev hex_digit : ℕ → ℕ
hex_digit n = if ltb n 10 then b'0' + n else 87 + n

unfoldable pub encode : Text → Text
encode [] = []
encode (b ∷ s) = hex_digit (b / 16) ∷ hex_digit (b % 16) ∷ encode s

abbrev pub is_hex : ℕ → Bool
is_hex c = (leb b'0' c && leb c b'9') || (leb b'a' c && leb c b'f')

abbrev pub AreBytes : Text → Type 0
AreBytes = All (λ b. b < 256)

pub length-encode : (s : Text) → length (encode s) ≡ 2 * length s
unfolding encode
length-encode [] = refl
length-encode (b ∷ s) = omega (arith, length-encode s)

is_hex-hex_digit : (n : ℕ) → n < 16 → is_hex (hex_digit n) ≡ true
is_hex-hex_digit n h = ground arith

pub all-encode : (s : Text) → AreBytes s → all is_hex (encode s) ≡ true
unfolding encode
all-encode [] h = refl
all-encode (b ∷ s) (h, hs) =
    rw (is_hex-hex_digit (b / 16) (omega arith), is_hex-hex_digit (b % 16) (omega arith))
      (all-encode s hs)
