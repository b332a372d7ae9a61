-- ===== src/Strings/Utf8.antt =====
-- Go's reading of a text as runes: `utf8.DecodeRune`, `strings.Map`, and the width of `%-*s`.
use dev_box.Common.{
  ℕ, zero, suc, ◌+◌, ◌-◌, ◌*◌, ◌/◌, ◌%◌, Bool, ◌&&◌, ◌||◌, List, [], ◌∷◌, ◌++◌, Text, map, length,
  drop, leb, ltb, ◌==◌, if◌then◌else◌, number_eq, String, codes,
}

abbrev pub rune_error : ℕ
rune_error = 0xfffd

abbrev is_continuation : ℕ → Bool
is_continuation b = leb 0x80 b && leb b 0xbf

-- The second byte of a rune of three bytes, and of four, after its first.
abbrev is_second3 : ℕ → ℕ → Bool
is_second3 a b =
    (a == 0xe0 && leb 0xa0 b && leb b 0xbf)
    || (a == 0xed && leb 0x80 b && leb b 0x9f)
    || (leb 0xe1 a && leb a 0xef && (ltb a 0xed || ltb 0xed a) && is_continuation b)

abbrev is_second4 : ℕ → ℕ → Bool
is_second4 a b =
    (a == 0xf0 && leb 0x90 b && leb b 0xbf)
    || (a == 0xf4 && leb 0x80 b && leb b 0x8f)
    || (leb 0xf1 a && leb a 0xf3 && is_continuation b)

-- The first rune with the count of its bytes.
abbrev pub Rune : Type 0
Rune = ℕ × ℕ

decode1 : ℕ → Rune
decode1 a = if ltb a 0x80 then (a, 1) else (rune_error, 1)

decode2 : ℕ → ℕ → Rune
unfolding decode1
decode2 a b =
    if leb 0xc2 a && leb a 0xdf && is_continuation b
    then ((a - 0xc0) * 64 + (b - 0x80), 2)
    else decode1 a

decode3 : ℕ → ℕ → ℕ → Rune
unfolding decode2
decode3 a b c =
    if is_second3 a b && is_continuation c
    then ((a - 0xe0) * 4096 + (b - 0x80) * 64 + (c - 0x80), 3)
    else decode2 a b

decode4 : ℕ → ℕ → ℕ → ℕ → Rune
unfolding decode3
decode4 a b c d =
    if is_second4 a b && is_continuation c && is_continuation d
    then ((a - 0xf0) * 262144 + (b - 0x80) * 4096 + (c - 0x80) * 64 + (d - 0x80), 4)
    else decode3 a b c

unfoldable pub decode_rune : Text → Rune
unfolding decode1 decode2 decode3 decode4
decode_rune [] = (rune_error, 0)
decode_rune (a ∷ []) = decode1 a
decode_rune (a ∷ b ∷ []) = decode2 a b
decode_rune (a ∷ b ∷ c ∷ []) = decode3 a b c
decode_rune (a ∷ b ∷ c ∷ d ∷ s) = decode4 a b c d

-- The fuel is the text's length: each round takes a byte at least.
decode : ℕ → Text → List ℕ
decode zero s = []
decode (suc fuel) [] = []
decode (suc fuel) (a ∷ s) =
    let (rune, size) = decode_rune (a ∷ s) in rune ∷ decode fuel (drop size (a ∷ s))

unfoldable pub runes : Text → List ℕ
unfolding decode decode_rune
runes s = decode (length s) s

unfoldable pub encode_rune : ℕ → Text
encode_rune r =
    if ltb r 0x80
    then r ∷ []
    else if ltb r 0x800
    then (0xc0 + r / 64) ∷ (0x80 + r % 64) ∷ []
    else if ltb r 0x10000
    then (0xe0 + r / 4096) ∷ (0x80 + r / 64 % 64) ∷ (0x80 + r % 64) ∷ []
    else (0xf0 + r / 262144) ∷ (0x80 + r / 4096 % 64) ∷ (0x80 + r / 64 % 64) ∷ (0x80 + r % 64) ∷ []

unfoldable pub encode_runes : List ℕ → Text
unfolding encode_rune
encode_runes [] = []
encode_runes (r ∷ rs) = encode_rune r ++ encode_runes rs

-- `strings.Map`, of a mapping that drops no rune.
unfoldable pub map_runes : (ℕ → ℕ) → Text → Text
unfolding runes encode_runes
map_runes f s = encode_runes (map f (runes s))

unfoldable pub rune_count : Text → ℕ
unfolding runes
rune_count s = length (runes s)

-- The bytes of any literal.
unfoldable pub utf8 : String → Text
unfolding encode_runes codes
utf8 s = encode_runes (codes s)
