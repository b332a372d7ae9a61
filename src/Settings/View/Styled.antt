-- ===== src/Settings/View/Styled.antt =====
-- Texts without a control byte but in the six codes of the styles.
pub mod Frames
pub mod Rows
pub mod Single
pub mod Panes
pub mod Popup
pub mod Whole
pub mod Screen
use dev_box.Common.{
  ℕ, zero, suc, ◌+◌, ◌-◌, ◌/◌, ◌%◌, ◌≤◌, ◌<◌, ◌≡◌, refl, subst, sym, Bool, true, false, ◌&&◌, ◌||◌,
  not, List, [], ◌∷◌, ◌++◌, map, all, Text, String, codes, contains, leb, ltb, ◌==◌, number_eq,
  text_eq, if◌then◌else◌, Bool-cases, inl, inr, arith, ℕ_discrete, bytes_dec,
}
use mathlib.Core.List.{append_assoc, append-nil}
use dev_box.Strings.Trim.{is_graphic}
use dev_box.Strings.Utf8.{runes, encode_rune, encode_runes, map_runes, utf8}
use dev_box.Settings.View.Style.{
  Display, repeat, sgr_reset, sgr_bold, sgr_dim, sgr_red, sgr_green, sgr_yellow, wrap, dim, bold,
  red, green, yellow, ellipsis, separator, sanitize, pad_to, right_in,
}

-- No control character of ASCII. The other bytes of UTF-8 are plain.
abbrev pub is_plain : ℕ → Bool
is_plain c = leb 32 c && (ltb c 127 || ltb 127 c)

abbrev pub is_sgr : Text → Bool
is_sgr = contains (sgr_reset ∷ sgr_bold ∷ sgr_dim ∷ sgr_red ∷ sgr_green ∷ sgr_yellow ∷ [])

pub data IsStyled : Text → Type 0 where
  done : IsStyled []
  byte : {c : ℕ} {s : Text} → is_plain c ≡ true → IsStyled s → IsStyled (c ∷ s)
  code : (c s : Text) → is_sgr c ≡ true → IsStyled s → IsStyled (c ++ s)

infixl 5 ◌⊕◌
pub ◌⊕◌ : {a b : Text} → IsStyled a → IsStyled b → IsStyled (a ++ b)
◌⊕◌ done t = t
◌⊕◌ (byte h s) t = byte h (s ⊕ t)
◌⊕◌ {a} {b} (code c s h t) u = subst IsStyled (sym (append_assoc c s b)) (code c (s ++ b) h (t ⊕ u))

pub plain : (s : Text) → all is_plain s ≡ true → IsStyled s
plain [] h = done
plain (c ∷ s) h = byte (ground arith) (plain s (ground arith))

pub graphic : (s : Text) → all is_graphic s ≡ true → IsStyled s
graphic [] h = done
graphic (c ∷ s) h = byte (ground arith) (graphic s (ground arith))

pub styled_if : (b : Bool) {x y : Text} → IsStyled x → IsStyled y → IsStyled (if b then x else y)
styled_if true s t = s
styled_if false s t = t

-- A high byte, of a rune that is not ASCII.
high : (n : ℕ) → 128 ≤ n → is_plain n ≡ true
high n h = ground arith

-- The last two bytes of a rune.
two_high : (a b : ℕ) → 128 ≤ a → IsStyled (a ∷ (0x80 + b) ∷ [])
two_high a b h = byte (high a h) (byte (high (0x80 + b) (omega arith)) done)

encode_rune-plain : (r : ℕ) → is_plain r ≡ true → IsStyled (encode_rune r)
unfolding encode_rune
encode_rune-plain r h = elim (Bool-cases (ltb r 0x80)) [
  | inl one ↦ rw one (byte h done)
  | inr more ↦ elim (Bool-cases (ltb r 0x800)) [
    | inl two ↦ rw more (rw two (two_high (0xc0 + r / 64) (r % 64) (omega arith)))
    | inr wider ↦ elim (Bool-cases (ltb r 0x10000)) [
      | inl three ↦ rw more (
          rw wider (
            rw three (
              byte (high (0xe0 + r / 4096) (omega arith))
                (two_high (0x80 + r / 64 % 64) (r % 64) (omega arith)))))
      | inr four ↦ rw more (
          rw wider (
            rw four (
              byte (high (0xf0 + r / 262144) (omega arith)) (
                byte (high (0x80 + r / 4096 % 64) (omega arith))
                  (two_high (0x80 + r / 64 % 64) (r % 64) (omega arith))))))
    ]
  ]
]

-- What is assumed of the terminal's library: a printable rune is no control character, and a
-- truncation cuts no code.
pub record Shows (d : Display) : Type 0 where
  pub prints : (r : ℕ) → d.is_printable r ≡ true → is_plain r ≡ true
  pub cuts :
      (text tail : Text) (n : ℕ) → IsStyled text → IsStyled tail → IsStyled (d.truncate text n tail)

pub styled_repeat : (n : ℕ) {s : Text} → IsStyled s → IsStyled (repeat n s)
unfolding repeat
styled_repeat zero h = done
styled_repeat (suc n) h = h ⊕ styled_repeat n h

pub spaces : (n : ℕ) → IsStyled (repeat n (codes " "))
unfolding codes
spaces n = styled_repeat n (plain (codes " ") refl)

one_code : (c : Text) → is_sgr c ≡ true → IsStyled c
one_code c h = subst IsStyled (append-nil c) (code c [] h done)

styled_wrap :
    (on : Bool) (c : Text) {text : Text}
    → is_sgr c ≡ true
    → IsStyled text
    → IsStyled (wrap on c text)
unfolding wrap codes bytes_dec ℕ_discrete
styled_wrap on c {text} h t = elim (Bool-cases (not on || text == [])) [
  | inl bare ↦ rw bare t
  | inr coloured ↦ rw coloured (code c text h t ⊕ one_code sgr_reset refl)
]

module _ (on : Bool) {text : Text} (t : IsStyled text) where
  pub styled_dim : IsStyled (dim on text)
  unfolding codes bytes_dec ℕ_discrete
  styled_dim = styled_wrap on sgr_dim refl t

  pub styled_bold : IsStyled (bold on text)
  unfolding codes bytes_dec ℕ_discrete
  styled_bold = styled_wrap on sgr_bold refl t

  pub styled_red : IsStyled (red on text)
  unfolding codes bytes_dec ℕ_discrete
  styled_red = styled_wrap on sgr_red refl t

  pub styled_green : IsStyled (green on text)
  unfolding codes bytes_dec ℕ_discrete
  styled_green = styled_wrap on sgr_green refl t

  pub styled_yellow : IsStyled (yellow on text)
  unfolding codes bytes_dec ℕ_discrete
  styled_yellow = styled_wrap on sgr_yellow refl t

pub styled_ellipsis : IsStyled ellipsis
unfolding utf8 codes
styled_ellipsis = plain ellipsis refl

pub styled_separator : IsStyled separator
unfolding utf8 codes
styled_separator = plain separator refl

module _ (d : Display) (shows : Shows d) where
  masked : (r : ℕ) → is_plain (if d.is_printable r then r else b'?') ≡ true
  masked r = elim (Bool-cases (d.is_printable r)) [
    | inl good ↦ rw good (shows.prints r good)
    | inr bad ↦ rw bad refl
  ]

  encode_runes-printable :
      (rs : List ℕ) → IsStyled (encode_runes (map (λ r. if d.is_printable r then r else b'?') rs))
  unfolding encode_runes
  encode_runes-printable [] = done
  encode_runes-printable (r ∷ rs) =
      encode_rune-plain (if d.is_printable r then r else b'?') (masked r)
      ⊕ encode_runes-printable rs

  pub styled_sanitize : (text : Text) → IsStyled (sanitize d text)
  unfolding sanitize map_runes
  styled_sanitize text = encode_runes-printable (runes text)

  pub styled_pad_to : {text : Text} (width : ℕ) → IsStyled text → IsStyled (pad_to d text width)
  unfolding pad_to
  styled_pad_to {text} width t = elim (Bool-cases (ltb 0 (width - d.string_width text))) [
    | inl gap ↦ rw gap (t ⊕ spaces _)
    | inr full ↦ rw full t
  ]

  pub styled_right_in : {text : Text} (width : ℕ) → IsStyled text → IsStyled (right_in d text width)
  unfolding right_in
  styled_right_in {text} width t = elim (Bool-cases (ltb 0 (width - d.string_width text))) [
    | inl gap ↦ rw gap (spaces _ ⊕ t)
    | inr full ↦ rw full t
  ]
