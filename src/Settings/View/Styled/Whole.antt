-- ===== src/Settings/View/Styled/Whole.antt =====
-- The footer, the header and the single column.
use dev_box.Common.{
  ℕ, zero, suc, ◌+◌, ◌≡◌, refl, Bool, false, List, [], ◌∷◌, ◌++◌, length, get_elem?, All, Text,
  codes, ltb, leb, Option, none, some, ◌==◌, text_eq, number_eq, Bool-cases, Option-cases, inl, inr,
  arith, subst,
}
use mathlib.Core.Option
use dev_box.Strings.Utf8.{utf8}
use dev_box.Settings.Boxes.{Time}
use dev_box.Settings.Rows.{BoxRow}
use dev_box.Settings.Model.{SettingsModel, clamp}
use dev_box.Settings.View.Style.{Display, sanitize, ellipsis}
use dev_box.Settings.View.Rows.{row_lines}
use dev_box.Settings.View.Dialog.{dialog_lines}
use dev_box.Settings.View.Screen.{
  is_open, selected_row, message_lines, budget_of, with_identity, footer, header_line, header,
  body_lines, body, single_column, all_keys, short_keys,
}
use dev_box.Settings.View.Styled.{
  IsStyled, plain, ◌⊕◌, styled_if, Shows, styled_sanitize, styled_dim, styled_bold, styled_red,
  styled_separator, styled_ellipsis,
}
use dev_box.Settings.View.Styled.Frames.{
  AllStyled, append-AllStyled, if-AllStyled, scroll_rows-AllStyled,
}
use dev_box.Settings.View.Styled.Rows.{IsClean, styled_conn}
use dev_box.Settings.View.Styled.Single.{host, row_lines-AllStyled, dialog_lines-AllStyled}

-- A panic shows nothing.
abbrev pub MayShow : Option (List Text) → Type 0
MayShow none = Unit
MayShow (some lines) = AllStyled lines

pub get_elem?-AllStyled :
    (lines : List Text) (i : ℕ) (line : Text)
    → AllStyled lines
    → get_elem? lines i ≡ some line
    → IsStyled line
get_elem?-AllStyled [] i line s found = absurd (ground arith)
get_elem?-AllStyled (x ∷ lines) zero line (h, s) found =
    let same : x ≡ line = cc in subst IsStyled same h
get_elem?-AllStyled (x ∷ lines) (suc i) line (h, s) found = get_elem?-AllStyled lines i line s found

get_elem?-IsClean :
    (rows : List BoxRow) (i : ℕ) (row : BoxRow)
    → All IsClean rows
    → get_elem? rows i ≡ some row
    → IsClean row
get_elem?-IsClean [] i row c found = absurd (ground arith)
get_elem?-IsClean (r ∷ rows) zero row (h, c) found = let same : r ≡ row = cc in subst IsClean same h
get_elem?-IsClean (r ∷ rows) (suc i) row (h, c) found = get_elem?-IsClean rows i row c found

module _ (d : Display) (shows : Shows d) (on : Bool) (now : Time) (m : SettingsModel)
    (c : All IsClean m.rows) where
  pub selected_row-IsClean : (row : BoxRow) → selected_row m ≡ some row → IsClean row
  unfolding selected_row
  selected_row-IsClean row found =
      get_elem?-IsClean m.rows (clamp m.selected (length m.rows)) row c found

  -- What is made of the selected row.
  pub of_row-MayShow :
      (f : BoxRow → List Text)
      → ((row : BoxRow) → IsClean row → AllStyled (f row))
      → MayShow (Option.map f (selected_row m))
  of_row-MayShow f keeps = elim (Option-cases (selected_row m)) [
    | inl missing ↦ rw missing tt
    | inr (row, found) ↦ rw found (keeps row (selected_row-IsClean row found))
  ]

  message_lines-AllStyled : AllStyled (message_lines d on m)
  unfolding message_lines
  message_lines-AllStyled =
      if-AllStyled (m.message == []) [] _ tt (styled_red on (styled_sanitize d shows m.message), tt)

  owner : IsStyled (codes "Owner: ")
  unfolding codes
  owner = plain (codes "Owner: ") refl

  styled_identity : {keys : Text} → IsStyled keys → IsStyled (with_identity d on now m keys)
  unfolding with_identity codes
  styled_identity k = styled_if _ k (
      k
      ⊕ plain (codes "  ") refl
      ⊕ owner
      ⊕ shows.cuts (sanitize d m.owner) ellipsis _ (styled_sanitize d shows m.owner) styled_ellipsis
      ⊕ (styled_separator ⊕ styled_conn d on m.conn))

  pub styled_footer : (identity : Bool) → IsStyled (footer d on now m identity)
  unfolding footer utf8 codes
  styled_footer identity =
      let all = plain (all_keys d on now) refl in
      let short = plain (short_keys d on now) refl in
      styled_if (leb 44 m.width) (styled_if identity (styled_identity all) all) (
        styled_if (leb 22 m.width) (styled_if identity (styled_identity short) short)
          (plain (codes "q: quit") refl))

  header-AllStyled : AllStyled (header d on now m)
  unfolding header header_line codes
  header-AllStyled =
      if-AllStyled (ltb m.height 7) _ _
        (
          plain (codes "settings") refl
              ⊕ styled_separator
              ⊕ (owner ⊕ styled_sanitize d shows m.owner)
              ⊕ styled_separator
              ⊕ styled_conn d on m.conn,
          tt,
        )
        (
          styled_bold on (plain (codes "dev.box settings") refl),
          (
            owner ⊕ styled_bold on (styled_sanitize d shows m.owner),
            (plain (codes "Connection: ") refl ⊕ styled_conn d on m.conn, tt),
          ),
        )

  body_lines-AllStyled : (budget : ℕ) → AllStyled (body_lines d on now m budget)
  unfolding body_lines codes
  body_lines-AllStyled budget = elim (Bool-cases (length m.rows == 0)) [
    | inl empty ↦ rw empty (
      plain (codes "No box templates are available.") refl,
      if-AllStyled (ltb 1 budget) _ []
          (
            styled_dim on (
                plain (codes "Each published template becomes a box: ssh <template>@") refl ⊕ host),
            tt,
          )
          tt,
    )
    | inr filled ↦ rw filled (
        scroll_rows-AllStyled (row_lines d on now m) budget m.selected
          (row_lines-AllStyled d shows on now m c))
  ]

  body-MayShow : (budget : ℕ) → MayShow (body d on now m budget)
  unfolding body
  body-MayShow budget = elim (Bool-cases (is_open m.dialog)) [
    | inl about ↦ rw about (
        of_row-MayShow (λ row. dialog_lines on row budget)
          (λ row clean. dialog_lines-AllStyled on row budget clean))
    | inr shut ↦ rw shut (body_lines-AllStyled budget)
  ]

  -- The lines above the footer, with it.
  pub ended :
      (identity : Bool) (lines : List Text)
      → AllStyled lines
      → AllStyled (lines ++ message_lines d on m ++ footer d on now m identity ∷ [])
  ended identity lines s =
      append-AllStyled _ (footer d on now m identity ∷ [])
        (append-AllStyled lines (message_lines d on m) s message_lines-AllStyled)
        (styled_footer identity, tt)

  pub single_column-MayShow : MayShow (single_column d on now m)
  unfolding single_column
  single_column-MayShow =
      let budget = budget_of m (length (header d on now m) + 1) in
      elim (Option-cases (body d on now m budget)) [
        | inl panic ↦ rw panic tt
        | inr (lines, found) ↦
            let s = rw found at (body-MayShow budget) in
            rw found (
              ended false (header d on now m ++ lines)
                (append-AllStyled (header d on now m) lines header-AllStyled s))
      ]
