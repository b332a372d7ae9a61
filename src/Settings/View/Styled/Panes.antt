-- ===== src/Settings/View/Styled/Panes.antt =====
-- The two panes.
use dev_box.Common.{
  ℕ, zero, suc, ◌-◌, refl, Bool, ◌||◌, List, [], ◌∷◌, ◌++◌, map, length, Text, codes, ltb, leb, max,
  if◌then◌else◌, ◌==◌, text_eq, number_eq, Bool-cases, inl, inr,
}
use dev_box.Strings.Utf8.{utf8}
use dev_box.Settings.Boxes.{Time}
use dev_box.Settings.Rows.{
  RowState, BoxRow, checking, running, pending, terminating, error, not_created, unavailable,
  refused,
}
use dev_box.Settings.Model.{SettingsModel, created_count}
use dev_box.Settings.View.Style.{Display, sanitize, dim, separator}
use dev_box.Settings.View.Frame.{pane_line, pane_bottom, pane_sep}
use dev_box.Settings.View.Rows.{scroll_rows, master_row_lines, signed32}
use dev_box.Settings.View.Panes.{
  chrome, empty_lines, fill_to, cap_block, master_pane, honesty, strip, ledger, data_lines,
  detail_lines, detail_pane,
}
use dev_box.Settings.View.Styled.{
  IsStyled, done, plain, ◌⊕◌, styled_if, Shows, styled_sanitize, styled_pad_to, styled_dim,
}
use dev_box.Settings.View.Styled.Frames.{
  AllStyled, append-AllStyled, if-AllStyled, framed-AllStyled, scroll_rows-AllStyled, styled_line,
  styled_top, styled_bottom, styled_sep,
}
use dev_box.Settings.View.Styled.Rows.{
  styled_itoa, styled_uptime, styled_word, styled_tinted, styled_cap, master_row_lines-AllStyled,
}
use dev_box.Settings.View.Styled.Single.{host}

module _ (d : Display) (shows : Shows d) (on : Bool) where
  clean : (text : Text) → IsStyled (sanitize d text)
  clean = styled_sanitize d shows

  empty_lines-AllStyled : (inner n : ℕ) → AllStyled (empty_lines d inner n)
  unfolding empty_lines
  empty_lines-AllStyled inner zero = tt
  empty_lines-AllStyled inner (suc n) =
      (styled_line d shows inner done, empty_lines-AllStyled inner n)

  fill_to-AllStyled :
      (inner target : ℕ) (lines : List Text)
      → AllStyled lines
      → AllStyled (fill_to d inner target lines)
  unfolding fill_to
  fill_to-AllStyled inner target lines s =
      append-AllStyled lines _ s (empty_lines-AllStyled inner (target - length lines))

  cap_block-AllStyled : (m : SettingsModel) (inner : ℕ) → AllStyled (cap_block d on m inner)
  unfolding cap_block utf8 codes
  cap_block-AllStyled m inner = elim (Bool-cases (ltb 0 m.max_boxes)) [
    | inr free ↦ rw free tt
    | inl capped ↦ rw capped (
      styled_sep inner,
      (
        styled_line d shows inner (styled_cap d on shows m),
        if-AllStyled (leb m.max_boxes (created_count m.rows)) _ []
            (
              styled_line d shows inner
                  (styled_dim on (plain (utf8 "cap reached — delete one") refl)),
              tt,
            )
            tt,
      ),
    )
  ]

  pub master_pane-AllStyled :
      (m : SettingsModel) (inner budget : ℕ) → AllStyled (master_pane d on m inner budget)
  unfolding master_pane
  master_pane-AllStyled m inner budget =
      let visible = max 1 (budget - chrome m) in
      let rows = scroll_rows (master_row_lines d on m) visible m.selected in
      (
        styled_top d shows (codes "boxes") inner,
        append-AllStyled _ (pane_bottom inner ∷ [])
            (append-AllStyled _ (cap_block d on m inner)
              (append-AllStyled _ (empty_lines d inner (budget - chrome m - length rows))
                (framed-AllStyled d shows inner rows (
                  scroll_rows-AllStyled (master_row_lines d on m) visible m.selected
                    (master_row_lines-AllStyled d on shows m)))
                (empty_lines-AllStyled inner _))
              (cap_block-AllStyled m inner))
            (styled_bottom inner, tt),
      )

  styled_honesty : (r : BoxRow) → IsStyled (honesty d on r)
  unfolding honesty utf8 codes
  styled_honesty r =
      styled_if r.reconnect
        (plain (utf8 "authorization changed — reconnect settings to refresh") refl)
        (styled_if r.stale (plain (utf8 "last known state — refresh failed") refl) done)

  strip-AllStyled : (now : Time) (r : BoxRow) → AllStyled (strip d on now r)
  unfolding strip codes
  strip-AllStyled now r =
      let word = styled_word r.state in
      (
        styled_dim on (
            styled_pad_to d shows 12 (plain (codes "STATUS") refl)
            ⊕ styled_pad_to d shows 11 (plain (codes "UPTIME") refl)
            ⊕ plain (codes "RESTARTS") refl),
        (
          styled_pad_to d shows 12 (styled_tinted d on (λ text. text) r.state word word)
              ⊕ styled_pad_to d shows 11 (styled_uptime r.started now)
              ⊕ styled_itoa (signed32 r.restarts),
          tt,
        ),
      )

  ledger-AllStyled : (r : BoxRow) → AllStyled (ledger d on r)
  unfolding ledger codes
  ledger-AllStyled r = (
    styled_dim on (styled_pad_to d shows 10 (plain (codes "IMAGE") refl)) ⊕ clean r.image,
    (
      styled_dim on (styled_pad_to d shows 10 (plain (codes "RUNTIME") refl))
          ⊕ clean r.runtime_class,
      (
        styled_dim on (styled_pad_to d shows 10 (plain (codes "REQUESTS") refl)) ⊕ clean r.requests,
        (
          styled_dim on (styled_pad_to d shows 10 (plain (codes "LIMITS") refl)) ⊕ clean r.limits,
          tt,
        ),
      ),
    ),
  )

  data_lines-AllStyled :
      (now : Time) (r : BoxRow) (inner budget : ℕ) (lines : List Text)
      → AllStyled lines
      → AllStyled (data_lines d on now r inner budget lines)
  unfolding data_lines
  data_lines-AllStyled now r inner budget lines s =
      let hint =
        if honesty d on r == [] || ltb budget 10 then [] else dim on (honesty d on r) ∷ [] in
      append-AllStyled _ _
        (fill_to-AllStyled inner (budget - 4 - 1) _ (
          append-AllStyled _ (pane_sep inner ∷ [])
            (append-AllStyled _ _
              (append-AllStyled lines _ s
                (framed-AllStyled d shows inner (strip d on now r) (strip-AllStyled now r)))
              (framed-AllStyled d shows inner hint (
                if-AllStyled (honesty d on r == [] || ltb budget 10) [] _ tt
                  (styled_dim on (styled_honesty r), tt))))
            (styled_sep inner, tt)))
        (framed-AllStyled d shows inner (ledger d on r) (ledger-AllStyled r))

  -- Lines in the frame, below those that stand there.
  below :
      (inner : ℕ) (lines : List Text) {x y : Text}
      → AllStyled lines
      → IsStyled x
      → IsStyled y
      → AllStyled (lines ++ map (λ line. pane_line d line inner) (x ∷ y ∷ []))
  below inner lines {x} {y} s h k =
      append-AllStyled lines _ s (framed-AllStyled d shows inner (x ∷ y ∷ []) (h, (k, tt)))

  detail_lines-AllStyled :
      (s : RowState) (now : Time) (r : BoxRow) (inner budget : ℕ) (lines : List Text)
      → AllStyled lines
      → AllStyled (detail_lines d on s now r inner budget lines)
  unfolding detail_lines codes utf8
  detail_lines-AllStyled not_created now r inner budget lines s =
      below inner lines s (styled_dim on (plain (codes "not created") refl)) (
        styled_dim on (
          plain (codes "ssh ") refl
          ⊕ clean r.template
          ⊕ plain (codes "@") refl
          ⊕ host
          ⊕ plain (codes " creates this box") refl))
  detail_lines-AllStyled checking now r inner budget lines s = append-AllStyled lines _ s (
      framed-AllStyled d shows inner (dim on (utf8 "checking…") ∷ [])
        (styled_dim on (plain (utf8 "checking…") refl), tt))
  detail_lines-AllStyled refused now r inner budget lines s =
      below inner lines s (styled_dim on (plain (codes "authorization changed") refl))
        (styled_dim on (plain (codes "reconnect settings to refresh") refl))
  detail_lines-AllStyled unavailable now r inner budget lines s =
      below inner lines s (styled_dim on (plain (codes "unreachable") refl))
        (styled_dim on (plain (utf8 "retrying — last known state when it returns") refl))
  detail_lines-AllStyled running now r inner budget lines s =
      data_lines-AllStyled now r inner budget lines s
  detail_lines-AllStyled pending now r inner budget lines s =
      data_lines-AllStyled now r inner budget lines s
  detail_lines-AllStyled terminating now r inner budget lines s =
      data_lines-AllStyled now r inner budget lines s
  detail_lines-AllStyled error now r inner budget lines s =
      data_lines-AllStyled now r inner budget lines s

  pub detail_pane-AllStyled :
      (now : Time) (r : BoxRow) (inner budget : ℕ) → AllStyled (detail_pane d on now r inner budget)
  unfolding detail_pane
  detail_pane-AllStyled now r inner budget =
      append-AllStyled _ (pane_bottom inner ∷ [])
        (fill_to-AllStyled inner (budget - 1) _ (
          detail_lines-AllStyled r.state now r inner budget _
            (styled_top d shows (sanitize d r.template ++ separator ++ r.name) inner, tt)))
        (styled_bottom inner, tt)
