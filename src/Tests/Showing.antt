-- ===== src/Tests/Showing.antt =====
-- The settings screen at concrete inputs.
use dev_box.Common.{
  ℕ, ◌+◌, ◌≤◌, ◌<◌, ◌≡◌, refl, max, min, true, false, ◌&&◌, ◌||◌, List, [], ◌∷◌, length, get_elem?,
  All, some, Text, codes, ltb, leb, number_eq, text_eq, if◌then◌else◌, bytes_dec, ℕ_discrete, arith,
}
use mathlib.Core.Option
use dev_box.Strings.Utf8.{utf8}
use dev_box.Settings.Model.{new_model, SettingsModel}
use dev_box.Settings.View.Style.{Display, ellipsis}
use dev_box.Settings.View.Rows.{scroll_rows}
use dev_box.Settings.View.Screen.{render_lines, view}
use dev_box.Settings.View.Scroll.{scroll_rows-shows}
use dev_box.Settings.View.Layout.{EndsWithFooter, view-fits, render_lines-EndsWithFooter}
use dev_box.Settings.View.Styled.{done, styled_if, Shows}
use dev_box.Settings.View.Styled.Frames.{AllStyled}
use dev_box.Settings.View.Reached.{run-AllStyled}
use dev_box.Settings.Model.World.{here, next, input}
use dev_box.Settings.Model.{update, init, ticked, tick, refresh, names}
use dev_box.Tests.Starting.{cluster, host, model, starts}
use dev_box.Tests.Fixtures.{digest, digest-IsDigest}
use dev_box.Tests.Boxes.{fresh_model, asked_model, asked_model-IsValid}

-- One cell for a byte, and no control runes. A text that is too wide gives way to the tail.
abbrev cells : Display
cells = record {
  string_width = length;
  truncate =
      λ text n tail. if leb (length text) n then text else if leb (length tail) n then tail else [];
  is_printable = λ r. leb 32 r && (ltb r 127 || leb 160 r);
}

cells-narrows : (text : Text) (n : ℕ) → cells.string_width (cells.truncate text n ellipsis) ≤ n
cells-narrows text n = ground arith

-- Three rows and a message make four lines.
abbrev cramped_model : SettingsModel
cramped_model = record fresh_model { height = 3; message = codes "delete failed" }

cramped : Option.map length (render_lines cells false 0 cramped_model) ≡ some 4
unfolding render_lines ℕ_discrete new_model bytes_dec codes scroll_rows
    dev_box.Settings.View.Style.repeat dev_box.Settings.View.Style.colors_enabled
    dev_box.Settings.View.Style.wrap dev_box.Settings.View.Style.sanitize
    dev_box.Settings.View.Style.pad_to dev_box.Settings.View.Style.right_in
    dev_box.Settings.View.Frame.pane_bottom dev_box.Settings.View.Frame.pane_sep
    dev_box.Settings.View.Frame.widest dev_box.Settings.View.Frame.zip_lines
    dev_box.Settings.View.Frame.pane_line dev_box.Settings.View.Frame.pane_top
    dev_box.Settings.View.Frame.zip_panes dev_box.Settings.View.Rows.state_word
    dev_box.Settings.View.Rows.status_text dev_box.Settings.View.Rows.template_width
    dev_box.Settings.View.Rows.pad_runes dev_box.Settings.View.Rows.signed32
    dev_box.Settings.View.Rows.tinted dev_box.Settings.View.Rows.conn_styled
    dev_box.Settings.View.Rows.master_row_line dev_box.Settings.View.Rows.master_rows_from
    dev_box.Settings.View.Rows.master_row_lines dev_box.Settings.View.Rows.cap_line
    dev_box.Settings.View.Rows.data_line dev_box.Settings.View.Rows.line_of_state
    dev_box.Settings.View.Rows.row_line dev_box.Settings.View.Rows.rows_from
    dev_box.Settings.View.Rows.row_lines dev_box.Settings.View.Dialog.dialog_compact
    dev_box.Settings.View.Dialog.dialog_lines dev_box.Settings.View.Dialog.popup
    dev_box.Settings.View.Dialog.blanks dev_box.Settings.View.Dialog.delete_popup
    dev_box.Settings.View.Panes.pane_widths dev_box.Settings.View.Panes.chrome
    dev_box.Settings.View.Panes.empty_lines dev_box.Settings.View.Panes.fill_to
    dev_box.Settings.View.Panes.cap_block dev_box.Settings.View.Panes.master_pane
    dev_box.Settings.View.Panes.honesty dev_box.Settings.View.Panes.strip
    dev_box.Settings.View.Panes.ledger dev_box.Settings.View.Panes.data_lines
    dev_box.Settings.View.Panes.detail_lines dev_box.Settings.View.Panes.detail_pane
    dev_box.Settings.View.Screen.selected_row dev_box.Settings.View.Screen.message_lines
    dev_box.Settings.View.Screen.budget_of dev_box.Settings.View.Screen.with_identity
    dev_box.Settings.View.Screen.footer dev_box.Settings.View.Screen.header_line
    dev_box.Settings.View.Screen.header dev_box.Settings.View.Screen.body_lines
    dev_box.Settings.View.Screen.selected_line dev_box.Settings.View.Screen.body
    dev_box.Settings.View.Screen.single_column dev_box.Settings.View.Screen.both_panes
    dev_box.Settings.View.Screen.or_column dev_box.Settings.View.Screen.tall
    dev_box.Strings.Utf8.decode_rune dev_box.Strings.Utf8.runes dev_box.Strings.Utf8.encode_rune
    dev_box.Strings.Utf8.encode_runes dev_box.Strings.Utf8.map_runes dev_box.Strings.Utf8.rune_count
    dev_box.Strings.Utf8.utf8
cramped = refl

view-fits_example :
    (lines : List Text) × ((view cells true 0 asked_model ≡ some lines)
      × ((length lines ≤ max 1 24) × All (λ line. length line ≤ max 1 80) lines))
unfolding new_model
view-fits_example = view-fits cells true 0 asked_model cells-narrows asked_model-IsValid (λ h. refl)

render_lines-EndsWithFooter_example :
    EndsWithFooter cells true 0 asked_model (render_lines cells true 0 asked_model)
unfolding new_model
render_lines-EndsWithFooter_example =
    render_lines-EndsWithFooter cells true 0 asked_model asked_model-IsValid (omega arith)

abbrev five_rows : List Text
five_rows = codes "a" ∷ codes "b" ∷ codes "c" ∷ codes "d" ∷ codes "e" ∷ []

scroll_rows-shows_example :
    (length (scroll_rows five_rows 2 3) ≡ min 5 2)
    × (start : ℕ) × (i : ℕ) × (start + i ≡ 3)
    × (i < min 5 2)
    × ((k : ℕ)
        → k < min 5 2
        → get_elem? (scroll_rows five_rows 2 3) k ≡ get_elem? five_rows (start + k))
scroll_rows-shows_example = scroll_rows-shows five_rows 2 3 (omega arith) (omega arith)

cells-Shows : Shows cells
cells-Shows = record {
  prints = λ r h. ground arith;
  cuts =
      λ text tail n s t. styled_if (leb (length text) n) s (styled_if (leb (length tail) n) t done);
}

-- The start, and a tick after it.
after_tick :
    update model ticked
    ≡ some (record model { refreshing = true }, tick ∷ refresh (names model.rows) ∷ [])
unfolding update new_model ℕ_discrete
after_tick = refl

run-AllStyled_example :
    (lines : List Text) × ((view cells true 0 (record model { refreshing = true }) ≡ some lines)
      × AllStyled lines)
unfolding init new_model
run-AllStyled_example =
    run-AllStyled digest cluster host cells true 0 digest-IsDigest.bytes cells-Shows starts
      (next here (input ticked _ _ tt after_tick))
