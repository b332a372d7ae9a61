-- ===== src/Settings/View/Reached.antt =====
-- The screens of the worlds that the program reaches.
use dev_box.Common.{
  ok, ℕ, ◌≡◌, refl, subst, Bool, true, List, [], ◌∷◌, ◌++◌, map, all, take, All, all-take, some,
  Text, codes, text_eq, number_eq, arith,
}
use dev_box.Strings.Trim.{is_graphic}
use dev_box.Strings.Hex.{encode, AreBytes, is_hex, all-encode}
use dev_box.Settings.Boxes.{Time, box_pod_name}
use dev_box.Settings.Boxes.Parse.{AllValid, valid_template_name-graphic}
use dev_box.Settings.Kube.{BoxClient}
use dev_box.Settings.Rows.{BoxRow, new_row}
use dev_box.Settings.Model.{
  SettingsModel, Msg, refresh_done, delete_done, Command, names, new_model, update,
}
use dev_box.Settings.Model.Kept.{templates_of, update-Kept}
use dev_box.Settings.Kube.{Cluster}
use dev_box.Settings.Boxes.Valid.{parse_templates-AllValid}
use dev_box.Settings.Startup.{Host, run, getenv, or_unavailable, new_box_client}
use dev_box.Settings.Startup.Laws.{owner_text, run-MayStart}
use dev_box.Settings.Model.World.{
  launched, World, input, refreshed, deletion_ended, Reaches, here, next, started,
}
use dev_box.Settings.Model.Sound.{Reaches-IsSound, started-IsSound}
use dev_box.Settings.View.Style.{Display}
use dev_box.Settings.View.Screen.{view}
use dev_box.Settings.View.Styled.{IsStyled, plain, graphic, ◌⊕◌, Shows}
use dev_box.Settings.View.Styled.Frames.{AllStyled}
use dev_box.Settings.View.Styled.Rows.{IsClean}
use dev_box.Settings.View.Styled.Screen.{view-AllStyled}

module _ (sha256 : Text → Text) (are_bytes : (s : Text) → AreBytes (sha256 s)) (owner : Text) where
  hex_graphic : (c : ℕ) → is_hex c ≡ true → is_graphic c ≡ true
  hex_graphic c h = ground arith

  all_hex-graphic : (s : Text) → all is_hex s ≡ true → all is_graphic s ≡ true
  all_hex-graphic [] h = refl
  all_hex-graphic (c ∷ s) h = ground (arith, hex_graphic c, all_hex-graphic s)

  box_pod_name-IsStyled : (template : Text) → IsStyled (box_pod_name sha256 owner template)
  unfolding box_pod_name codes
  box_pod_name-IsStyled template =
      let digest = encode (sha256 (owner ++ 0 ∷ template)) in
      plain (codes "box-") refl
      ⊕ graphic (take 10 digest) (
          all_hex-graphic (take 10 digest) (all-take is_hex 10 digest (all-encode _ (are_bytes _))))

  new_rows-IsClean :
      (templates : List Text)
      → AllValid templates
      → All IsClean (map (new_row sha256 owner) templates)
  unfolding new_row
  new_rows-IsClean [] v = tt
  new_rows-IsClean (template ∷ templates) (v, vs) = (
    (graphic template (valid_template_name-graphic template v), box_pod_name-IsStyled template),
    new_rows-IsClean templates vs,
  )

-- Rows of the same templates and names are as clean.
rows_agree :
    (rows rows' : List BoxRow)
    → templates_of rows' ≡ templates_of rows
    → names rows' ≡ names rows
    → All IsClean rows
    → All IsClean rows'
rows_agree [] [] t n c = tt
rows_agree [] (r' ∷ rows') t n c = absurd cc
rows_agree (r ∷ rows) [] t n c = absurd cc
rows_agree (r ∷ rows) (r' ∷ rows') t n ((h, k), c) =
    let same_template : r.template ≡ r'.template = cc in
    let t' : templates_of rows' ≡ templates_of rows = cc in
    let n' : names rows' ≡ names rows = cc in
    let same_name : r.name ≡ r'.name = cc in
    ((subst IsStyled same_template h, subst IsStyled same_name k), rows_agree rows rows' t' n' c)

step-IsClean :
    (m : SettingsModel) (msg : Msg) {m' : SettingsModel} {commands : List Command}
    → update m msg ≡ some (m', commands)
    → All IsClean m.rows
    → All IsClean m'.rows
step-IsClean m msg {m'} e c =
    let (templates, same) = rw e at (update-Kept m msg) in
    rows_agree m.rows m'.rows templates same c

Reaches-IsClean : {w u : World} → All IsClean w.model.rows → Reaches w u → All IsClean u.model.rows
Reaches-IsClean c here = c
Reaches-IsClean c (next {v} r (input msg m commands i e)) =
    step-IsClean v.model msg e (Reaches-IsClean c r)
Reaches-IsClean c (next {v} r (refreshed results m commands h e)) =
    step-IsClean v.model (refresh_done results) e (Reaches-IsClean c r)
Reaches-IsClean c (next {v} r (deletion_ended o m commands h e)) =
    step-IsClean v.model (delete_done o) e (Reaches-IsClean c r)

reached-AllStyled :
    (sha256 : Text → Text) (owner : Text) (templates : List Text) (max_boxes : ℕ)
    (client : BoxClient) (width height : ℕ) {u : World} (d : Display) (on : Bool) (now : Time)
    → ((s : Text) → AreBytes (sha256 s))
    → AllValid templates
    → Shows d
    → Reaches (started sha256 owner templates max_boxes client width height) u
    → (lines : List Text) × ((view d on now u.model ≡ some lines) × AllStyled lines)
unfolding new_model
reached-AllStyled sha256 owner templates max_boxes client width height {u} d on now are_bytes v
      shows r =
    let s =
      Reaches-IsSound (started-IsSound sha256 owner templates max_boxes client width height) r in
    view-AllStyled d shows on now u.model
      (Reaches-IsClean (new_rows-IsClean sha256 are_bytes owner templates v) r) s.valid

-- When the hash gives bytes, and the terminal's library calls no control character printable and cuts no code in two: in every world that the program reaches from a start, whatever the environment and the terminal were, the keys, and the answers of the cluster, the view does not panic, and no line of it holds a control byte of ASCII except in one of the six codes of the styles, so that no other escape sequence reaches the terminal.
pub run-AllStyled :
    (sha256 : Text → Text) (cluster : Cluster) (host : Host) {m : SettingsModel} {u : World}
    (d : Display) (on : Bool) (now : Time)
    → ((s : Text) → AreBytes (sha256 s))
    → Shows d
    → run sha256 cluster host ≡ ok m
    → Reaches (launched m) u
    → (lines : List Text) × ((view d on now u.model ≡ some lines) × AllStyled lines)
run-AllStyled sha256 cluster host {m} {u} d on now are_bytes shows starts r =
    let s = run-MayStart sha256 cluster host m starts in
    reached-AllStyled sha256 (owner_text sha256 cluster host) s.templates s.max_boxes
      (or_unavailable (new_box_client sha256 cluster host)) s.size.0 s.size.1 d on now are_bytes
      (parse_templates-AllValid (getenv sha256 cluster host (codes "DEV_BOX_BOX_TEMPLATES"))
        s.templates s.listed)
      shows (subst (λ k. Reaches (launched k) u) s.built r)
