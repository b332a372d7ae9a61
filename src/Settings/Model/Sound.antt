-- ===== src/Settings/Model/Sound.antt =====
-- What holds in every world that the program reaches.
use dev_box.Common.{ℕ, ◌≡◌, refl, ap, sym, ◌∙◌, List, length, length-map, some, Text, text_eq}
use dev_box.Settings.Kube.{BoxClient}
use dev_box.Settings.Rows.{new_row}
use dev_box.Settings.Model.{
  SettingsModel, Command, Msg, refresh_done, delete_done, update, new_model, names,
}
use dev_box.Settings.Model.Invariant.{IsValid, update-Keeps, new_model-IsValid}
use dev_box.Settings.Model.World.{
  World, WorldStep, input, refreshed, deletion_ended, Reaches, here, next, started, IsCounted,
  WorldStep-IsCounted, started-IsCounted,
}

-- What holds in every world that the program reaches: `n` boxes are listed.
pub record IsSound (n : ℕ) (w : World) : Type 0 where
  pub counted : IsCounted w
  pub valid : IsValid w.model
  pub listed : length w.model.rows ≡ n

-- The same boxes are listed after a message.
update-lists :
    (n : ℕ) (m : SettingsModel) (msg : Msg) {m' : SettingsModel} {commands : List Command}
    → IsValid m
    → length m.rows ≡ n
    → update m msg ≡ some (m', commands)
    → IsValid m' × (length m'.rows ≡ n)
update-lists n m msg {m'} v listed e =
    let (valid, same) = rw e at (update-Keeps m msg v) in
    (
      valid,
      sym (length-map (λ r. r.name) m'.rows)
          ∙ ap length same
          ∙ length-map (λ r. r.name) m.rows
          ∙ listed,
    )

module _ {n : ℕ} where
  IsSound-step :
      {w u : World}
      → WorldStep w u
      → IsSound n w
      → IsValid u.model × (length u.model.rows ≡ n)
      → IsSound n u
  IsSound-step step s (valid, listed) = record {
    counted = WorldStep-IsCounted step s.counted;
    valid = valid;
    listed = listed;
  }

  pub WorldStep-IsSound : {w u : World} → WorldStep w u → IsSound n w → IsSound n u
  WorldStep-IsSound {w} (input msg m commands i e) s =
      IsSound-step (input msg m commands i e) s (update-lists n w.model msg s.valid s.listed e)
  WorldStep-IsSound {w} (refreshed results m commands h e) s =
      IsSound-step (refreshed results m commands h e) s
        (update-lists n w.model (refresh_done results) s.valid s.listed e)
  WorldStep-IsSound {w} (deletion_ended o m commands h e) s =
      IsSound-step (deletion_ended o m commands h e) s
        (update-lists n w.model (delete_done o) s.valid s.listed e)

  pub Reaches-IsSound : {w u : World} → IsSound n w → Reaches w u → IsSound n u
  Reaches-IsSound s here = s
  Reaches-IsSound s (next r step) = WorldStep-IsSound step (Reaches-IsSound s r)

same_names :
    (m : SettingsModel) (msg : Msg) {m' : SettingsModel} {commands : List Command}
    → IsValid m
    → update m msg ≡ some (m', commands)
    → names m'.rows ≡ names m.rows
same_names m msg v e = (rw e at (update-Keeps m msg v)).1

WorldStep-names :
    {w u : World} → WorldStep w u → IsValid w.model → names u.model.rows ≡ names w.model.rows
WorldStep-names {w} (input msg m commands i e) v = same_names w.model msg v e
WorldStep-names {w} (refreshed results m commands h e) v =
    same_names w.model (refresh_done results) v e
WorldStep-names {w} (deletion_ended o m commands h e) v = same_names w.model (delete_done o) v e

-- The pods that are listed never change.
pub Reaches-names :
    (n : ℕ) {w u : World} → IsSound n w → Reaches w u → names u.model.rows ≡ names w.model.rows
Reaches-names n s here = refl
Reaches-names n s (next r step) =
    WorldStep-names step (Reaches-IsSound s r).valid ∙ Reaches-names n s r

pub started-IsSound :
    (sha256 : Text → Text) (owner : Text) (templates : List Text) (max_boxes : ℕ)
    (client : BoxClient) (width height : ℕ)
    → IsSound (length templates) (started sha256 owner templates max_boxes client width height)
unfolding new_model
started-IsSound sha256 owner templates max_boxes client width height = record {
  counted = started-IsCounted sha256 owner templates max_boxes client width height;
  valid = new_model-IsValid sha256 owner templates max_boxes client width height;
  listed = length-map (new_row sha256 owner) templates;
}
