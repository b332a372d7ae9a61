-- ===== src/Settings/Model/Recovery.antt =====
-- From every world that the program reaches, it can recover.
use dev_box.Common.{
  ℕ, ◌-◌, ◌<◌, ◌≡◌, refl, ap, ap₂, sym, ◌∙◌, Bool, true, false, List, [], ◌∷◌, map, length, all,
  none, some, Text, codes, text_eq, Result, ok, err, Bool-cases, inl, inr, arith, bytes_dec,
  ℕ_discrete,
}
use dev_box.Settings.Pod.{PodInfo}
use dev_box.Settings.Kube.{
  ApiError, BoxClient, not_found, forbidden, token_rejected, api_error, other_error,
}
use dev_box.Settings.Rows.{BoxRow, box_exists, is_answer}
use dev_box.Settings.Model.{
  SettingsModel, DialogState, no_dialog, confirm_delete, deleting, live, ticked, refresh_done,
  delete_done, key_press, tick, refresh_of, dialog_key, key_in, update,
}
use dev_box.Settings.Model.Invariant.{update-IsValid}
use dev_box.Settings.Model.Refresh.{vouched, vouched_all, update-refreshed}
use dev_box.Settings.Model.Sound.{IsSound, WorldStep-IsSound, Reaches-IsSound, started-IsSound}
use dev_box.Settings.Model.World.{
  World, WorldStep, input, refreshed, deletion_ended, Reaches, here, next, launch, started,
  delete_done-counts,
}

-- A world with a closed dialog can follow.
abbrev Closes : ℕ → World → Type 0
Closes n w = (u : World) × (Reaches w u × (IsSound n u × (u.model.dialog ≡ no_dialog)))

press_esc :
    (m : SettingsModel) → dialog_key m (codes "esc") ≡ some (record m { dialog = no_dialog }, [])
unfolding codes dialog_key bytes_dec ℕ_discrete
press_esc m = refl

tick-refreshes :
    (m : SettingsModel)
    → m.refreshing ≡ false
    → 0 < length m.rows
    → update m ticked ≡ some (record m { refreshing = true }, tick ∷ refresh_of m ∷ [])
unfolding update
tick-refreshes m idle h = ground arith

-- The answers to all requests, and whether each tells of a pod.
abbrev pub is_there : Result ApiError PodInfo → Bool
is_there (ok pod) = true
is_there (err e) = false

vouched-answer :
    (known : Bool) (result : Result ApiError PodInfo)
    → is_answer result ≡ true
    → vouched known result ≡ is_there result
unfolding is_answer
vouched-answer known (ok pod) h = refl
vouched-answer known (err (not_found message)) h = refl
vouched-answer known (err (forbidden message)) h = ground arith
vouched-answer known (err (token_rejected message)) h = ground arith
vouched-answer known (err (api_error code message)) h = ground arith
vouched-answer known (err (other_error message)) h = ground arith

vouched_all-answers :
    (rows : List BoxRow) (results : List (Result ApiError PodInfo))
    → length results ≡ length rows
    → all is_answer results ≡ true
    → vouched_all rows results ≡ map is_there results
vouched_all-answers [] [] h k = refl
vouched_all-answers [] (r ∷ results) h k = absurd (omega arith)
vouched_all-answers (r ∷ rows) [] h k = absurd (omega arith)
vouched_all-answers (r ∷ rows) (result ∷ results) h k =
    ap₂ ◌∷◌ (vouched-answer (box_exists r) result (ground arith))
      (vouched_all-answers rows results (omega arith) (ground arith))

module _ {n : ℕ} where
  clear_dialog : (w : World) (d : DialogState) → IsSound n w → w.model.dialog ≡ d → Closes n w
  unfolding update key_in
  clear_dialog w no_dialog s d = (w, (here, (s, d)))
  clear_dialog w confirm_delete s d =
      let m = record w.model { dialog = no_dialog } in
      let e : update w.model (key_press (codes "esc")) ≡ some (m, []) =
        ap (λ state. key_in state w.model (codes "esc")) d ∙ press_esc w.model in
      let step : WorldStep w (launch w m []) = input (key_press (codes "esc")) m [] tt e in
      (launch w m [], (next here step, (WorldStep-IsSound step s, refl)))
  clear_dialog w deleting s d =
      let (m, commands, e, _, _) = update-IsValid w.model (delete_done none) s.valid in
      let step : WorldStep w (launch (record w { deletions = w.deletions - 1 }) m commands) =
        deletion_ended none m commands (let c = s.counted in ground arith) e in
      (
        launch (record w { deletions = w.deletions - 1 }) m commands,
        (next here step, (WorldStep-IsSound step s, (delete_done-counts w.model none e).0)),
      )

  flies :
      (w : World)
      → IsSound n w
      → 0 < n
      → (u : World) × (Reaches w u
          × (IsSound n u × ((u.model.dialog ≡ w.model.dialog) × (0 < u.refreshes))))
  flies w s h = elim (Bool-cases w.model.refreshing) [
    | inl flag ↦ (w, (here, (s, (refl, s.counted.true_flag flag))))
    | inr idle ↦
        let filled : 0 < length w.model.rows = let listed = s.listed in omega arith in
        let e = tick-refreshes w.model idle filled in
        let step : WorldStep w
            (launch w (record w.model { refreshing = true }) (tick ∷ refresh_of w.model ∷ [])) =
          input ticked (record w.model { refreshing = true }) (tick ∷ refresh_of w.model ∷ []) tt
            e in
        (
          launch w (record w.model { refreshing = true }) (tick ∷ refresh_of w.model ∷ []),
          (next here step, (WorldStep-IsSound step s, (refl, omega arith))),
        )
  ]

Reaches-trans : {w v u : World} → Reaches w v → Reaches v u → Reaches w u
Reaches-trans r here = r
Reaches-trans r (next q step) = next (Reaches-trans r q) step

-- What the program shows after the answers.
abbrev pub IsRecovered : SettingsModel → List (Result ApiError PodInfo) → Type 0
IsRecovered m results =
    (m.dialog ≡ no_dialog)
    × ((m.conn ≡ live)
        × ((m.refreshing ≡ false) × (map (λ r. box_exists r) m.rows ≡ map is_there results)))

answered :
    (n : ℕ) (w : World) (results : List (Result ApiError PodInfo))
    → IsSound n w
    → w.model.dialog ≡ no_dialog
    → 0 < w.refreshes
    → length results ≡ n
    → all is_answer results ≡ true
    → (u : World) × (Reaches w u × IsRecovered u.model results)
answered n w results s d flying count answers =
    let (m, commands, e, _, _) = update-IsValid w.model (refresh_done results) s.valid in
    let step = refreshed results m commands flying e in
    let matching : length results ≡ length w.model.rows = count ∙ sym s.listed in
    let (_, rows, fresh, flag, dialog, _) =
      update-refreshed w.model results m commands matching e in
    (
      launch (record w { refreshes = w.refreshes - 1 }) m commands,
      (
        next here step,
        (
          dialog ∙ d,
          (
            fresh.1 answers,
            (flag, rows ∙ vouched_all-answers w.model.rows results matching answers),
          ),
        ),
      ),
    )

-- From every world that the program reaches after its start with at least one template, however its keys, ticks, requests and deletions went, and whatever the answers of the cluster to the next requests will be, if there is one for each template: a world follows in which no dialog is open, the connection is live, the next refresh may start, and each row exists exactly if its answer is a pod.
pub recovers :
    (sha256 : Text → Text) (owner : Text) (templates : List Text) (max_boxes : ℕ)
    (client : BoxClient) (width height : ℕ) {w : World}
    → Reaches (started sha256 owner templates max_boxes client width height) w
    → (results : List (Result ApiError PodInfo)) → 0 < length templates
    → length results ≡ length templates
    → all is_answer results ≡ true
    → (u : World) × (Reaches w u × IsRecovered u.model results)
recovers sha256 owner templates max_boxes client width height {w} r results filled count answers =
    let s =
      Reaches-IsSound (started-IsSound sha256 owner templates max_boxes client width height) r in
    let (v, (closing, (v_sound, closed))) = clear_dialog w w.model.dialog s refl in
    let (f, (flying, (f_sound, (same, flies_now)))) = flies v v_sound filled in
    let (u, (answering, recovered)) =
      answered (length templates) f results f_sound (same ∙ closed) flies_now count answers in
    (u, (Reaches-trans closing (Reaches-trans flying answering), recovered))
