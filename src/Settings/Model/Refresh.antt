-- ===== src/Settings/Model/Refresh.antt =====
-- What a refresh shows.
use dev_box.Common.{
  ◌-◌, ◌≤◌, ◌≡◌, refl, ap, ap₂, ◌∙◌, ◌↔◌, Bool, true, false, List, [], ◌∷◌, map, none, some, codes,
  ◌≢◌, ◌⊎◌, Result, ok, err, length, all, number_eq, arith,
}
use dev_box.Settings.Pod.{PodInfo}
use dev_box.Settings.Kube.{ApiError, not_found, forbidden, token_rejected, api_error, other_error}
use dev_box.Settings.Rows.{
  BoxRow, RowState, checking, running, pending, terminating, not_created, unavailable, refused,
  box_exists, state_exists, state_of_pod, apply, apply_result, apply_results, is_answer,
  count_answers,
}
use dev_box.Settings.Model.{SettingsModel, Command, refresh_done, update, apply_refresh, live}

-- Whether a pod is there, by an answer and what was known: only an answer changes it.
abbrev pub vouched : Bool → Result ApiError PodInfo → Bool
vouched known (ok pod) = true
vouched known (err (not_found message)) = false
vouched known (err _) = known

abbrev pub vouched_all : List BoxRow → List (Result ApiError PodInfo) → List Bool
vouched_all (r ∷ rows) (result ∷ results) = vouched (box_exists r) result ∷ vouched_all rows results
vouched_all rows _ = map (λ r. box_exists r) rows

-- A row says of a pod what its data says: a deletion comes before the phase, a pod without a phase is
-- pending, and what is neither is an error.
abbrev pub IsRowOf : PodInfo → BoxRow → Type 0
IsRowOf pod r =
    ((r.state ≡ terminating) ↔ (pod.deletion_timestamp ≢ none))
    × ((r.state ≡ running) ↔ ((pod.deletion_timestamp ≡ none) × (pod.phase ≡ codes "Running")))
    × ((r.state ≡ pending)
        ↔ ((pod.deletion_timestamp ≡ none) × ((pod.phase ≡ []) ⊎ (pod.phase ≡ codes "Pending"))))
    × (state_exists r.state ≡ true)
    × (r.phase ≡ pod.phase)
    × (r.stale ≡ false)

-- A row without an answer says what it said, and that this is old if there was a pod; a row that never
-- had one says why.
abbrev pub IsOldRow : RowState → Bool → BoxRow → BoxRow → Type 0
IsOldRow why login old r =
    (old.state ≡ checking → r.state ≡ why)
    × (old.state ≢ checking → r.state ≡ old.state)
    × (r.phase ≡ old.phase)
    × ((r.stale ≡ true) ↔ (old.phase ≢ []))
    × (r.reconnect ≡ login)

-- What a row says after the result of its request; `old` is the row before.
abbrev pub Says : BoxRow → Result ApiError PodInfo → BoxRow → Type 0
Says old (ok pod) r = IsRowOf pod r
Says old (err (not_found message)) r = (r.state ≡ not_created) × (r.phase ≡ []) × (r.stale ≡ false)
Says old (err (forbidden message)) r = IsOldRow refused true old r
Says old (err _) r = IsOldRow unavailable false old r

abbrev pub SaysAll : List BoxRow → List (Result ApiError PodInfo) → List BoxRow → Type 0
SaysAll [] [] [] = Unit
SaysAll (old ∷ olds) (result ∷ results) (r ∷ rows) = Says old result r × SaysAll olds results rows
SaysAll _ _ _ = ⊥

apply-IsRowOf : (old : BoxRow) (pod : PodInfo) → IsRowOf pod (apply old pod)
unfolding apply state_of_pod state_exists codes
apply-IsRowOf old pod = ground arith

apply_result-Says :
    (old : BoxRow) (result : Result ApiError PodInfo) → Says old result (apply_result old result)
unfolding apply_result
apply_result-Says old (ok pod) = apply-IsRowOf old pod
apply_result-Says old (err (not_found message)) = ground arith
apply_result-Says old (err (forbidden message)) = ground arith
apply_result-Says old (err (token_rejected message)) = ground arith
apply_result-Says old (err (api_error code message)) = ground arith
apply_result-Says old (err (other_error message)) = ground arith

apply_results-SaysAll :
    (olds : List BoxRow) (results : List (Result ApiError PodInfo))
    → length results ≡ length olds
    → SaysAll olds results (apply_results olds results)
unfolding apply_results
apply_results-SaysAll [] [] h = tt
apply_results-SaysAll [] (result ∷ results) h = absurd (omega arith)
apply_results-SaysAll (old ∷ olds) [] h = absurd (omega arith)
apply_results-SaysAll (old ∷ olds) (result ∷ results) h =
    (apply_result-Says old result, apply_results-SaysAll olds results (omega arith))

state_of_pod-exists : (pod : PodInfo) → state_exists (state_of_pod pod) ≡ true
unfolding state_of_pod state_exists
state_of_pod-exists pod = ground arith

apply_result-vouched :
    (r : BoxRow) (result : Result ApiError PodInfo)
    → box_exists (apply_result r result) ≡ vouched (box_exists r) result
unfolding apply_result apply state_exists
apply_result-vouched r (ok pod) = state_of_pod-exists pod
apply_result-vouched r (err (not_found message)) = refl
apply_result-vouched r (err (forbidden message)) = ground arith
apply_result-vouched r (err (token_rejected message)) = ground arith
apply_result-vouched r (err (api_error code message)) = ground arith
apply_result-vouched r (err (other_error message)) = ground arith

apply_results-vouched :
    (rows : List BoxRow) (results : List (Result ApiError PodInfo))
    → map (λ r. box_exists r) (apply_results rows results) ≡ vouched_all rows results
unfolding apply_results
apply_results-vouched [] results = refl
apply_results-vouched (r ∷ rows) [] = refl
apply_results-vouched (r ∷ rows) (result ∷ results) =
    ap₂ ◌∷◌ (apply_result-vouched r result) (apply_results-vouched rows results)

count_answers-le :
    (results : List (Result ApiError PodInfo)) → count_answers results ≤ length results
unfolding count_answers
count_answers-le [] = omega arith
count_answers-le (result ∷ results) = ground (arith, count_answers-le results)

count_answers-all :
    (results : List (Result ApiError PodInfo))
    → (length results - count_answers results ≡ 0) ↔ (all is_answer results ≡ true)
unfolding count_answers
count_answers-all [] = (λ h. refl, λ h. refl)
count_answers-all (result ∷ results) =
    ground (arith, count_answers-all results, count_answers-le results)

pub update-refreshed :
    (m : SettingsModel) (results : List (Result ApiError PodInfo)) (m' : SettingsModel)
    (commands : List Command)
    → length results ≡ length m.rows
    → update m (refresh_done results) ≡ some (m', commands)
    → SaysAll m.rows results m'.rows
      × (map (λ r. box_exists r) m'.rows ≡ vouched_all m.rows results)
      × ((m'.conn ≡ live) ↔ (all is_answer results ≡ true))
      × (m'.refreshing ≡ false)
      × (m'.dialog ≡ m.dialog)
      × (commands ≡ [])
unfolding update apply_refresh
update-refreshed m results m' commands same h =
    let rows : m'.rows ≡ apply_results m.rows results = ground arith in
    (
      rw rows (apply_results-SaysAll m.rows results same),
      ap (map (λ r. box_exists r)) rows ∙ apply_results-vouched m.rows results,
      ground (arith, count_answers-all results),
      ground arith,
      ground arith,
      ground arith,
    )
