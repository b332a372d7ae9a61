-- ===== src/Settings/Model/Outcome.antt =====
-- What the end of a deletion tells.
use dev_box.Common.{
  ℕ, ◌≡◌, refl, ap, subst, ◌∙◌, ◌⊎◌, ◌↔◌, inl, inr, false, ◌||◌, take, Option, none, some, Text,
  codes, ok, ◌==◌, number_eq, text_eq, Result-cases, Bool-cases, arith,
}
use dev_box.Settings.Kube.{
  Cluster, http, HttpBoxClient, HttpResponse, ApiStatus, other_error, classify, reports_failure,
  message_of, judge_deletion, status_error, read_deletion, request, delete_pod,
}
use dev_box.Settings.Model.{delete_done, settle, run_delete}

-- The response says that the pod is gone: there is none of the name, or its deletion has begun.
abbrev pub SaysGone : Cluster → HttpResponse → Type 0
SaysGone cluster resp =
    (resp.status_code ≡ 404)
    ⊎ (((resp.status_code ≡ 200) ⊎ (resp.status_code ≡ 202))
        × (reports_failure (cluster.decode_status (take 1048576 resp.body)) ≡ false))

classify-settle :
    (code : ℕ) (message : Text) → (settle (some (classify code message)) ≡ none) ↔ (code ≡ 404)
unfolding classify
classify-settle code message = ground arith

judge_deletion-settle :
    (code : ℕ) (status : Option ApiStatus)
    → (code ≡ 200) ⊎ (code ≡ 202)
    → (settle (judge_deletion code status) ≡ none) ↔ (reports_failure status ≡ false)
unfolding judge_deletion
judge_deletion-settle code status taken = elim (Bool-cases (reports_failure status)) [
  | inl failure ↦ rw failure (ground (arith, classify-settle code (message_of status)))
  | inr success ↦ rw success (ground arith)
]

read_deletion-settle :
    (cluster : Cluster) (resp : HttpResponse)
    → (settle (read_deletion cluster resp) ≡ none) ↔ SaysGone cluster resp
unfolding read_deletion status_error
read_deletion-settle cluster resp =
    elim (Bool-cases (resp.status_code == 200 || resp.status_code == 202)) [
      | inl taken ↦
          let code : (resp.status_code ≡ 200) ⊎ (resp.status_code ≡ 202) = ground arith in
          rw taken (
            ground (
              arith,
              judge_deletion-settle resp.status_code
                  (cluster.decode_status (take 1048576 resp.body)) code,
            ))
      | inr other ↦
          let (missing, back) =
            classify-settle resp.status_code
              (message_of (cluster.decode_status (take 65536 resp.body))) in
          rw other (
            λ h. inl (missing h),
            λ gone. elim gone [
              | inl none_there ↦ back none_there
              | inr (taken, _) ↦ absurd (ground arith)
            ],
          )
    ]

-- With a client of the cluster, a deletion ends without an error exactly if the request is answered, by 404, or by 200 or 202 with a body that is no Status of a failure.
pub run_delete-ok_iff :
    (cluster : Cluster) (c : HttpBoxClient) (name : Text)
    → (run_delete cluster (http c) name ≡ delete_done none) ↔ (
        (resp : HttpResponse) × ((request cluster c (codes "DELETE") name ≡ ok resp)
          × SaysGone cluster resp))
unfolding run_delete delete_pod
run_delete-ok_iff cluster c name = elim (Result-cases (request cluster c (codes "DELETE") name)) [
  | inr (e, failed) ↦
      let told : run_delete cluster (http c) name ≡ delete_done (some (other_error e)) =
        rw (failed, settle) refl in
      (λ h. absurd cc, λ (resp, (answered, gone)). absurd cc)
  | inl (resp, answered) ↦
      let told : run_delete cluster (http c) name
          ≡ delete_done (settle (read_deletion cluster resp)) =
        rw (answered, settle) refl in
      let (there, back) = read_deletion-settle cluster resp in
      (
        λ h. (resp, (answered, there cc)),
        λ (resp', (answered', gone)).
            let same : resp' ≡ resp = cc in
            told ∙ ap delete_done (back (subst (SaysGone cluster) same gone)),
      )
]
