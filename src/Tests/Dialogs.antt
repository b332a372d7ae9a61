-- ===== src/Tests/Dialogs.antt =====
-- The dialog of the settings application at concrete inputs.
use dev_box.Common.{
  err, ◌≡◌, refl, ◌↔◌, ◌⊎◌, ok, List, [], ◌∷◌, map, length, Option, none, some, Text, Result, codes,
  arith,
}
use dev_box.Settings.Pod.{PodInfo}
use dev_box.Settings.Model.Rounds.{Round, spawned, answered, ask, Carries, run_refresh-Round}
use dev_box.Settings.Model.{delete_done, run_delete, run_refresh}
use dev_box.Settings.Kube.{ApiError, Cluster, http, HttpBoxClient, HttpResponse, request}
use dev_box.Settings.Model.Outcome.{SaysGone, run_delete-ok_iff}
use dev_box.Settings.Rows.{is_answer}
use dev_box.Settings.Model.World.{World, Reaches}
use dev_box.Settings.Model.Recovery.{IsRecovered, recovers}
use dev_box.Tests.Fixtures.{digest}
use dev_box.Tests.Boxes.{client, two_templates, results, ticked_world, ticked_world-Reaches}

recovers_example : (u : World) × (Reaches ticked_world u × IsRecovered u.model results)
unfolding is_answer
recovers_example =
    recovers digest (codes "ann") two_templates 2 client 80 24 ticked_world-Reaches results
      (omega arith) refl refl

-- A cluster that takes every request.
abbrev taking : Cluster
taking = record {
  lookup_env = λ key. none;
  read_file = λ path. err (codes "no such file");
  request_error = λ method url. none;
  send = λ req. ok (record { status_code = 202; body = codes "{}" });
  decode_pod = λ body. none;
  decode_status = λ body. none;
}

abbrev box_client : HttpBoxClient
box_client = record {
  base = codes "https://10.0.0.1:443";
  namespace = codes "containerssh-sessions";
  token = codes "t";
  token_file = [];
  roots = none;
}

run_delete-ok_iff_example :
    (run_delete taking (http box_client) (codes "box-0601020304") ≡ delete_done none) ↔ (
      (resp : HttpResponse) × ((request taking box_client (codes "DELETE") (codes "box-0601020304")
          ≡ ok resp)
        × SaysGone taking resp))
run_delete-ok_iff_example = run_delete-ok_iff taking box_client (codes "box-0601020304")

abbrev two_pods : List Text
two_pods = codes "box-a" ∷ codes "box-b" ∷ []

abbrev round_results : List (Option (Result ApiError PodInfo))
round_results = map (λ name. some (ask taking (http box_client) two_pods name)) two_pods

-- The second goroutine ends first.
last_first : Round (ask taking (http box_client) two_pods) two_pods 2 round_results
unfolding codes
last_first = answered 0 (codes "box-a") (answered 1 (codes "box-b") spawned refl refl) refl refl

run_refresh-Round_example :
    ((2 ≡ length two_pods) × Carries (run_refresh taking (http box_client) two_pods) round_results)
    ⊎ ((later : List (Option (Result ApiError PodInfo))) × Round
          (ask taking (http box_client) two_pods)
          two_pods
          3
          later)
run_refresh-Round_example = run_refresh-Round taking (http box_client) two_pods last_first
