-- ===== src/Settings/Rows.antt =====
-- settings-tui/model.go: one row for each box template, and how a refresh changes it.
use dev_box.Common.{
  ℕ, suc, ◌+◌, ◌%◌, Bool, true, false, ◌||◌, not, List, [], ◌∷◌, Option, none, some, Text, codes,
  Result, ok, err, ◌==◌, if◌then◌else◌, number_eq, text_eq,
}
use dev_box.Settings.Boxes.{Time, format_mem_cpu, em_dash, box_pod_name}
use dev_box.Settings.Pod.{PodInfo, Container}
use dev_box.Settings.Kube.{ApiError, not_found, forbidden}

pub data RowState : Type 0 where
  checking running pending terminating error not_created unavailable refused : RowState

-- `name` is the pod's; `restarts` the 32 bits of an `int32`; `started` is 0 if it is not known.
pub record BoxRow : Type 0 where
  pub template : Text
  pub name : Text
  pub state : RowState
  pub stale : Bool
  pub reconnect : Bool
  pub phase : Text
  pub started : Time
  pub image : Text
  pub runtime_class : Text
  pub restarts : ℕ
  pub requests : Text
  pub limits : Text

-- The states that vouch for a pod.
unfoldable pub state_exists : RowState → Bool
state_exists checking = false
state_exists not_created = false
state_exists unavailable = false
state_exists refused = false
state_exists _ = true

abbrev pub box_exists : BoxRow → Bool
box_exists r = state_exists r.state

unfoldable pub new_row : (Text → Text) → Text → Text → BoxRow
new_row sha256 owner template = record {
  template = template;
  name = box_pod_name sha256 owner template;
  state = checking;
  stale = false;
  reconnect = false;
  phase = [];
  started = 0;
  image = [];
  runtime_class = [];
  restarts = 0;
  requests = [];
  limits = [];
}

-- The sum of the restart counts wraps around as an `int32`.
unfoldable pub sum_restarts : ℕ → List ℕ → ℕ
sum_restarts restarts [] = restarts
sum_restarts restarts (count ∷ counts) = sum_restarts ((restarts + count) % 4294967296) counts

unfoldable pub state_of_pod : PodInfo → RowState
state_of_pod pod = elim pod.deletion_timestamp [
  | some t ↦ terminating
  | none ↦
      if pod.phase == codes "Running"
      then running
      else if pod.phase == [] || pod.phase == codes "Pending"
      then pending
      else error
]

abbrev or_zero : Option Time → Time
or_zero none = 0
or_zero (some t) = t

abbrev class_of : Option Text → Text
class_of none = codes "default"
class_of (some c) = if c == [] then codes "default" else c

abbrev first_image : List Container → Text
first_image [] = []
first_image (c ∷ _) = c.image

abbrev first_requests : List Container → Text
first_requests [] = em_dash
first_requests (c ∷ _) = format_mem_cpu c.requests

abbrev first_limits : List Container → Text
first_limits [] = em_dash
first_limits (c ∷ _) = format_mem_cpu c.limits

-- `apply`: the row shows the pod. Only the template and the name stay.
unfoldable pub apply : BoxRow → PodInfo → BoxRow
unfolding state_of_pod sum_restarts
apply r pod = record r {
  state = state_of_pod pod;
  stale = false;
  reconnect = false;
  phase = pod.phase;
  started = or_zero pod.start_time;
  image = first_image pod.containers;
  runtime_class = class_of pod.runtime_class_name;
  restarts = sum_restarts 0 pod.restart_counts;
  requests = first_requests pod.containers;
  limits = first_limits pod.containers;
}

abbrev unless_seen : RowState → RowState → RowState
unless_seen checking s = s
unless_seen old s = old

-- One round of the loop of `applyRefresh`.
unfoldable pub apply_result : BoxRow → Result ApiError PodInfo → BoxRow
unfolding apply
apply_result r (ok pod) = apply r pod
apply_result r (err (not_found message)) = record r {
  state = not_created;
  stale = false;
  reconnect = false;
  phase = [];
  started = 0;
  image = [];
  runtime_class = [];
  restarts = 0;
  requests = [];
  limits = [];
}
apply_result r (err (forbidden message)) = record r {
  state = unless_seen r.state refused;
  stale = not (r.phase == []);
  reconnect = true;
}
apply_result r (err _) = record r {
  state = unless_seen r.state unavailable;
  stale = not (r.phase == []);
  reconnect = false;
}

-- The API answered: a pod, or that there is none.
unfoldable pub is_answer : Result ApiError PodInfo → Bool
is_answer (ok pod) = true
is_answer (err (not_found message)) = true
is_answer (err _) = false

unfoldable pub apply_results : List BoxRow → List (Result ApiError PodInfo) → List BoxRow
apply_results (r ∷ rows) (result ∷ results) = apply_result r result ∷ apply_results rows results
apply_results rows _ = rows

unfoldable pub count_answers : List (Result ApiError PodInfo) → ℕ
count_answers [] = 0
count_answers (result ∷ results) =
    let rest = count_answers results in if is_answer result then suc rest else rest
