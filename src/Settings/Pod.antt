-- ===== src/Settings/Pod.antt =====
-- settings-tui/kube.go: `podInfo`, the fields of a pod that the application reads.
use dev_box.Common.{ℕ, List, Option, Text}
use dev_box.Common.Table.{Table}
use dev_box.Settings.Boxes.{Time}

pub record Container : Type 0 where
  pub image : Text
  pub requests : Table Text
  pub limits : Table Text

-- `restart_counts` are the 32 bits of each `int32`.
pub record PodInfo : Type 0 where
  pub name : Text
  pub deletion_timestamp : Option Time
  pub runtime_class_name : Option Text
  pub containers : List Container
  pub phase : Text
  pub start_time : Option Time
  pub restart_counts : List ℕ
