-- ===== src/Tests/Cap.antt =====
-- The cap of one box, at an owner who has it.
use dev_box.Common.{◌≡◌, refl, inl, false, [], ◌∷◌, codes, ok}
use dev_box.Config.Persistent.{Pod, is_dead, enforce_cap}
use dev_box.Config.Persistent.Laws.{IsLive, count_live}
use dev_box.Config.Persistent.Bounded.{
  IsWithin, Comes, lists, nothing_yet, created, enforce_cap-IsWithin,
}
use dev_box.Tests.Fixtures.{digest}
use dev_box.Tests.Serving.{boxes}

abbrev box : Pod
box = record { name = codes "box"; terminating = false; phase = codes "Running" }

first_passes :
    enforce_cap digest boxes (lists digest boxes (codes "ann") []) (codes "ann") box.name ≡ ok tt
unfolding enforce_cap dev_box.Config.Persistent.live_pod_names_for_owner
first_passes = refl

box_lives : IsLive box
unfolding codes
box_lives = (refl, λ e. cc, λ e. cc)

box-Comes : Comes digest boxes (codes "ann") (box ∷ [])
box-Comes = created box nothing_yet (λ h. h) first_passes

enforce_cap-IsWithin_example :
    IsWithin boxes.max_pods (count_live (box ∷ []))
    × (enforce_cap digest boxes
          (lists digest boxes (codes "ann") (box ∷ []))
          (codes "ann")
          (codes "box")
        ≡ ok tt)
enforce_cap-IsWithin_example =
    enforce_cap-IsWithin digest boxes (codes "ann") refl box-Comes (codes "box")
      (inl (refl, box_lives))
