-- ===== src/Config/Persistent/Bounded.antt =====
-- How many boxes an owner comes to have, where logins come one after another.
use dev_box.Common.{
  ℕ, suc, ◌≤◌, ◌≡◌, refl, inl, inr, false, List, [], ◌∷◌, Text, ℤ, pos, negsuc, leb_ℤ, ok, arith,
}
use dev_box.Config.Persistent.{Pod, PodApi, BoxPolicy, enforce_cap}
use dev_box.Config.Persistent.Laws.{HasLive, count_live, IsAbove, enforce_cap-ok_iff}

-- At most as many as the cap.
abbrev pub IsWithin : ℤ → ℕ → Type 0
IsWithin (pos most) n = n ≤ most
IsWithin (negsuc m) n = ⊥

nothing-IsWithin : (most : ℤ) → leb_ℤ most (pos 0) ≡ false → IsWithin most 0
nothing-IsWithin (pos most) h = ground arith
nothing-IsWithin (negsuc m) h = cc

above-IsWithin : (most : ℤ) (n k : ℕ) → IsAbove most n → k ≤ suc n → IsWithin most k
above-IsWithin (pos most) n k h l = omega arith
above-IsWithin (negsuc m) n k h l = absurd h

fewer-IsWithin : (most : ℤ) (n k : ℕ) → IsWithin most n → k ≤ n → IsWithin most k
fewer-IsWithin (pos most) n k h l = omega arith
fewer-IsWithin (negsuc m) n k h l = absurd h

count_live-cons : (pod : Pod) (pods : List Pod) → count_live (pod ∷ pods) ≤ suc (count_live pods)
count_live-cons pod pods = ground arith

module _ (sha256 : Text → Text) (boxes : BoxPolicy) (owner : Text) where
  -- The API answers with the owner's pods.
  abbrev pub lists : List Pod → PodApi
  lists pods namespace selector = ok pods

  -- The pods that an owner can have. A login that passes the cap creates the box's pod, unless there
  -- is a live one, and a live pod can end or be deleted at any time.
  pub data Comes : List Pod → Type 0 where
    nothing_yet : Comes []
    created :
        {pods : List Pod} (pod : Pod)
        → Comes pods
        → (HasLive pod.name pods → ⊥)
        → enforce_cap sha256 boxes (lists pods) owner pod.name ≡ ok tt
        → Comes (pod ∷ pods)
    lessened :
        {pods : List Pod} (later : List Pod)
        → Comes pods
        → count_live later ≤ count_live pods
        → Comes later

  created-IsWithin :
      (pod : Pod) (pods : List Pod)
      → leb_ℤ boxes.max_pods (pos 0) ≡ false
      → (HasLive pod.name pods → ⊥)
      → enforce_cap sha256 boxes (lists pods) owner pod.name ≡ ok tt
      → IsWithin boxes.max_pods (count_live (pod ∷ pods))
  created-IsWithin pod pods on new passed =
      elim ((enforce_cap-ok_iff sha256 boxes (lists pods) owner pod.name).0 passed) [
        | inl off ↦ absurd (ground arith)
        | inr (listed, same, inl live) ↦
            let here : pods ≡ listed = cc in absurd (new (rw here live))
        | inr (listed, same, inr above) ↦
            let here : pods ≡ listed = cc in
            above-IsWithin boxes.max_pods (count_live pods) (count_live (pod ∷ pods))
              (rw here above) (count_live-cons pod pods)
      ]

  Comes-IsWithin :
      {pods : List Pod}
      → leb_ℤ boxes.max_pods (pos 0) ≡ false
      → Comes pods
      → IsWithin boxes.max_pods (count_live pods)
  Comes-IsWithin on nothing_yet = nothing-IsWithin boxes.max_pods on
  Comes-IsWithin on (created {pods} pod c new passed) = created-IsWithin pod pods on new passed
  Comes-IsWithin on (lessened {pods} later c fewer) =
      fewer-IsWithin boxes.max_pods (count_live pods) (count_live later) (Comes-IsWithin on c) fewer

  -- With a positive cap, where logins come one after another and each pod of an owner comes from one that passed the cap: the owner's live pods are never more than the cap, and a login to one of them passes.
  pub enforce_cap-IsWithin :
      {pods : List Pod}
      → leb_ℤ boxes.max_pods (pos 0) ≡ false
      → Comes pods
      → (name : Text) → HasLive name pods
      → IsWithin boxes.max_pods (count_live pods)
        × (enforce_cap sha256 boxes (lists pods) owner name ≡ ok tt)
  enforce_cap-IsWithin {pods} on c name live = (
    Comes-IsWithin on c,
    (enforce_cap-ok_iff sha256 boxes (lists pods) owner name).1 (inr (pods, refl, inl live)),
  )
