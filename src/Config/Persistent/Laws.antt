-- ===== src/Config/Persistent/Laws.antt =====
-- When the cap lets a box pass, and what a box is given.
use dev_box.Common.{
  ℕ, suc, ◌<◌, ◌≡◌, refl, ap, sym, ◌∙◌, ◌↔◌, ◌⊎◌, inl, inr, true, false, not, ◌&&◌, ◌≢◌, List, [],
  ◌∷◌, ◌++◌, Text, codes, ℤ, pos, negsuc, leb_ℤ, length, contains, Result, ok, err, ◌==◌, text_eq,
  Result-cases, Bool-cases, if◌then◌else◌, arith, ==_refl, ==→≡,
}
use dev_box.Config.Naming.{owner_label_key, owner_label_value}
use dev_box.Config.Templates.{ConfigError, pods_not_listed}
use dev_box.Config.Persistent.{
  Pod, PodApi, BoxPolicy, is_dead, live_names, live_pod_names_for_owner, judge_cap, enforce_cap,
}

-- A pod is live while it is not being deleted and has not ended: one that is pending is.
abbrev pub IsLive : Pod → Type 0
IsLive pod =
    (pod.terminating ≡ false) × (pod.phase ≢ codes "Succeeded") × (pod.phase ≢ codes "Failed")

-- A live pod of the list bears the name.
abbrev pub HasLive : Text → List Pod → Type 0
HasLive name [] = ⊥
HasLive name (pod ∷ pods) = ((pod.name ≡ name) × IsLive pod) ⊎ HasLive name pods

-- How many pods of the list are live.
abbrev pub count_live : List Pod → ℕ
count_live [] = 0
count_live (pod ∷ pods) =
    if not pod.terminating && not (contains (codes "Succeeded" ∷ codes "Failed" ∷ []) pod.phase)
    then suc (count_live pods)
    else count_live pods

is_dead-IsLive : (pod : Pod) → (is_dead pod ≡ false) ↔ IsLive pod
unfolding is_dead
is_dead-IsLive pod = ground arith

length-live_names : (pods : List Pod) → length (live_names pods) ≡ count_live pods
unfolding live_names is_dead
length-live_names [] = refl
length-live_names (pod ∷ pods) = elim (Bool-cases (is_dead pod)) [
  | inl dead ↦ rw (dead, live_names) (ground (arith, length-live_names pods))
  | inr alive ↦ rw (alive, live_names) (ground (arith, length-live_names pods))
]

contains-live_names :
    (name : Text) (pods : List Pod) → contains (live_names pods) name ≡ true → HasLive name pods
unfolding live_names
contains-live_names name [] h = cc
contains-live_names name (pod ∷ pods) h = elim (Bool-cases (is_dead pod)) [
  | inl dead ↦ inr (contains-live_names name pods (rw (dead, live_names) at h))
  | inr alive ↦ elim (Bool-cases (name == pod.name)) [
    | inl same ↦ inl (sym (==→≡ name pod.name same), (is_dead-IsLive pod).0 alive)
    | inr other ↦ inr (contains-live_names name pods (ground arith))
  ]
]

HasLive-contains :
    (name : Text) (pods : List Pod) → HasLive name pods → contains (live_names pods) name ≡ true
unfolding live_names
HasLive-contains name [] h = elim h [ ]
HasLive-contains name (pod ∷ pods) (inl (same, alive)) =
    rw ((is_dead-IsLive pod).1 alive, live_names) (rw same (rw (==_refl name)))
HasLive-contains name (pod ∷ pods) (inr h) = let ih = HasLive-contains name pods h in ground arith

-- The cap is above a number of pods.
abbrev pub IsAbove : ℤ → ℕ → Type 0
IsAbove (pos most) n = n < most
IsAbove (negsuc m) n = ⊥

leb_ℤ-IsAbove : (most : ℤ) (n : ℕ) → leb_ℤ most (pos n) ≡ false → IsAbove most n
leb_ℤ-IsAbove (pos most) n h = ground arith
leb_ℤ-IsAbove (negsuc m) n h = cc

IsAbove-leb_ℤ : (most : ℤ) (n : ℕ) → IsAbove most n → leb_ℤ most (pos n) ≡ false
IsAbove-leb_ℤ (pos most) n h = ground arith
IsAbove-leb_ℤ (negsuc m) n h = elim h [ ]

-- Why a box may pass a cap: it is live already, or the live pods are fewer than the cap.
abbrev pub MayPass : ℤ → Text → List Pod → Type 0
MayPass most pod_name pods = HasLive pod_name pods ⊎ IsAbove most (count_live pods)

passes :
    (most : ℤ) (pod_name : Text) (pods : List Pod)
    → judge_cap most pod_name (live_names pods) ≡ ok tt
    → MayPass most pod_name pods
unfolding judge_cap
passes most pod_name pods h = elim (Bool-cases (contains (live_names pods) pod_name)) [
  | inl listed ↦ inl (contains-live_names pod_name pods listed)
  | inr absent ↦
      inr (leb_ℤ-IsAbove most (count_live pods) (rw (← length-live_names pods) (ground arith)))
]

may_pass :
    (most : ℤ) (pod_name : Text) (pods : List Pod)
    → MayPass most pod_name pods
    → judge_cap most pod_name (live_names pods) ≡ ok tt
unfolding judge_cap
may_pass most pod_name pods (inl live) = rw (HasLive-contains pod_name pods live, judge_cap) refl
may_pass most pod_name pods (inr above) = ground (
  arith,
  length-live_names pods,
  ap pos (length-live_names pods),
  IsAbove-leb_ℤ most (count_live pods) above,
)

module _ (sha256 : Text → Text) (boxes : BoxPolicy) (list_pods : PodApi) where
  -- The API's list of the owner's pods.
  abbrev pub owner_pods : Text → Result Text (List Pod)
  owner_pods owner =
      list_pods boxes.namespace (owner_label_key ++ codes "=" ++ owner_label_value sha256 owner)

  abbrev judged : Text → Result Text (List Text) → Result ConfigError (Unit {0})
  judged pod_name (err cause) = err (pods_not_listed cause)
  judged pod_name (ok names) = judge_cap boxes.max_pods pod_name names

  enforce_cap-judged :
      (owner pod_name : Text)
      → leb_ℤ boxes.max_pods (pos 0) ≡ false
      → enforce_cap sha256 boxes list_pods owner pod_name
        ≡ judged pod_name
            (live_pod_names_for_owner list_pods boxes.namespace (owner_label_value sha256 owner))
  unfolding enforce_cap
  enforce_cap-judged owner pod_name on = ground arith

  listed-judged :
      (owner pod_name : Text) (pods : List Pod)
      → owner_pods owner ≡ ok pods
      → judged pod_name
          (live_pod_names_for_owner list_pods boxes.namespace (owner_label_value sha256 owner))
        ≡ judge_cap boxes.max_pods pod_name (live_names pods)
  unfolding live_pod_names_for_owner
  listed-judged owner pod_name pods listed = rw (listed, live_pod_names_for_owner) refl

  not_listed :
      (owner pod_name : Text) (e : Text)
      → owner_pods owner ≡ err e
      → judged pod_name
          (live_pod_names_for_owner list_pods boxes.namespace (owner_label_value sha256 owner))
        ≡ err (pods_not_listed e)
  unfolding live_pod_names_for_owner
  not_listed owner pod_name e failed = rw (failed, live_pod_names_for_owner) refl

  enforce_cap-off :
      (owner pod_name : Text)
      → leb_ℤ boxes.max_pods (pos 0) ≡ true
      → enforce_cap sha256 boxes list_pods owner pod_name ≡ ok tt
  unfolding enforce_cap
  enforce_cap-off owner pod_name off = ground arith

  -- A box passes the cap exactly if there is no cap, or the owner's pods could be listed and the
  -- box is among the live ones or these are fewer than the cap.
  pub enforce_cap-ok_iff :
      (owner pod_name : Text)
      → (enforce_cap sha256 boxes list_pods owner pod_name ≡ ok tt) ↔ (
          (leb_ℤ boxes.max_pods (pos 0) ≡ true)
          ⊎ ((pods : List Pod) × (owner_pods owner ≡ ok pods)
              × MayPass boxes.max_pods pod_name pods))
  enforce_cap-ok_iff owner pod_name = (to, from)
    where
      to :
          enforce_cap sha256 boxes list_pods owner pod_name ≡ ok tt
          → (leb_ℤ boxes.max_pods (pos 0) ≡ true)
            ⊎ ((pods : List Pod) × (owner_pods owner ≡ ok pods)
                × MayPass boxes.max_pods pod_name pods)
      to h = elim (Bool-cases (leb_ℤ boxes.max_pods (pos 0))) [
        | inl off ↦ inl off
        | inr on ↦ elim (Result-cases (owner_pods owner)) [
          | inr (e, failed) ↦
              absurd (cc (enforce_cap-judged owner pod_name on, not_listed owner pod_name e failed))
          | inl (pods, listed) ↦ inr (
            pods,
            listed,
            passes boxes.max_pods pod_name pods (
                sym (listed-judged owner pod_name pods listed)
                ∙ sym (enforce_cap-judged owner pod_name on)
                ∙ h),
          )
        ]
      ]

      from :
          (leb_ℤ boxes.max_pods (pos 0) ≡ true)
            ⊎ ((pods : List Pod) × (owner_pods owner ≡ ok pods)
                × MayPass boxes.max_pods pod_name pods)
          → enforce_cap sha256 boxes list_pods owner pod_name ≡ ok tt
      from (inl off) = enforce_cap-off owner pod_name off
      from (inr (pods, listed, may)) = elim (Bool-cases (leb_ℤ boxes.max_pods (pos 0))) [
        | inl off ↦ enforce_cap-off owner pod_name off
        | inr on ↦
            enforce_cap-judged owner pod_name on
            ∙ listed-judged owner pod_name pods listed
            ∙ may_pass boxes.max_pods pod_name pods may
      ]
