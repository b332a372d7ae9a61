-- ===== src/Settings/Model/Rounds.antt =====
-- settings-tui/model.go, `refresh`: one goroutine asks for each name. The goroutines end in any order,
-- each writes its own place of the results, and the round waits for all of them.
use dev_box.Common.{
  ℕ, zero, suc, ◌≡◌, refl, ap, ap₂, sym, ◌∙◌, ◌⊎◌, inl, inr, List, [], ◌∷◌, map, length, get_elem?,
  set, Option, none, some, Text, Result, arith,
}
use dev_box.Settings.Pod.{PodInfo}
use dev_box.Settings.Kube.{ApiError, Cluster, BoxClient, get_pod}
use dev_box.Settings.Model.{Msg, refresh_done, run_refresh}

-- The places of the results, `none` while the goroutine of the name runs, after a number of ends.
pub data Round {A : Type 0} (ask : Text → A) (pods : List Text) : ℕ → List (Option A) → Type 0 where
  spawned : Round ask pods zero (map (λ name. none) pods)
  answered :
      {n : ℕ} {results : List (Option A)} (i : ℕ) (name : Text)
      → Round ask pods n results
      → get_elem? results i ≡ some none
      → get_elem? pods i ≡ some name
      → Round ask pods (suc n) (set results i (some (ask name)))

module _ {A : Type 0} (ask : Text → A) where
  abbrev IsAnswer : Option A → Text → Type 0
  IsAnswer none name = Unit
  IsAnswer (some a) name = a ≡ ask name

  -- What is written is the answer for the name of its place.
  abbrev AreAnswers : List (Option A) → List Text → Type 0
  AreAnswers [] [] = Unit
  AreAnswers [] (name ∷ pods) = ⊥
  AreAnswers (r ∷ results) [] = ⊥
  AreAnswers (r ∷ results) (name ∷ pods) = IsAnswer r name × AreAnswers results pods

  abbrev written : List (Option A) → ℕ
  written [] = 0
  written (none ∷ results) = written results
  written (some a ∷ results) = suc (written results)

  spawned-AreAnswers : (pods : List Text) → AreAnswers (map (λ name. none) pods) pods
  spawned-AreAnswers [] = tt
  spawned-AreAnswers (name ∷ pods) = (tt, spawned-AreAnswers pods)

  written-spawned : (pods : List Text) → written (map (λ name. none) pods) ≡ 0
  written-spawned [] = refl
  written-spawned (name ∷ pods) = written-spawned pods

  set-AreAnswers :
      (results : List (Option A)) (pods : List Text) (i : ℕ) (name : Text)
      → get_elem? pods i ≡ some name
      → AreAnswers results pods
      → AreAnswers (set results i (some (ask name))) pods
  set-AreAnswers [] pods i name e h = h
  set-AreAnswers (r ∷ results) [] i name e h = absurd h
  set-AreAnswers (r ∷ results) (p ∷ pods) zero name e (a, h) = (ground arith, h)
  set-AreAnswers (r ∷ results) (p ∷ pods) (suc i) name e (a, h) =
      (a, set-AreAnswers results pods i name e h)

  written-set :
      (results : List (Option A)) (i : ℕ) (a : A)
      → get_elem? results i ≡ some none
      → written (set results i (some a)) ≡ suc (written results)
  written-set [] i a e = absurd (ground arith)
  written-set (r ∷ results) zero a e = ground arith
  written-set (none ∷ results) (suc i) a e = written-set results i a e
  written-set (some b ∷ results) (suc i) a e = ap suc (written-set results i a e)

  -- A round writes as often as goroutines end.
  Round-AreAnswers :
      {pods : List Text} {n : ℕ} {results : List (Option A)}
      → Round ask pods n results
      → AreAnswers results pods × (written results ≡ n)
  Round-AreAnswers {pods} spawned = (spawned-AreAnswers pods, written-spawned pods)
  Round-AreAnswers {pods} (answered {n} {results} i name round open_place e) =
      let (answers, count) = Round-AreAnswers round in
      (
        set-AreAnswers results pods i name e answers,
        written-set results i (ask name) open_place ∙ ap suc count,
      )

  -- All places are written, with the answers in the order of the names; or there is one left.
  finished_or_open :
      (results : List (Option A)) (pods : List Text)
      → AreAnswers results pods
      → ((results ≡ map (λ name. some (ask name)) pods) × (written results ≡ length pods))
        ⊎ ((i : ℕ) × (name : Text) × (get_elem? results i ≡ some none)
            × (get_elem? pods i ≡ some name))
  finished_or_open [] [] h = inl (refl, refl)
  finished_or_open [] (name ∷ pods) h = absurd h
  finished_or_open (r ∷ results) [] h = absurd h
  finished_or_open (none ∷ results) (name ∷ pods) (a, h) = inr (0, name, refl, refl)
  finished_or_open (some b ∷ results) (name ∷ pods) (a, h) =
      elim (finished_or_open results pods h) [
        | inl (all, count) ↦ inl (ap₂ (λ x y. some x ∷ y) a all, ap suc count)
        | inr (i, p, unset, e) ↦ inr (suc i, p, unset, e)
      ]

some-map :
    {A : Type 0} (ask : Text → A) (pods : List Text)
    → map (λ name. some (ask name)) pods ≡ map some (map ask pods)
some-map ask [] = refl
some-map ask (name ∷ pods) = ap (λ l. some (ask name) ∷ l) (some-map ask pods)

-- The message carries the results, all of them written.
abbrev pub Carries : Msg → List (Option (Result ApiError PodInfo)) → Type 0
Carries (refresh_done answers) results = results ≡ map some answers
Carries msg results = ⊥

module _ (cluster : Cluster) (client : BoxClient) (pods : List Text) where
  abbrev pub ask : Text → Result ApiError PodInfo
  ask = get_pod cluster client

  -- In whatever order the goroutines of a refresh end: either one is still to end, or each has ended once, and the results are those that the refresh sends, in the order of the names.
  pub run_refresh-Round :
      {n : ℕ} {results : List (Option (Result ApiError PodInfo))}
      → Round ask pods n results
      → ((n ≡ length pods) × Carries (run_refresh cluster client pods) results)
        ⊎ ((later : List (Option (Result ApiError PodInfo))) × Round ask pods (suc n) later)
  unfolding run_refresh
  run_refresh-Round {n} {results} round =
      let (answers, count) = Round-AreAnswers ask round in
      elim (finished_or_open ask results pods answers) [
        | inl (all, full) ↦ inl (sym count ∙ full, all ∙ some-map ask pods)
        | inr (i, name, unset, e) ↦ inr (_, answered i name round unset e)
      ]
