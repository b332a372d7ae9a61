-- ===== src/Config/Access/Held.antt =====
-- What the server relies on of the retries and of the API, and what a write leaves in the cluster.
use dev_box.Common.{Bool, ◌≡◌, Option, some, Text, Result, ok, err, arith}
use dev_box.Config.Storage.{ObjectApi, ApiError}
use dev_box.Config.Storage.Retained.{Tells}
use dev_box.Config.Access.{AccessError, Action, Retry, done}

-- What the server relies on of the retries: a success is that of an attempt.
abbrev pub Attempts : {S : Type 0} → Retry S → Type 0
Attempts {S} retry =
    (p : AccessError → Bool) (m : Action S) (s s' : S)
    → retry p m s ≡ (ok tt, s')
    → (t : S) × (m t ≡ (ok tt, s'))

-- What it relies on of the API: an object is stored under its name, and a call that writes one
-- answers with what it was given.
pub record Echoes {S O A : Type 0} (api : ObjectApi S O) (name : O → Text) (content : O → A)
    (stored : S → Text → Text → Option O) : Type 0 where
  pub named : (namespace n : Text) (s : S) (o : O) → stored s namespace n ≡ some o → name o ≡ n
  pub create-same :
      (namespace : Text) (given : O) (s : S) (o : O) (s' : S)
      → api.create namespace given s ≡ (ok o, s')
      → content o ≡ content given
  pub update-same :
      (namespace : Text) (given : O) (s : S) (o : O) (s' : S)
      → api.update namespace given s ≡ (ok o, s')
      → content o ≡ content given

module _ {S O A : Type 0} (api : ObjectApi S O) (name : O → Text) (content : O → A)
    (stored : S → Text → Text → Option O) (tells : Tells api name stored)
    (echoes : Echoes api name content stored) (namespace : Text) where
  -- An object is stored with the content.
  abbrev pub Holds : Text → A → S → Type 0
  Holds n c s = (o : O) × (stored s namespace n ≡ some o) × (content o ≡ c)

  pub created :
      (given : O) (s : S) (r : Result ApiError O) (t s' : S)
      → api.create namespace given s ≡ (r, t)
      → done (r, t) ≡ (ok tt, s')
      → Holds (name given) (content given) s'
  created given s (err e) t s' c h = absurd (ground arith)
  created given s (ok r) t s' c h =
      let same : t ≡ s' = ground arith in
      rw (← same)
        (r, tells.create-ok namespace given s r t c, echoes.create-same namespace given s r t c)

  pub updated :
      (given : O) (s : S) (r : Result ApiError O) (t s' : S)
      → api.update namespace given s ≡ (r, t)
      → done (r, t) ≡ (ok tt, s')
      → Holds (name given) (content given) s'
  updated given s (err e) t s' c h = absurd (ground arith)
  updated given s (ok r) t s' c h =
      let same : t ≡ s' = ground arith in
      rw (← same)
        (r, tells.update-ok namespace given s r t c, echoes.update-same namespace given s r t c)

  -- What is got is stored under its name.
  pub got : (n : Text) (s : S) (o : O) (s' : S) → api.get namespace n s ≡ (ok o, s') → name o ≡ n
  got n s o s' g = echoes.named namespace n s' o (tells.get-ok namespace n s o s' g)
