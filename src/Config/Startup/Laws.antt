-- ===== src/Config/Startup/Laws.antt =====
-- What a configuration server that starts is configured with.
use dev_box.Common.{
  true, ◌&&◌, ◌≡◌, ◌≢◌, refl, ◌⊎◌, inl, inr, ◌↔◌, [], Option, none, some, Text, codes, ℤ, pos,
  leb_ℤ, ok, text_eq, Option-cases, arith,
}
use dev_box.Strings.Decimal.{atoi}
use dev_box.Config.Persistent.{enabled}
use dev_box.Config.Startup.{System, HttpConfig, Startup, int_of, http_config, configure}

-- The cap is the number that the variable gives, and 3 where it gives none.
abbrev pub CapFits : Option Text → ℤ → Type 0
CapFits none cap = cap ≡ pos 3
CapFits (some v) cap = (atoi v ≡ some cap) ⊎ ((atoi v ≡ none) × (cap ≡ pos 3))

-- A certificate comes with its key, and clients are asked for theirs only then.
abbrev pub IsSecure : HttpConfig → Type 0
IsSecure http = (http.client_ca ≢ [] → http.key ≢ []) × ((http.cert ≡ []) ↔ (http.key ≡ []))

int_of-CapFits : (set : Option Text) → CapFits set (int_of (pos 3) set)
unfolding int_of
int_of-CapFits none = refl
int_of-CapFits (some v) = elim (Option-cases (atoi v)) [
  | inl broken ↦ rw broken (inr (refl, refl))
  | inr (n, read) ↦ rw read (inl refl)
]

module _ (system : System) where
  http_config-IsSecure : IsSecure (http_config system)
  unfolding http_config
  http_config-IsSecure = ground arith

  -- A configuration server that starts has a valid operating mode, a settings image and a client of the cluster; its cap is the number in CONTAINERSSH_MAX_PODS_PER_USER, or 3 where that is unset or no number, so that only a number turns the cap off; it lists pods exactly in persistent mode, and then warns exactly if there is no cap; it serves with a certificate exactly if it has its key, and asks for client certificates only then.
  pub configure-safe :
      (s : Startup)
      → configure system ≡ ok s
      → (system.is_mode s.handler.boxes.operating_mode ≡ true)
        × (s.handler.settings_image ≢ [])
        × (s.handler.has_client ≡ true)
        × (system.client_error ≡ none)
        × CapFits
            (system.lookup_env (codes "CONTAINERSSH_MAX_PODS_PER_USER"))
            s.handler.boxes.max_pods
        × (s.has_lister ≡ enabled s.handler.boxes)
        × (s.warns ≡ (enabled s.handler.boxes && leb_ℤ s.handler.boxes.max_pods (pos 0)))
        × IsSecure s.http
  unfolding configure
  configure-safe s h = elim (Option-cases system.client_error) [
    | inr (e, failed) ↦ absurd (ground arith)
    | inl works ↦
        let same : s.handler.boxes.max_pods
            ≡ int_of (pos 3) (system.lookup_env (codes "CONTAINERSSH_MAX_PODS_PER_USER")) =
          ground arith in
        let web : s.http ≡ http_config system = ground arith in
        (
          ground arith,
          ground arith,
          ground arith,
          works,
          rw same (int_of-CapFits _),
          ground arith,
          ground arith,
          rw web (http_config-IsSecure),
        )
  ]
