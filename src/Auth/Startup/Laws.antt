-- ===== src/Auth/Startup/Laws.antt =====
-- What a start implies for the policy.
use dev_box.Common.{
  ◌≡◌, ap, sym, ◌∙◌, Bool, true, false, ◌≢◌, inl, inr, List, [], ◌∷◌, Option, none, some, Text,
  codes, Result, ok, err, All, text_eq, Result-cases, Option-cases, arith,
}
use dev_box.Auth.Startup.{
  StartError, templates_not_json, System, Startup, check_names, check_templates,
  allowed_templates_from_env, secret_from_env, token_from_env, configure, parse_bool,
  env_bool_default,
}

check_names-ok :
    (names : List Text) (u : Unit {0}) → check_names names ≡ ok u → All (λ name. name ≢ []) names
unfolding check_names
check_names-ok [] u h = tt
check_names-ok (name ∷ names) u h = ground (arith, check_names-ok names u)

-- The gate is off only where the variable is unset; else it is the list that is set, and no name of
-- it is empty.
abbrev pub GateFits : System → Option Text → Option (List Text) → Type 0
GateFits system none gate = gate ≡ none
GateFits system (some raw) none = ⊥
GateFits system (some raw) (some names) =
    (system.unmarshal_names raw ≡ some (some names)) × All (λ name. name ≢ []) names

-- Certificates go unchecked only on a variable that says so.
abbrev pub ClientFits : Option Text → Bool → Type 0
ClientFits set insecure =
    insecure ≡ true → (v : Text) × ((set ≡ some v) × (parse_bool v ≡ some true))

check_templates-GateFits :
    (system : System) (raw : Text) (names : Option (List Text)) (gate : Option (List Text))
    → system.unmarshal_names raw ≡ some names
    → check_templates system names ≡ ok gate
    → GateFits system (some raw) gate
unfolding check_templates
check_templates-GateFits system raw none gate read h = cc
check_templates-GateFits system raw (some names) none read h = ground arith
check_templates-GateFits system raw (some names) (some names') read h =
    elim (Result-cases (check_names names)) [
      | inl (u, fine) ↦
          let same : names ≡ names' = ground arith in
          (read ∙ ap (λ l. some (some l)) same, rw (← same) (check_names-ok names u fine))
      | inr (e, failed) ↦ absurd (ground arith)
    ]

abbrev gate_of : System → Option Text → Result StartError (Option (List Text))
gate_of system none = ok none
gate_of system (some raw) = elim (system.unmarshal_names raw) [
  | none ↦ err templates_not_json
  | some names ↦ check_templates system names
]

gate_of-GateFits :
    (system : System) (raw : Option Text) (gate : Option (List Text))
    → gate_of system raw ≡ ok gate
    → GateFits system raw gate
gate_of-GateFits system none gate h = ground arith
gate_of-GateFits system (some raw) gate h = elim (Option-cases (system.unmarshal_names raw)) [
  | inl broken ↦ absurd (ground arith)
  | inr (names, read) ↦ check_templates-GateFits system raw names gate read (ground arith)
]

module _ (system : System) where
  from_env-gate_of :
      allowed_templates_from_env system
      ≡ gate_of system (system.lookup_env (codes "AUTH_SERVER_ALLOWED_TEMPLATES"))
  unfolding allowed_templates_from_env
  from_env-gate_of = ground arith

  allowed_templates_from_env-GateFits :
      (gate : Option (List Text))
      → allowed_templates_from_env system ≡ ok gate
      → GateFits system (system.lookup_env (codes "AUTH_SERVER_ALLOWED_TEMPLATES")) gate
  allowed_templates_from_env-GateFits gate h =
      gate_of-GateFits system _ gate (sym from_env-gate_of ∙ h)

  token_from_env-ne-nil : (token : Text) → token_from_env system ≡ ok token → token ≢ []
  unfolding token_from_env
  token_from_env-ne-nil token h =
      elim (Result-cases
        (secret_from_env system (codes "AUTHENTIK_TOKEN_FILE") (codes "AUTHENTIK_TOKEN"))) [
          | inl (secret, read) ↦ ground arith
          | inr (e, failed) ↦ absurd (ground arith)
        ]

  env_bool_default-ClientFits :
      (key : Text) → ClientFits (system.lookup_env key) (env_bool_default system key false)
  unfolding env_bool_default
  env_bool_default-ClientFits key = elim (Option-cases (system.lookup_env key)) [
    | inl unset ↦ λ on. absurd (ground arith)
    | inr (v, set) ↦ elim (Option-cases (parse_bool v)) [
      | inl broken ↦ λ on. absurd (ground arith)
      | inr (b, read) ↦ λ on. (v, (set, ground arith))
    ]
  ]

  -- A server that starts has a URL and a token; its template gate is off only where AUTH_SERVER_ALLOWED_TEMPLATES is unset, and is else the list that is set, of names that are not empty; and it takes an unchecked certificate of authentik only where AUTHENTIK_INSECURE_SKIP_VERIFY reads as true.
  pub configure-policy :
      (s : Startup)
      → configure system ≡ ok s
      → (s.api.read_token ≢ [])
        × (s.api.base_url ≢ [])
        × GateFits system
            (system.lookup_env (codes "AUTH_SERVER_ALLOWED_TEMPLATES"))
            s.policy.allowed_templates
        × ClientFits
            (system.lookup_env (codes "AUTHENTIK_INSECURE_SKIP_VERIFY"))
            s.client.insecure_skip_verify
  unfolding configure
  configure-policy s h = elim (Result-cases (token_from_env system)) [
    | inr (e, failed) ↦ absurd (ground arith)
    | inl (token, given) ↦ elim (Result-cases (allowed_templates_from_env system)) [
      | inr (e, failed) ↦ absurd (ground arith)
      | inl (gate, read) ↦
          let fits = allowed_templates_from_env-GateFits gate read in
          let same : s.policy.allowed_templates ≡ gate = ground arith in
          let checked : s.client.insecure_skip_verify
              ≡ env_bool_default system (codes "AUTHENTIK_INSECURE_SKIP_VERIFY") false =
            ground arith in
          (
            ground (arith, token_from_env-ne-nil token given),
            ground arith,
            rw same fits,
            rw checked (env_bool_default-ClientFits _),
          )
    ]
  ]
