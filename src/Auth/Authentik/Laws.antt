-- ===== src/Auth/Authentik/Laws.antt =====
-- When a lookup finds a user, and when a user is in a group.
use dev_box.Common.{
  ℕ, ◌<◌, ◌≡◌, refl, ◌↔◌, true, List, [], ◌∷◌, some, Text, codes, ℤ, pos, negsuc, ok, Result-cases,
  Option-cases, inl, inr, ℕ_discrete, arith,
}
use dev_box.Auth.Authentik.{
  User, Backend, AuthentikConfig, Query, list_users, lookup_user, user_in_group, unique,
  key_attribute,
}

-- The query by which the owner of a public key is found.
abbrev key_query : Text → Query
key_query filter = (codes "attributes", filter) ∷ []

unique-eq-some :
    (backend : Backend) (cfg : AuthentikConfig) (page : ℤ × List User) (user : User)
    → unique backend cfg page ≡ some user
    → page ≡ (pos 1, user ∷ [])
unfolding unique
unique-eq-some backend cfg (pos n, user ∷ []) u h = ground arith
unique-eq-some backend cfg (pos n, []) u h = cc
unique-eq-some backend cfg (pos n, a ∷ b ∷ l) u h = cc
unique-eq-some backend cfg (negsuc n, l) u h = cc

-- The query for the users of a name that are in a group.
abbrev member_query : Text → Text → Query
member_query username group = (codes "username", username) ∷ (codes "groups_by_name", group) ∷ []

module _ (backend : Backend) (cfg : AuthentikConfig) where
  -- The API reports exactly one match for the key, and lists the user alone.
  abbrev pub IsOnlyMatch : Text → User → Type 0
  IsOnlyMatch key user =
      (filter : Text) × (backend.marshal_filter (key_attribute backend cfg) key ≡ some filter)
      × (list_users backend cfg (key_query filter) ≡ ok (pos 1, user ∷ []))

  -- The user that a lookup finds is the only match.
  pub lookup_user-IsOnlyMatch :
      (key : Text) (user : User)
      → lookup_user backend cfg key ≡ ok (some user)
      → IsOnlyMatch key user
  unfolding lookup_user
  lookup_user-IsOnlyMatch key user h =
      elim (Option-cases (backend.marshal_filter (key_attribute backend cfg) key)) [
        | inl missing ↦ absurd (ground arith)
        | inr (filter, encoded) ↦ elim (Result-cases (list_users backend cfg (key_query filter))) [
          | inr (e, failed) ↦ absurd (ground arith)
          | inl (page, listed) ↦
              let hit : unique backend cfg page ≡ some user = ground arith in
              (filter, encoded, rw (unique-eq-some backend cfg page user hit) at listed)
        ]
      ]

  pub IsOnlyMatch-lookup_user :
      (key : Text) (user : User)
      → IsOnlyMatch key user
      → lookup_user backend cfg key ≡ ok (some user)
  unfolding lookup_user unique ℕ_discrete
  IsOnlyMatch-lookup_user key user (filter, encoded, listed) =
      rw (encoded, lookup_user) (rw listed refl)

  -- The API reports a user of the name in the group, or more than one.
  abbrev pub IsMember : Text → Text → Type 0
  IsMember username group =
      (n : ℕ) × (users : List User) × (list_users backend cfg (member_query username group)
        ≡ ok (pos n, users))
      × (0 < n)

  pub user_in_group-IsMember :
      (username group : Text)
      → (user_in_group backend cfg username group ≡ ok true) ↔ IsMember username group
  unfolding user_in_group
  user_in_group-IsMember username group = (
    λ h. elim (Result-cases (list_users backend cfg (member_query username group))) [
      | inr (e, failed) ↦ absurd (ground arith)
      | inl ((negsuc n, users), listed) ↦ absurd (ground arith)
      | inl ((pos n, users), listed) ↦ (n, users, listed, ground arith)
    ],
    λ (n, users, listed, some_user). rw (listed, user_in_group) (ground arith),
  )
