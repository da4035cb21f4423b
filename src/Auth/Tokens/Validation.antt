-- ===== src/Auth/Tokens/Validation.antt =====
-- `validate_refresh_token` (refresh_token_service.py), on every branch.
use codelab_ai_service.Prelude.{
  Option-cases, String, false, find, inl, inr, none, refl, some, true, ℕ, ◌<◌, ◌≡◌, ◌≤◌, [],
  Bool-cases, arith, ltb, ltb→lt,
}
use codelab_ai_service.Auth.Tokens.{
  validate_refresh_token, Table, Verdict, get_by_jti, RefreshToken, has_jti, expired, not_found,
  reused, valid, judge,
}
use codelab_ai_service.Auth.Tokens.Unique.{IsUnique, Only-find}
use codelab_ai_service.Auth.Tokens.Revocation.{
  live, others, live-revoke_token_chain, others-revoke_token_chain,
}

module _ (hash : String → String) where
  -- What a validation has found and done, by its answer.
  abbrev pub Validates : ℕ → String → Table → Verdict × Table → Type 0
  Validates now jti db (valid, db') =
      (t : RefreshToken) × (get_by_jti hash jti db ≡ some t)
      × (t.revoked ≡ false)
      × (now ≤ t.expires_at)
      × (db' ≡ db)
  Validates now jti db (not_found, db') = (get_by_jti hash jti db ≡ none) × (db' ≡ db)
  Validates now jti db (expired, db') =
      (t : RefreshToken) × (get_by_jti hash jti db ≡ some t)
      × (t.revoked ≡ false)
      × (t.expires_at < now)
      × (db' ≡ db)
  Validates now jti db (reused, db') =
      (t : RefreshToken) × (get_by_jti hash jti db ≡ some t)
      × (t.revoked ≡ true)
      × (live t.user_id t.client_id db' ≡ [])
      × (others t.user_id t.client_id db' ≡ others t.user_id t.client_id db)

  judge-Validates :
      (now : ℕ) (jti : String) (db : Table) (t : RefreshToken)
      → IsUnique db
      → get_by_jti hash jti db ≡ some t
      → Validates now jti db (judge hash now (some t) db)
  unfolding judge get_by_jti
  judge-Validates now jti db t u found = elim (Bool-cases t.revoked) [
    | inl dead ↦ rw dead (
      t,
      found,
      dead,
      live-revoke_token_chain now t db,
      others-revoke_token_chain now t db (Only-find (hash jti) t db u found),
    )
    | inr alive ↦ elim (Bool-cases (ltb t.expires_at now)) [
      | inl late ↦ rw (alive, late) (t, found, alive, ltb→lt _ _ late, refl)
      | inr early ↦ rw (alive, early) (t, found, alive, ground arith, refl)
    ]
  ]

  -- A valid answer means a row that is neither revoked nor expired, and changes nothing; nor does
  -- a missing or expired token. The reuse of a revoked token revokes every live token of its user
  -- at its client, and no token of anybody else.
  pub validate_refresh_token-Validates :
      (now : ℕ) (jti : String) (db : Table)
      → IsUnique db
      → Validates now jti db (validate_refresh_token hash now jti db)
  unfolding validate_refresh_token get_by_jti
  validate_refresh_token-Validates now jti db u = elim (Option-cases (find (has_jti hash jti) db)) [
    | inl missing ↦ rw (missing, validate_refresh_token) (missing, refl)
    | inr (t, found) ↦ rw (found, validate_refresh_token) (judge-Validates now jti db t u found)
  ]
