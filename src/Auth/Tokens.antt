-- ===== src/Auth/Tokens.antt =====
-- auth-service/app/models/refresh_token.py and services/refresh_token_service.py: the table of
-- refresh tokens and its operations. The table is the list of its rows, oldest first; a SELECT is the
-- rows that pass its WHERE. Times are microseconds; each call reads the clock once, as `now`.
pub mod Revocation
pub mod Unique
pub mod Safety
pub mod Validation
mod Tests
use codelab_ai_service.Prelude.{
  Bool, List, Option, String, false, find, if◌then◌else◌, is_some, keep, length, ltb, map,
  non_empty, none, not, some, str_eq, true, ℕ, ◌&&◌, ◌*◌, ◌++◌, ◌+◌, ◌∷◌, [], get_or, Text,
}

pub record RefreshToken : Type 0 where
  pub jti_hash : String
  pub user_id : String
  pub client_id : String
  pub scope : Text
  pub expires_at : ℕ
  pub revoked : Bool
  pub revoked_at : Option ℕ
  pub parent_jti_hash : Option String
  pub created_at : ℕ

abbrev pub Table : Type 0
Table = List RefreshToken

-- The claims of a refresh token that the service reads (`RefreshTokenPayload`); `exp` in seconds.
pub record Payload : Type 0 where
  pub sub : String
  pub client_id : String
  pub scope : Text
  pub jti : String
  pub exp : ℕ

abbrev pub second : ℕ
second = 1000000

unfoldable pub is_expired : ℕ → RefreshToken → Bool
is_expired now t = ltb t.expires_at now

unfoldable pub is_valid : ℕ → RefreshToken → Bool
unfolding is_expired
is_valid now t = not t.revoked && not (is_expired now t)

-- What `validate_refresh_token` answers: valid, or the reason why not.
pub data Verdict : Type 0 where
  valid not_found reused expired : Verdict

-- `t.revoked = True; t.revoked_at = now`
abbrev pub revoke : ℕ → RefreshToken → RefreshToken
revoke now t = record t { revoked = true; revoked_at = some now }

-- Whether a row is selected by `revoke_token_chain`: a live row of the same user and client.
abbrev pub same_family : RefreshToken → RefreshToken → Bool
same_family token t = str_eq t.user_id token.user_id && str_eq t.client_id token.client_id

-- What `revoke_token_chain` does to one row: to the token itself, and to what its query selects.
unfoldable pub revoke_in_chain : ℕ → RefreshToken → RefreshToken → RefreshToken
revoke_in_chain now token t =
    if str_eq t.jti_hash token.jti_hash
    then revoke now t
    else if same_family token t && not t.revoked
    then revoke now t
    else t

unfoldable pub revoke_token_chain : ℕ → RefreshToken → Table → Table
unfolding revoke_in_chain
revoke_token_chain now token = map (revoke_in_chain now token)

-- The hash of a token's identifier is `hash_token_jti` (SHA-256).
module _ (hash : String → String) where
  abbrev pub has_jti : String → RefreshToken → Bool
  has_jti jti t = str_eq t.jti_hash (hash jti)

  unfoldable pub get_by_jti : String → Table → Option RefreshToken
  get_by_jti jti db = find (has_jti jti) db

  abbrev pub parent_hash : Option String → Option String
  parent_hash none = none
  parent_hash (some jti) = if non_empty jti then some (hash jti) else none

  -- The row that `save_refresh_token` adds.
  abbrev pub new_row : ℕ → Payload → Option String → RefreshToken
  new_row now payload parent_jti = record {
    jti_hash = hash payload.jti;
    user_id = payload.sub;
    client_id = payload.client_id;
    scope = payload.scope;
    expires_at = payload.exp * second;
    revoked = false;
    revoked_at = none;
    parent_jti_hash = parent_hash parent_jti;
    created_at = now;
  }

  -- `none` is the integrity error of the commit: the hash of a row is unique.
  unfoldable pub save_refresh_token : ℕ → Payload → Option String → Table → Option Table
  unfolding get_by_jti
  save_refresh_token now payload parent_jti db =
      if is_some (get_by_jti payload.jti db)
      then none
      else some (db ++ new_row now payload parent_jti ∷ [])

  judge : ℕ → Option RefreshToken → Table → Verdict × Table
  unfolding revoke_token_chain is_expired
  judge now none db = (not_found, db)
  judge now (some token) db =
      if token.revoked
      then (reused, revoke_token_chain now token db)
      else if is_expired now token
      then (expired, db)
      else (valid, db)

  unfoldable pub validate_refresh_token : ℕ → String → Table → Verdict × Table
  unfolding judge
  validate_refresh_token now jti db = judge now (get_by_jti jti db) db

  -- `revoke_token` changes the row that `get_by_jti` found.
  abbrev pub revoke_if : ℕ → String → RefreshToken → RefreshToken
  revoke_if now jti t = if has_jti jti t then revoke now t else t

  unfoldable pub revoke_token : ℕ → String → Table → Bool × Table
  unfolding get_by_jti
  revoke_token now jti db =
      if is_some (get_by_jti jti db) then (true, map (revoke_if now jti) db) else (false, db)

abbrev pub day : ℕ
day = 86400 * second

-- Whether `cleanup_expired_tokens` deletes a row: `expires_at < now - days`.
abbrev pub is_stale : ℕ → ℕ → RefreshToken → Bool
is_stale now days_to_keep t = ltb (t.expires_at + days_to_keep * day) now

unfoldable pub cleanup_expired_tokens : ℕ → ℕ → Table → ℕ × Table
cleanup_expired_tokens now days_to_keep db =
    (length (keep (is_stale now days_to_keep) db), keep (λ t. not (is_stale now days_to_keep t)) db)

-- A call of one of the methods of `RefreshTokenService` that change the table.
pub data Call : Type 0 where
  save : ℕ → Payload → Option String → Call
  validate : ℕ → String → Call
  withdraw : ℕ → String → Call
  cleanup : ℕ → ℕ → Call

module _ (hash : String → String) where
  -- The table after a call; one that raises leaves it.
  unfoldable pub apply : Call → Table → Table
  unfolding save_refresh_token validate_refresh_token revoke_token cleanup_expired_tokens
  apply (save now payload parent) db = get_or (save_refresh_token hash now payload parent db) db
  apply (validate now jti) db = (validate_refresh_token hash now jti db).1
  apply (withdraw now jti) db = (revoke_token hash now jti db).1
  apply (cleanup now days) db = (cleanup_expired_tokens now days db).1

  unfoldable pub run : List Call → Table → Table
  run [] db = db
  run (call ∷ calls) db = run calls (apply call db)
