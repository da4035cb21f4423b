-- ===== src/Auth/Endpoint.antt =====
-- auth-service/app/api/v1/oauth.py: the token endpoint. A request is handled at one reading of the
-- clock, `now`; `uuids` are the identifiers of the two tokens that it may make.
mod Tests
pub mod Password
pub mod Refresh
pub mod Rotation
pub mod Identity
pub mod Replay
use codelab_ai_service.Auth.Tokens
use codelab_ai_service.Auth.Claims.{validate_refresh_token, Settings, payload}
use codelab_ai_service.Prelude.{
  Bool, Option, String, Text, get_or, if◌then◌else◌, is_truthy, non_empty, none, not, some, str_eq,
  true, ℕ, ◌&&◌, ◌++◌, ◌∷◌, [],
}
use codelab_ai_service.Auth.Lockout.{
  Redis, is_locked_out, record_failed_attempt, reset_failed_attempts,
}
use codelab_ai_service.Auth.Grants.{
  TokenResponse, login_failed, login_success, token_refresh, Db, AuditEntry, Granted, TokenRequest,
  authenticate_refresh_grant, authenticate_password_grant,
}
use codelab_ai_service.Auth.Crypto.{Crypto, Claims}
use codelab_ai_service.Auth.Accounts.{
  GrantType, authorization_code, client_credentials, password, refresh_token,
}
use codelab_ai_service.Auth.Tokens.{valid, save_refresh_token, revoke_token, Verdict, Table}

pub record World (r : Redis) : Type 0 where
  pub db : Db
  pub server : r.Server

-- `error code status`: the body's `error`, and the HTTP status.
pub data Reply : Type 0 where
  issued : TokenResponse → Reply
  error : String → ℕ → Reply

-- The form of a request.
pub record Form : Type 0 where
  pub grant_type : String
  pub client_id : String
  pub username : Option String
  pub secret : Option String
  pub token : Option String
  pub scope : Option Text

abbrev pub log_audit : AuditEntry → Db → Db
log_audit e db = record db { audit = db.audit ++ e ∷ [] }

-- How the first half of a refresh ends: with an error, or with the claims of the token.
pub data Begun : Type 0 where
  stopped : String → ℕ → Begun
  claimed : Claims → Begun

-- What the answer of the table means for the request.
check_row : Claims → Verdict × Table → Db → Begun × Db
check_row c (valid, tokens) db = (claimed c, record db { tokens = tokens })
check_row c (_, tokens) db = (stopped "invalid_grant" 401, record db { tokens = tokens })

-- `GrantType(grant_type)`; `none` is a `ValueError`.
unfoldable pub parse_grant_type : String → Option GrantType
parse_grant_type s =
    if str_eq s "password"
    then some password
    else if str_eq s "refresh_token"
    then some refresh_token
    else if str_eq s "authorization_code"
    then some authorization_code
    else if str_eq s "client_credentials"
    then some client_credentials
    else none

-- A field that is given is not empty (`min_length=1`).
abbrev pub is_filled : Option String → Bool
is_filled none = true
is_filled (some s) = non_empty s

-- Whether `TokenRequest` accepts the form; else it raises.
abbrev pub is_well_formed : Form → Bool
is_well_formed f =
    non_empty f.client_id && is_filled f.username && is_filled f.secret && is_filled f.token

abbrev pub request : GrantType → Form → TokenRequest
request grant f = record {
  grant_type = grant;
  client_id = f.client_id;
  username = f.username;
  secret = f.secret;
  token = f.token;
  scope = f.scope;
}

module _ (x : Crypto) (r : Redis) (settings : Settings) where
  -- `validate_refresh_token` of the new token, then `save_refresh_token`; `none` is a raise.
  unfoldable pub store_new : ℕ → String → Option String → Db → Option Db
  store_new now token parent db = elim (validate_refresh_token x settings now token) [
    | none ↦ none
    | some c ↦ elim (save_refresh_token x.hash_token_jti now (payload c) parent db.tokens) [
      | none ↦ none
      | some tokens ↦ some (record db { tokens = tokens })
    ]
  ]

  -- The end of a grant: what raises is answered by the `except` of `token_endpoint`.
  finish_grant : ℕ → Granted → Option String → World r → Reply × World r
  unfolding store_new
  finish_grant now g parent w = elim (store_new now g.response.refresh_token parent w.db) [
    | none ↦ (error "server_error" 400, w)
    | some db ↦ (issued g.response, record w { db = db })
  ]

  conclude_password : ℕ → String → String → String → Option Granted → World r → Reply × World r
  unfolding finish_grant
  conclude_password now ip username client_id none w = (
    error "invalid_grant" 401,
    record w {
      server = record_failed_attempt r settings username ip w.server;
      db = log_audit (login_failed username client_id ip) w.db;
    },
  )
  conclude_password now ip username client_id (some g) w =
      let entry = login_success g.user.id g.client.client_id ip g.response.scope in
      finish_grant now g none (record w {
        server = reset_failed_attempts r settings username ip w.server;
        db = log_audit entry w.db;
      })

  unfoldable pub handle_password_grant :
      ℕ → String × String → String → TokenRequest → World r → Reply × World r
  unfolding conclude_password
  handle_password_grant now uuids ip q w =
      let username = get_or q.username "" in
      if not (is_truthy q.username && is_truthy q.secret)
      then (error "invalid_request" 400, w)
      else if is_locked_out r settings username ip w.server
      then (error "invalid_grant" 429, w)
      else let (granted, db) = authenticate_password_grant x settings now uuids q w.db in
        conclude_password now ip username q.client_id granted (record w { db = db })

  -- The first half of the refresh grant: the token is read, and looked up in the table.
  unfoldable pub begin_refresh : ℕ → TokenRequest → Db → Begun × Db
  unfolding check_row
  begin_refresh now q db =
      if not (is_truthy q.token)
      then (stopped "invalid_request" 400, db)
      else elim (validate_refresh_token x settings now (get_or q.token "")) [
        | none ↦ (stopped "invalid_grant" 401, db)
        | some c ↦
            check_row c (Tokens.validate_refresh_token x.hash_token_jti now c.jti db.tokens) db
      ]

  -- The log of a refresh that issued tokens.
  after_store : String → Granted → Reply × World r → Reply × World r
  after_store ip g (issued t, w) =
      (issued t, record w { db = log_audit (token_refresh g.user.id g.client.client_id ip) w.db })
  after_store ip g (error code status, w) = (error code status, w)

  -- The second half: the old token is revoked, and the new one saved as its child.
  conclude_refresh : ℕ → String → Claims → Option Granted → World r → Reply × World r
  unfolding finish_grant after_store
  conclude_refresh now ip c none w = (error "invalid_grant" 401, w)
  conclude_refresh now ip c (some g) w =
      let (_, tokens) = revoke_token x.hash_token_jti now c.jti w.db.tokens in
      after_store ip g
        (finish_grant now g (some c.jti) (record w { db = record w.db { tokens = tokens } }))

  unfoldable pub finish_refresh :
      ℕ → String × String → String → TokenRequest → Claims → World r → Reply × World r
  unfolding conclude_refresh
  finish_refresh now uuids ip q c w =
      let (granted, db) = authenticate_refresh_grant x settings now uuids q w.db in
      conclude_refresh now ip c granted (record w { db = db })

  after_begin : ℕ → String × String → String → TokenRequest → Begun × Db → World r → Reply × World r
  unfolding finish_refresh
  after_begin now uuids ip q (stopped code status, db) w = (error code status, record w { db = db })
  after_begin now uuids ip q (claimed c, db) w =
      finish_refresh now uuids ip q c (record w { db = db })

  unfoldable pub handle_refresh_grant :
      ℕ → String × String → String → TokenRequest → World r → Reply × World r
  unfolding begin_refresh after_begin
  handle_refresh_grant now uuids ip q w = after_begin now uuids ip q (begin_refresh now q w.db) w

  route : GrantType → ℕ → String × String → String → TokenRequest → World r → Reply × World r
  unfolding handle_password_grant handle_refresh_grant
  route password now uuids ip q w = handle_password_grant now uuids ip q w
  route refresh_token now uuids ip q w = handle_refresh_grant now uuids ip q w
  route _ now uuids ip q w = (error "unsupported_grant_type" 400, w)

  unfoldable pub token_endpoint : ℕ → String × String → String → Form → World r → Reply × World r
  unfolding route parse_grant_type
  token_endpoint now uuids ip f w = elim (parse_grant_type f.grant_type) [
    | none ↦ (error "unsupported_grant_type" 400, w)
    | some grant ↦
        if is_well_formed f
        then route grant now uuids ip (request grant f) w
        else (error "server_error" 400, w)
  ]
