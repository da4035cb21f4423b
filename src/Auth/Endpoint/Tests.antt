-- ===== src/Auth/Endpoint/Tests.antt =====
-- The token endpoint (oauth.py) on a concrete world: two signed tokens, Redis in memory.
use codelab_ai_service.Auth.Tokens
use codelab_ai_service.Prelude.{
  Bool, Bool-cases, Option, String, ap, arith, codes, eq_iff, eq_of_text_eq, false, get_or,
  if◌then◌else◌, inl, inr, none, some, str_eq, sym, text_eq, true, ℕ, ◌&&◌, ◌+◌, ◌==◌, ◌≡◌, ◌⊎◌,
  refl, ◌∷◌, [], ◌≢◌, ◌≤◌,
}
use codelab_ai_service.Auth.Crypto.{Claims, TokenType, Crypto, refresh}
use codelab_ai_service.Auth.Endpoint.{issued, handle_refresh_grant, World, Reply, error}
use codelab_ai_service.Auth.Accounts.{
  OauthClient, User, refresh_token, validate_client, get_by_client_id, validate_grant_type,
  get_by_id,
}
use codelab_ai_service.Auth.Grants.{TokenRequest, TokenResponse, authenticate_refresh_grant}
use codelab_ai_service.Auth.Tokens.{
  RefreshToken, get_by_jti, new_row, valid, save_refresh_token, revoke_token,
}
use codelab_ai_service.Auth.Claims.{
  validate_refresh_token, payload, default_settings, create_token_pair,
}
use codelab_ai_service.Auth.Lockout.Memory.{memory, no_failures}
use codelab_ai_service.Auth.Tokens.Revocation.{live}
use codelab_ai_service.Auth.Endpoint.Rotation.{Rotated, handle_refresh_grant-issued}
use codelab_ai_service.Auth.Endpoint.Replay.{replay_revokes_family}
use codelab_ai_service.Auth.Endpoint.Password.{Try, wrong_guesses, wrong_guesses-le}

abbrev claims : String → ℕ → Claims
claims jti seconds = record {
  iss = "https://auth.codelab.local";
  sub = "u1";
  aud = "codelab-api";
  exp = seconds + 100;
  iat = seconds;
  nbf = seconds;
  jti = jti;
  type = refresh;
  client_id = "ide";
  scope = codes "api";
}

abbrev both_refresh : TokenType → TokenType → Bool
both_refresh refresh refresh = true
both_refresh _ _ = false

abbrev same_claims : Claims → Claims → Bool
same_claims c d =
    str_eq c.iss d.iss
    && str_eq c.sub d.sub
    && str_eq c.aud d.aud
    && c.exp == d.exp
    && c.iat == d.iat
    && c.nbf == d.nbf
    && str_eq c.jti d.jti
    && both_refresh c.type d.type
    && str_eq c.client_id d.client_id
    && text_eq c.scope d.scope

eq_of_both_refresh : (a b : TokenType) → both_refresh a b ≡ true → a ≡ b
eq_of_both_refresh a b h = ground arith

eq_of_same_claims : (c d : Claims) → same_claims c d ≡ true → c ≡ d
eq_of_same_claims c d h = ground (
  arith,
  eq_iff c.iss d.iss,
  eq_iff c.sub d.sub,
  eq_iff c.aud d.aud,
  eq_iff c.jti d.jti,
  eq_iff c.client_id d.client_id,
  eq_of_both_refresh c.type d.type,
  eq_of_text_eq c.scope d.scope,
)

abbrev first : Claims
first = claims "j0" 1

abbrev second_claims : Claims
second_claims = claims "j1" 5

-- A signature scheme that knows two tokens.
abbrev sign : Claims → String
sign c =
    if same_claims c first then "t0" else if same_claims c second_claims then "t1" else "unknown"

abbrev read : String → Option Claims
read t = if str_eq t "t0" then some first else if str_eq t "t1" then some second_claims else none

read-sign : (c : Claims) → (read (sign c) ≡ none) ⊎ (read (sign c) ≡ some c)
read-sign c = elim (Bool-cases (same_claims c first)) [
  | inl one ↦ inr (rw one (ap some (sym (eq_of_same_claims c first one))))
  | inr other ↦ elim (Bool-cases (same_claims c second_claims)) [
    | inl two ↦ inr (rw (other, two) (ap some (sym (eq_of_same_claims c second_claims two))))
    | inr neither ↦ inl (rw (other, neither))
  ]
]

abbrev crypto : Crypto
crypto = record {
  hash_token_jti = λ jti. jti;
  verify_password = λ plain stored. str_eq plain (get_or stored "");
  encode = sign;
  decode = λ audience issuer seconds t. read t;
  decode-encode = λ audience issuer seconds c. read-sign c;
}

abbrev ide : OauthClient
ide = record {
  client_id = "ide";
  client_secret_hash = none;
  is_confidential = false;
  allowed_scopes = codes "api";
  allowed_grant_types = some ("password" ∷ "refresh_token" ∷ []);
  access_token_lifetime = 900;
  refresh_token_lifetime = 100;
  is_active = true;
}

abbrev ann : User
ann = record {
  id = "u1";
  username = "ann";
  email = "ann@example.org";
  password_hash = "pw";
  is_active = true;
  last_login_at = none;
}

abbrev old_row : RefreshToken
old_row = new_row crypto.hash_token_jti 1000000 (payload first) none

abbrev world : World memory
world = record {
  db = record { clients = ide ∷ []; users = ann ∷ []; tokens = old_row ∷ []; audit = [] };
  server = no_failures;
}

abbrev refresh_request : TokenRequest
refresh_request = record {
  grant_type = refresh_token;
  client_id = "ide";
  username = none;
  secret = none;
  token = some "t0";
  scope = none;
}

abbrev exchange : Reply × World memory
exchange =
    handle_refresh_grant crypto memory default_settings 5000000 ("j9", "j1") "ip" refresh_request
      world

abbrev response : TokenResponse
response = record {
  access_token = "unknown";
  refresh_token = "t1";
  expires_in = 900;
  scope = codes "api";
}

exchange_issues : exchange.0 ≡ issued response
unfolding handle_refresh_grant get_by_jti validate_refresh_token
    codelab_ai_service.Auth.Tokens.validate_refresh_token authenticate_refresh_grant validate_client
    get_by_client_id validate_grant_type get_by_id create_token_pair text_eq save_refresh_token
    revoke_token
exchange_issues = refl

exchanged :
    handle_refresh_grant crypto memory default_settings 5000000
      ("j9", "j1")
      "ip"
      refresh_request
      world
    ≡ (issued response, exchange.1)
exchanged = ap (λ (t : Reply). (t, exchange.1)) exchange_issues

reads_first : validate_refresh_token crypto default_settings 5000000 "t0" ≡ some first
unfolding validate_refresh_token
reads_first = refl

reads_second : validate_refresh_token crypto default_settings 5000000 "t1" ≡ some second_claims
unfolding validate_refresh_token
reads_second = refl

finds_old : get_by_jti crypto.hash_token_jti "j0" world.db.tokens ≡ some old_row
unfolding get_by_jti
finds_old = refl

handle_refresh_grant-issued_example :
    (c : Claims) × (n : Claims) × (old : RefreshToken) × (validate_refresh_token crypto
        default_settings 5000000 "t0"
      ≡ some c)
    × (validate_refresh_token crypto default_settings 5000000 "t1" ≡ some n)
    × (get_by_jti crypto.hash_token_jti c.jti world.db.tokens ≡ some old)
    × (old.revoked ≡ false)
    × (5000000 ≤ old.expires_at)
    × Rotated crypto.hash_token_jti 5000000 c n world.db.tokens exchange.1.db.tokens
    × (n.sub ≡ c.sub)
    × (n.client_id ≡ c.client_id)
    × (n.scope ≡ c.scope)
handle_refresh_grant-issued_example =
    handle_refresh_grant-issued crypto memory default_settings 5000000 ("j9", "j1") "ip"
      refresh_request world exchange.1 response (refl, tt) exchanged

replay_revokes_family_example :
    let (reply, w) =
      handle_refresh_grant crypto memory default_settings 6000000
        ("j8", "j7")
        "evil"
        refresh_request
        exchange.1 in
    (reply ≡ error "invalid_grant" 401)
    × (live "u1" "ide" w.db.tokens ≡ [])
    × ((Tokens.validate_refresh_token crypto.hash_token_jti 7000000 "j1" w.db.tokens).0
        ≢ Tokens.valid)
replay_revokes_family_example =
    replay_revokes_family crypto memory default_settings 5000000 6000000 7000000 ("j9", "j1")
      ("j8", "j7") "ip" "evil" refresh_request first second_claims old_row world exchange.1 response
      (refl, tt) exchanged reads_first reads_second finds_old refl refl refl
      (unfold validate_refresh_token in refl)

abbrev wrong_try : ℕ → Try
wrong_try t = record {
  waited = 60;
  now = t;
  uuids = ("j9", "j1");
  ip = "ip";
  client_id = "ide";
  secret = some "guess";
  scope = none;
}

wrong_guesses-le_example :
    wrong_guesses crypto memory default_settings
        (λ s. refl)
        "ann"
        (wrong_try 1 ∷ wrong_try 2 ∷ wrong_try 3 ∷ [])
        world
      + 0
    ≤ 5
wrong_guesses-le_example =
    wrong_guesses-le crypto memory default_settings (λ s. refl) "ann"
      (wrong_try 1 ∷ wrong_try 2 ∷ wrong_try 3 ∷ []) world (omega arith) (omega arith) refl
      (omega arith)
