-- ===== src/Auth/Claims.antt =====
-- auth-service/app/services/token_service.py: tokens made and read. A time is in microseconds; each
-- token is made at one reading of the clock. The second argument of a call is the answer of `uuid4`.
use codelab_ai_service.Prelude.{
  Bool, Option, String, Text, false, get_or, if◌then◌else◌, none, some, true, ℕ, ◌*◌, ◌+◌, ◌/◌,
}
use codelab_ai_service.Auth.Crypto.{Claims, Crypto, access, refresh, TokenType}
use codelab_ai_service.Auth.Tokens.{Payload, second}

-- The settings that the service reads (core/config.py).
pub record Settings : Type 0 where
  pub jwt_issuer : String
  pub jwt_audience : String
  pub access_token_lifetime : ℕ
  pub refresh_token_lifetime : ℕ
  pub brute_force_threshold : ℕ
  pub brute_force_lockout_duration : ℕ

-- The defaults.
abbrev pub default_settings : Settings
default_settings = record {
  jwt_issuer = "https://auth.codelab.local";
  jwt_audience = "codelab-api";
  access_token_lifetime = 900;
  refresh_token_lifetime = 2592000;
  brute_force_threshold = 5;
  brute_force_lockout_duration = 900;
}

module _ (x : Crypto) (settings : Settings) where
  -- The body of `create_access_token` and of `create_refresh_token`.
  abbrev pub new_claims : TokenType → ℕ → String → String → String → Text → ℕ → Claims
  new_claims type now uuid user client scope lifetime = record {
    iss = settings.jwt_issuer;
    sub = user;
    aud = settings.jwt_audience;
    exp = (now + lifetime * second) / second;
    iat = now / second;
    nbf = now / second;
    jti = uuid;
    type = type;
    client_id = client;
    scope = scope;
  }

  unfoldable pub create_access_token :
      ℕ → String → String → String → Text → Option ℕ → String × Claims
  create_access_token now uuid user client scope lifetime =
      let span = get_or lifetime settings.access_token_lifetime in
      let c = new_claims access now uuid user client scope span in (x.encode c, c)

  unfoldable pub create_refresh_token :
      ℕ → String → String → String → Text → Option ℕ → String × Claims
  create_refresh_token now uuid user client scope lifetime =
      let span = get_or lifetime settings.refresh_token_lifetime in
      let c = new_claims refresh now uuid user client scope span in (x.encode c, c)

  pub record TokenPair : Type 0 where
    pub access_token : String
    pub refresh_token : String
    pub access_token_payload : Claims
    pub refresh_token_payload : Claims

  -- `uuids` are the two identifiers that `uuid4` answers.
  unfoldable pub create_token_pair :
      ℕ → String × String → String → String → Text → Option ℕ → Option ℕ → TokenPair
  unfolding create_access_token create_refresh_token
  create_token_pair now uuids user client scope access_lifetime refresh_lifetime =
      let (access_token, a) = create_access_token now uuids.0 user client scope access_lifetime in
      let (refresh_token, r) =
        create_refresh_token now uuids.1 user client scope refresh_lifetime in
      record {
        access_token = access_token;
        refresh_token = refresh_token;
        access_token_payload = a;
        refresh_token_payload = r;
      }

  -- `none` is a `JWTError`.
  unfoldable pub decode_token : ℕ → String → Option Claims
  decode_token now token = x.decode settings.jwt_audience settings.jwt_issuer (now / second) token

  abbrev pub is_access : Claims → Bool
  is_access c = elim c.type [ access ↦ true | refresh ↦ false ]

  unfoldable pub validate_access_token : ℕ → String → Option Claims
  unfolding decode_token
  validate_access_token now token = elim (decode_token now token) [
    | none ↦ none
    | some c ↦ if is_access c then some c else none
  ]

  abbrev pub if_refresh : Option Claims → Option Claims
  if_refresh none = none
  if_refresh (some c) = if is_access c then none else some c

  unfoldable pub validate_refresh_token : ℕ → String → Option Claims
  unfolding decode_token
  validate_refresh_token now token = if_refresh (decode_token now token)

-- The part of the claims that the table of refresh tokens keeps.
abbrev pub payload : Claims → Payload
payload c = record {
  sub = c.sub;
  client_id = c.client_id;
  scope = c.scope;
  jti = c.jti;
  exp = c.exp;
}
