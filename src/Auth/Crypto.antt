-- ===== src/Auth/Crypto.antt =====
-- What the authorization service takes from libraries: the claims of a signed token (`jose`), the
-- hash of an identifier (`hashlib`) and the check of a password (`passlib`).
use codelab_ai_service.Prelude.{Bool, Option, String, Text, none, some, ℕ, ◌≡◌, ◌⊎◌}

-- `TokenType`
pub data TokenType : Type 0 where
  access refresh : TokenType

-- The payload of a token (schemas/token.py). Times are in seconds.
pub record Claims : Type 0 where
  pub iss : String
  pub sub : String
  pub aud : String
  pub exp : ℕ
  pub iat : ℕ
  pub nbf : ℕ
  pub jti : String
  pub type : TokenType
  pub client_id : String
  pub scope : Text

pub record Crypto : Type 0 where
  pub hash_token_jti : String → String
  -- The stored hash may be missing.
  pub verify_password : String → Option String → Bool
  pub encode : Claims → String
  -- For an audience, an issuer and a time; `none` is a `JWTError`.
  pub decode : String → String → ℕ → String → Option Claims
  -- What was signed is read back as it was, or refused: out of its time, or for another audience.
  pub decode-encode :
      (audience issuer : String) (seconds : ℕ) (c : Claims)
      → (decode audience issuer seconds (encode c) ≡ none)
        ⊎ (decode audience issuer seconds (encode c) ≡ some c)
