-- ===== src/Auth/Tokens/Tests.antt =====
-- The table of refresh tokens on concrete rows.
use codelab_ai_service.Prelude.{
  Bool, List, String, false, none, refl, true, ◌∷◌, ◌≡◌, ◌≢◌, [], codes,
}
use codelab_ai_service.Auth.Tokens.{
  cleanup, reused, valid, validate, withdraw, Table, validate_refresh_token, revoke_token, Call,
  RefreshToken, run, get_by_jti,
}
use codelab_ai_service.Auth.Tokens.Validation.{Validates, validate_refresh_token-Validates}
use codelab_ai_service.Auth.Tokens.Unique.{IsUnique}
use codelab_ai_service.Auth.Tokens.Safety.{run-IsUnique, revoked_for_good}

-- A stand-in for SHA-256.
abbrev hash : String → String
hash jti = jti

abbrev row : String → String → Bool → RefreshToken
row jti user dead = record {
  jti_hash = jti;
  user_id = user;
  client_id = "ide";
  scope = codes "api";
  expires_at = 100;
  revoked = dead;
  revoked_at = none;
  parent_jti_hash = none;
  created_at = 1;
}

abbrev table : Table
table = row "a" "u" true ∷ row "b" "u" false ∷ row "c" "v" false ∷ []

table-IsUnique : IsUnique table
table-IsUnique = (refl, (refl, (refl, tt)))

validate_refresh_token-Validates_example :
    Validates hash 50 "a" table (validate_refresh_token hash 50 "a" table)
validate_refresh_token-Validates_example =
    validate_refresh_token-Validates hash 50 "a" table table-IsUnique

validate_reused : (validate_refresh_token hash 50 "a" table).0 ≡ reused
unfolding validate_refresh_token get_by_jti
validate_reused = refl

abbrev calls : List Call
calls = validate 50 "a" ∷ withdraw 51 "c" ∷ cleanup 52 7 ∷ []

run-IsUnique_example : IsUnique (run hash calls table)
run-IsUnique_example = run-IsUnique hash calls table table-IsUnique

revoke_b : (revoke_token hash 49 "b" table).0 ≡ true
unfolding revoke_token
revoke_b = refl

revoked_for_good_example :
    (validate_refresh_token hash 60 "b" (run hash calls (revoke_token hash 49 "b" table).1)).0
    ≢ valid
revoked_for_good_example = revoked_for_good hash "b" 49 calls 60 table (tt, (tt, (tt, tt))) revoke_b
