-- ===== src/Auth/Grants.antt =====
-- auth-service/app/services/auth_service.py: the two grants. A grant works on the database, and ends
-- at the first check that fails, with `none`; what it wrote before stays.
use codelab_ai_service.Auth.Claims.{validate_refresh_token, Settings, create_token_pair}
use codelab_ai_service.Prelude.{
  Bool, List, Option, String, Text, false, get_or, if◌then◌else◌, is_truthy, none, some, str_eq,
  true, ℕ, ◌&&◌,
}
use codelab_ai_service.Auth.Accounts.{
  OauthClient, GrantType, User, password, authenticate, validate_client, validate_grant_type,
  validate_scope, refresh_token, get_by_id,
}
use codelab_ai_service.Auth.Crypto.{Crypto}
use codelab_ai_service.Auth.Tokens.{Table}

-- `TokenRequest` (schemas/oauth.py)
pub record TokenRequest : Type 0 where
  pub grant_type : GrantType
  pub client_id : String
  pub username : Option String
  pub secret : Option String
  pub token : Option String
  pub scope : Option Text

pub record TokenResponse : Type 0 where
  pub access_token : String
  pub refresh_token : String
  pub expires_in : ℕ
  pub scope : Text

-- An entry of the audit log (services/audit_service.py).
pub data AuditEntry : Type 0 where
  login_success : String → String → String → Text → AuditEntry
  login_failed : String → String → String → AuditEntry
  token_refresh : String → String → String → AuditEntry

pub record Db : Type 0 where
  pub clients : List OauthClient
  pub users : List User
  pub tokens : Table
  pub audit : List AuditEntry

pub record Granted : Type 0 where
  pub response : TokenResponse
  pub user : User
  pub client : OauthClient

abbrev pub Grant : Type 0 → Type 0
Grant A = Db → Option A × Db

infixl 5 ◌>>=◌ ◌>>◌
abbrev pub continue : {A B : Type 0} → Option A → (A → Grant B) → Grant B
continue none f db = (none, db)
continue (some a) f db = f a db

abbrev pub ◌>>=◌ : {A B : Type 0} → Grant A → (A → Grant B) → Grant B
◌>>=◌ m f db = let (a, db') = m db in continue a f db'

abbrev pub ◌>>◌ : {B : Type 0} → Grant (Unit {0}) → Grant B → Grant B
m >> k = m >>= λ _. k

-- `if not …: return None, None, None`
abbrev pub check : Bool → Grant (Unit {0})
check b db = (if b then some tt else none, db)

abbrev pub or_stop : {A : Type 0} → Option A → Grant A
or_stop a db = (a, db)

abbrev pub gets : {A : Type 0} → (Db → A) → Grant A
gets f db = (some (f db), db)

abbrev pub is_password : GrantType → Bool
is_password password = true
is_password _ = false

abbrev pub is_refresh : GrantType → Bool
is_refresh refresh_token = true
is_refresh _ = false

unfoldable pub validate_password_grant : TokenRequest → Bool
validate_password_grant q = is_password q.grant_type && is_truthy q.username && is_truthy q.secret

unfoldable pub validate_refresh_grant : TokenRequest → Bool
validate_refresh_grant q = is_refresh q.grant_type && is_truthy q.token

module _ (x : Crypto) (settings : Settings) where
  -- `user_service.authenticate`, which writes the time of the login.
  unfoldable pub log_in : ℕ → String → String → Grant User
  log_in now username secret db =
      let (user, users) = authenticate x now username secret db.users in
      (user, record db { users = users })

  -- The response for a new pair of tokens.
  abbrev pub respond : ℕ → String × String → User → OauthClient → Text → Granted
  respond now uuids user client scope =
      let pair =
        create_token_pair x settings now uuids user.id client.client_id scope
          (some client.access_token_lifetime) (some client.refresh_token_lifetime) in
      record {
        response = record {
          access_token = pair.access_token;
          refresh_token = pair.refresh_token;
          expires_in = client.access_token_lifetime;
          scope = scope;
        };
        user = user;
        client = client;
      }

  unfoldable pub authenticate_password_grant : ℕ → String × String → TokenRequest → Grant Granted
  unfolding log_in validate_password_grant
  authenticate_password_grant now uuids q = do
    check (validate_password_grant q)
    clients ← gets (λ db. db.clients)
    client ← or_stop (validate_client x q.client_id none clients)
    check (validate_grant_type client password)
    user ← log_in now (get_or q.username "") (get_or q.secret "")
    let granted = validate_scope client q.scope
    check granted.0
    or_stop (some (respond now uuids user client granted.1))

  unfoldable pub authenticate_refresh_grant : ℕ → String × String → TokenRequest → Grant Granted
  unfolding validate_refresh_grant
  authenticate_refresh_grant now uuids q = do
    check (validate_refresh_grant q)
    clients ← gets (λ db. db.clients)
    client ← or_stop (validate_client x q.client_id none clients)
    check (validate_grant_type client refresh_token)
    claims ← or_stop (validate_refresh_token x settings now (get_or q.token ""))
    check (str_eq claims.client_id q.client_id)
    users ← gets (λ db. db.users)
    user ← or_stop (get_by_id claims.sub users)
    check user.is_active
    or_stop (some (respond now uuids user client claims.scope))
