-- ===== src/Auth/Accounts.antt =====
-- auth-service/app/models/oauth_client.py, models/user.py, services/oauth_client_service.py and the
-- lookups and the authentication of services/user_service.py.
use codelab_ai_service.Prelude.{
  Bool, List, Option, String, Text, false, find, if◌then◌else◌, join, map, non_empty, none, not,
  some, split, str_eq, text_eq, text_lt, true, ℕ, ◌&&◌, ◌||◌, ◌∷◌, [],
}
use codelab_ai_service.Auth.Crypto.{Crypto}

-- `GrantType` (schemas/oauth.py)
pub data GrantType : Type 0 where
  password refresh_token authorization_code client_credentials : GrantType

unfoldable pub grant_name : GrantType → String
grant_name password = "password"
grant_name refresh_token = "refresh_token"
grant_name authorization_code = "authorization_code"
grant_name client_credentials = "client_credentials"

-- `allowed_grant_types` is what `json.loads` answers for the column: `none` if it is no JSON.
pub record OauthClient : Type 0 where
  pub client_id : String
  pub client_secret_hash : Option String
  pub is_confidential : Bool
  pub allowed_scopes : Text
  pub allowed_grant_types : Option (List String)
  pub access_token_lifetime : ℕ
  pub refresh_token_lifetime : ℕ
  pub is_active : Bool

pub record User : Type 0 where
  pub id : String
  pub username : String
  pub email : String
  pub password_hash : String
  pub is_active : Bool
  pub last_login_at : Option ℕ

unfoldable pub get_by_client_id : String → List OauthClient → Option OauthClient
get_by_client_id client_id clients = find (λ c. str_eq c.client_id client_id) clients

unfoldable pub get_by_id : String → List User → Option User
get_by_id user_id users = find (λ u. str_eq u.id user_id) users

unfoldable pub get_by_username : String → List User → Option User
get_by_username username users = find (λ u. str_eq u.username username) users

unfoldable pub get_by_email : String → List User → Option User
get_by_email email users = find (λ u. str_eq u.email email) users

abbrev pub mem_string : String → List String → Bool
mem_string s [] = false
mem_string s (t ∷ ts) = str_eq t s || mem_string s ts

unfoldable pub validate_grant_type : OauthClient → GrantType → Bool
unfolding grant_name
validate_grant_type client grant = elim client.allowed_grant_types [
  | none ↦ false
  | some names ↦ mem_string (grant_name grant) names
]

abbrev pub mem_word : Text → List Text → Bool
mem_word w [] = false
mem_word w (v ∷ vs) = text_eq v w || mem_word w vs

-- `sorted(set(words))`
unfoldable pub insert_word : Text → List Text → List Text
insert_word w [] = w ∷ []
insert_word w (v ∷ vs) =
    let rest = insert_word w vs in
    if text_eq v w then v ∷ vs else if text_lt w v then w ∷ v ∷ vs else v ∷ rest

unfoldable pub sorted_set : List Text → List Text
unfolding insert_word
sorted_set [] = []
sorted_set (w ∷ ws) = insert_word w (sorted_set ws)

-- Whether `requested - allowed` is empty.
unfoldable pub is_subset : List Text → List Text → Bool
is_subset [] allowed = true
is_subset (w ∷ ws) allowed = mem_word w allowed && is_subset ws allowed

-- No scope, or an empty one, asks for everything that the client may have.
unfoldable pub validate_scope : OauthClient → Option Text → Bool × Text
unfolding is_subset sorted_set
validate_scope client none = (true, client.allowed_scopes)
validate_scope client (some []) = (true, client.allowed_scopes)
validate_scope client (some (c ∷ s)) =
    let requested = split (c ∷ s) in
    if is_subset requested (split client.allowed_scopes)
    then (true, join (sorted_set requested))
    else (false, [])

-- The user that `authenticate` looks up: by name, and else by mail address.
unfoldable pub find_login : String → List User → Option User
unfolding get_by_username get_by_email
find_login username users = elim (get_by_username username users) [
  | none ↦ get_by_email username users
  | some u ↦ some u
]

-- `user.last_login_at = now`, in the table.
abbrev pub stamp_login : ℕ → User → User → User
stamp_login now user u = if str_eq u.id user.id then record u { last_login_at = some now } else u

module _ (x : Crypto) where
  -- The check of the secret of a confidential client.
  abbrev pub knows_secret : OauthClient → Option String → Bool
  knows_secret client none = false
  knows_secret client (some secret) =
      non_empty secret && x.verify_password secret client.client_secret_hash

  unfoldable pub check_client : Option String → Option OauthClient → Option OauthClient
  check_client secret none = none
  check_client secret (some client) =
      if not client.is_active
      then none
      else if client.is_confidential && not (knows_secret client secret)
      then none
      else some client

  unfoldable pub validate_client : String → Option String → List OauthClient → Option OauthClient
  unfolding check_client
  validate_client client_id secret clients =
      check_client secret (get_by_client_id client_id clients)

  unfoldable pub check_user : ℕ → String → Option User → List User → Option User × List User
  check_user now secret none users = (none, users)
  check_user now secret (some u) users =
      if not u.is_active
      then (none, users)
      else if not (x.verify_password secret (some u.password_hash))
      then (none, users)
      else (some (record u { last_login_at = some now }), map (stamp_login now u) users)

  unfoldable pub authenticate : ℕ → String → String → List User → Option User × List User
  unfolding find_login check_user
  authenticate now username secret users = check_user now secret (find_login username users) users
