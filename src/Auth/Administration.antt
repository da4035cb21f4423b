-- ===== src/Auth/Administration.antt =====
-- The creation, change and deletion of users and clients: auth-service/app/services/user_service.py and
-- services/oauth_client_service.py. `hash_password` is an argument; the schemas have checked the data.
-- Columns that the models of Auth.Accounts leave out are left out.
mod Tests
use codelab_ai_service.Auth.Accounts.{
  User, OauthClient, GrantType, grant_name, get_by_id, get_by_username, get_by_email,
  get_by_client_id,
}
use codelab_ai_service.Prelude.{
  Bool, List, Option, String, Text, false, find, get_or, if◌then◌else◌, inl, inr, is_some,
  is_truthy, keep, map, none, not, some, str_eq, true, ℕ, ◌&&◌, ◌++◌, ◌||◌, ◌∷◌, ◌⊎◌, [],
}

-- The `ValueError` of a creation.
pub data CreateError : Type 0 where
  username_taken : String → CreateError
  email_taken : String → CreateError
  client_taken : String → CreateError

pub record UserCreate : Type 0 where
  pub username : String
  pub email : String
  pub password : String

pub record UserUpdate : Type 0 where
  pub username : Option String
  pub email : Option String
  pub password : Option String
  pub is_active : Option Bool

pub record OauthClientCreate : Type 0 where
  pub client_id : String
  pub client_secret : Option String
  pub is_confidential : Bool
  pub allowed_scopes : Text
  pub allowed_grant_types : List GrantType
  pub access_token_lifetime : ℕ
  pub refresh_token_lifetime : ℕ

-- The answer of a change: the user, nothing for an unknown identifier, or the `IntegrityError` of a
-- name or a mail address that another user has.
pub data UserUpdated : Type 0 where
  updated : User → List User → UserUpdated
  unknown : UserUpdated
  not_unique : UserUpdated

module _ (hash_password : String → String) where
  abbrev pub new_user : String → UserCreate → User
  new_user id given = record {
    id = id;
    username = given.username;
    email = given.email;
    password_hash = hash_password given.password;
    is_active = true;
    last_login_at = none;
  }

  -- With the identifier that the new row gets.
  unfoldable pub create_user : String → UserCreate → List User → (CreateError ⊎ User) × List User
  create_user id given users = elim (get_by_username given.username users) [
    | some u ↦ (inl (username_taken given.username), users)
    | none ↦ elim (get_by_email given.email users) [
      | some u ↦ (inl (email_taken given.email), users)
      | none ↦ (inr (new_user id given), users ++ new_user id given ∷ [])
    ]
  ]

  abbrev pub updated_user : UserUpdate → User → User
  updated_user given u = record u {
    username = get_or given.username u.username;
    email = get_or given.email u.email;
    password_hash = elim given.password [ none ↦ u.password_hash | some p ↦ hash_password p ];
    is_active = get_or given.is_active u.is_active;
  }

  -- Whether another row has the name or the mail address of a user.
  abbrev pub is_taken : User → List User → Bool
  is_taken u users = is_some (
      find
        (λ other.
          not (str_eq other.id u.id)
          && (str_eq other.username u.username || str_eq other.email u.email))
        users)

  abbrev pub put_user : User → List User → List User
  put_user u users = map (λ other. if str_eq other.id u.id then u else other) users

  unfoldable pub update_user : String → UserUpdate → List User → UserUpdated
  update_user user_id given users = elim (get_by_id user_id users) [
    | none ↦ unknown
    | some u ↦
        let u' = updated_user given u in
        if is_taken u' users then not_unique else updated u' (put_user u' users)
  ]

  abbrev pub new_client : OauthClientCreate → OauthClient
  new_client given = record {
    client_id = given.client_id;
    client_secret_hash =
        if is_truthy given.client_secret
        then some (hash_password (get_or given.client_secret ""))
        else none;
    is_confidential = given.is_confidential;
    allowed_scopes = given.allowed_scopes;
    allowed_grant_types = some (map grant_name given.allowed_grant_types);
    access_token_lifetime = given.access_token_lifetime;
    refresh_token_lifetime = given.refresh_token_lifetime;
    is_active = true;
  }

  unfoldable pub create_client :
      OauthClientCreate → List OauthClient → (CreateError ⊎ OauthClient) × List OauthClient
  unfolding grant_name
  create_client given clients = elim (get_by_client_id given.client_id clients) [
    | some c ↦ (inl (client_taken given.client_id), clients)
    | none ↦ (inr (new_client given), clients ++ new_client given ∷ [])
  ]

-- Whether there was such a user.
unfoldable pub delete_user : String → List User → Bool × List User
delete_user user_id users = elim (get_by_id user_id users) [
  | none ↦ (false, users)
  | some u ↦ (true, keep (λ other. not (str_eq other.id user_id)) users)
]
