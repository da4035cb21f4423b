-- ===== src/Auth/Endpoint/Identity.antt =====
-- Whose the tokens of a refresh grant are (auth_service.py, token_service.py).
use mathlib.Core.Path.{subst}
use codelab_ai_service.Auth.Claims.{validate_refresh_token, Settings, create_token_pair, new_claims}
use codelab_ai_service.Prelude.{
  Option-cases, String, get_or, inl, inr, none, some, true, ℕ, ◌≡◌, arith, eq_iff, Text, ◌/◌, List,
  Option, str_eq,
}
use codelab_ai_service.Auth.Crypto.{Crypto, Claims, refresh}
use codelab_ai_service.Auth.Grants.{authenticate_refresh_grant, TokenRequest, Db, Granted, respond}
use codelab_ai_service.Auth.Accounts.{
  OauthClient, refresh_token, User, validate_client, validate_grant_type, get_by_id, check_client,
  get_by_client_id,
}
use codelab_ai_service.Auth.Tokens.{second}
use codelab_ai_service.Auth.Tokens.Unique.{find-passes}

id-get_by_id :
    (id : String) (u : User) (users : List User) → get_by_id id users ≡ some u → u.id ≡ id
unfolding get_by_id
id-get_by_id id u users h = (eq_iff u.id id).0 (find-passes (λ v. str_eq v.id id) u users h)

client_id-get_by_client_id :
    (id : String) (c : OauthClient) (clients : List OauthClient)
    → get_by_client_id id clients ≡ some c
    → c.client_id ≡ id
unfolding get_by_client_id
client_id-get_by_client_id id c clients h =
    (eq_iff c.client_id id).0 (find-passes (λ d. str_eq d.client_id id) c clients h)

check_client-some :
    (x : Crypto) (secret : Option String) (found : Option OauthClient) (c : OauthClient)
    → check_client x secret found ≡ some c
    → found ≡ some c
unfolding check_client
check_client-some x secret none c h = cc
check_client-some x secret (some d) c h = ground arith

client_id-validate_client :
    (x : Crypto) (id : String) (secret : Option String) (c : OauthClient)
    (clients : List OauthClient)
    → validate_client x id secret clients ≡ some c
    → c.client_id ≡ id
unfolding validate_client
client_id-validate_client x id secret c clients h =
    client_id-get_by_client_id id c clients
      (check_client-some x secret (get_by_client_id id clients) c h)

module _ (x : Crypto) (settings : Settings) where
  -- What a refresh grant that succeeds has checked, and what it answers.
  pub authenticate_refresh_grant-some :
      (now : ℕ) (uuids : String × String) (q : TokenRequest) (db : Db) (g : Granted)
      → (authenticate_refresh_grant x settings now uuids q db).0 ≡ some g
      → (c : Claims) × (client : OauthClient) × (user : User) × (validate_refresh_token x settings
            now
            (get_or q.token "")
          ≡ some c)
        × (validate_client x q.client_id none db.clients ≡ some client)
        × (validate_grant_type client refresh_token ≡ true)
        × (c.client_id ≡ q.client_id)
        × (get_by_id c.sub db.users ≡ some user)
        × (user.is_active ≡ true)
        × (g ≡ respond x settings now uuids user client c.scope)
  unfolding authenticate_refresh_grant
  authenticate_refresh_grant-some now uuids q db g h =
      elim (Option-cases (validate_client x q.client_id none db.clients)) [
        | inl missing ↦ absurd (ground arith)
        | inr (client, known) ↦
            elim (Option-cases (validate_refresh_token x settings now (get_or q.token ""))) [
              | inl missing ↦ absurd (ground arith)
              | inr (c, read) ↦ elim (Option-cases (get_by_id c.sub db.users)) [
                | inl missing ↦ absurd (ground arith)
                | inr (user, found) ↦ (
                  c,
                  client,
                  user,
                  read,
                  known,
                  ground arith,
                  ground (arith, eq_iff c.client_id q.client_id),
                  found,
                  ground arith,
                  ground arith,
                )
              ]
            ]
      ]

  -- What the service reads in a token that it has made, where it accepts it.
  claims_of_own :
      (now : ℕ) (c n : Claims) → validate_refresh_token x settings now (x.encode c) ≡ some n → c ≡ n
  unfolding validate_refresh_token
  claims_of_own now c n h =
      ground (arith, x.decode-encode settings.jwt_audience settings.jwt_issuer (now / second) c)

  own_claims :
      (now later : ℕ) (uuids : String × String) (user : User) (client : OauthClient) (scope : Text)
      (n : Claims)
      → validate_refresh_token x settings later
          (respond x settings now uuids user client scope).response.refresh_token
        ≡ some n
      → (n.sub ≡ user.id) × (n.client_id ≡ client.client_id) × (n.scope ≡ scope) × (n.jti ≡ uuids.1)
  unfolding create_token_pair
  own_claims now later uuids user client scope n h =
      let made =
        new_claims x settings refresh now uuids.1 user.id client.client_id scope
          client.refresh_token_lifetime in
      let e = claims_of_own later made n h in ground arith

  -- The token of a refresh grant is for the user, the client and the scope of the token that was
  -- presented.
  pub refresh-same_owner :
      (now : ℕ) (uuids : String × String) (q : TokenRequest) (db : Db) (g : Granted) (c n : Claims)
      → (authenticate_refresh_grant x settings now uuids q db).0 ≡ some g
      → validate_refresh_token x settings now (get_or q.token "") ≡ some c
      → validate_refresh_token x settings now g.response.refresh_token ≡ some n
      → (n.sub ≡ c.sub) × (n.client_id ≡ c.client_id) × (n.scope ≡ c.scope)
  refresh-same_owner now uuids q db g c n granted read new =
      let (c', client, user, read', known, allowed, same_client, found, active, made) =
        authenticate_refresh_grant-some now uuids q db g granted in
      let new' =
        subst
          (λ (h : Granted). validate_refresh_token x settings now h.response.refresh_token ≡ some n)
          made new in
      let own = own_claims now now uuids user client c'.scope n new' in
      ground (
        arith,
        own,
        id-get_by_id c'.sub user db.users found,
        client_id-validate_client x q.client_id none client db.clients known,
      )
