-- ===== src/Auth/Endpoint/Rotation.antt =====
-- The rotation of refresh tokens by the token endpoint (oauth.py): what an exchange leaves, and what
-- the second use of an exchanged token does.
use mathlib.Core.Path.{subst, subst₂}
use codelab_ai_service.Auth.Claims.{validate_refresh_token, Settings, payload}
use codelab_ai_service.Prelude.{
  String, ap, false, get_or, none, refl, some, ℕ, ◌++◌, ◌∷◌, ◌≡◌, ◌≤◌, [], sym,
}
use codelab_ai_service.Auth.Endpoint.{
  claimed, issued, stopped, handle_refresh_grant, after_begin, store_new, Begun, World,
  begin_refresh,
}
use codelab_ai_service.Auth.Crypto.{Crypto, Claims}
use codelab_ai_service.Auth.Lockout.{Redis}
use codelab_ai_service.Auth.Grants.{
  TokenRequest, Db, TokenResponse, Granted, authenticate_refresh_grant,
}
use codelab_ai_service.Auth.Tokens.{Table, get_by_jti, revoke_token, new_row, RefreshToken}
use codelab_ai_service.Auth.Endpoint.Refresh.{
  finish_refresh-issued, store_new-some, begin_refresh-claimed,
}
use codelab_ai_service.Auth.Tokens.Unique.{IsUnique}
use codelab_ai_service.Auth.Tokens.Validation.{Validates, validate_refresh_token-Validates}
use codelab_ai_service.Auth.Endpoint.Identity.{refresh-same_owner}

-- The table after the exchange of the token of `c` for that of `n`.
abbrev pub Rotated : (String → String) → ℕ → Claims → Claims → Table → Table → Type 0
Rotated hash now c n db db' =
    (get_by_jti hash n.jti (revoke_token hash now c.jti db).1 ≡ none)
    × (db' ≡ (revoke_token hash now c.jti db).1 ++ new_row hash now (payload n) (some c.jti) ∷ [])

module _ (x : Crypto) (r : Redis) (settings : Settings) where
  store_new-Rotated :
      (now : ℕ) (token : String) (c : Claims) (db db' : Db)
      → store_new x r settings now token
          (some c.jti)
          (record db { tokens = (revoke_token x.hash_token_jti now c.jti db.tokens).1 })
        ≡ some db'
      → (n : Claims) × (validate_refresh_token x settings now token ≡ some n)
        × Rotated x.hash_token_jti now c n db.tokens db'.tokens
  store_new-Rotated now token c db db' h =
      let revoked : Db = record db {
        tokens = (revoke_token x.hash_token_jti now c.jti db.tokens).1;
      } in
      let (n, read, fresh, made) =
        store_new-some x r settings now token (some c.jti) revoked db' h in
      (n, read, (fresh, ap (λ (d : Db). d.tokens) made))

  after_begin-issued :
      (now : ℕ) (uuids : String × String) (ip : String) (q : TokenRequest) (begun : Begun × Db)
      (w w' : World r) (t : TokenResponse)
      → after_begin x r settings now uuids ip q begun w ≡ (issued t, w')
      → (c : Claims) × (begun ≡ (claimed c, begun.1))
        × (db : Db) × (store_new x r settings now t.refresh_token (some c.jti) (record begun.1 {
          tokens = (revoke_token x.hash_token_jti now c.jti begun.1.tokens).1;
        })
            ≡ some db)
        × (w'.db.tokens ≡ db.tokens)
        × (g : Granted) × ((authenticate_refresh_grant x settings now uuids q begun.1).0 ≡ some g)
        × (g.response ≡ t)
  unfolding after_begin
  after_begin-issued now uuids ip q (stopped code status, db) w w' t h = cc
  after_begin-issued now uuids ip q (claimed c, db) w w' t h =
      let (db', made, left, g, granted, answer) =
        finish_refresh-issued x r settings now uuids ip q c (record w { db = db }) w' t h in
      (c, refl, db', made, left, g, granted, answer)

  -- A refresh grant that issues tokens, from a table in which no two rows share a hash, has read a
  -- token that the table holds neither revoked nor expired; it has revoked it, and has added one row,
  -- the new token's, as its child, for the same user, client and scope.
  pub handle_refresh_grant-issued :
      (now : ℕ) (uuids : String × String) (ip : String) (q : TokenRequest) (w w' : World r)
      (t : TokenResponse)
      → IsUnique w.db.tokens
      → handle_refresh_grant x r settings now uuids ip q w ≡ (issued t, w')
      → (c : Claims) × (n : Claims) × (old : RefreshToken) × (validate_refresh_token x settings now
            (get_or q.token "")
          ≡ some c)
        × (validate_refresh_token x settings now t.refresh_token ≡ some n)
        × (get_by_jti x.hash_token_jti c.jti w.db.tokens ≡ some old)
        × (old.revoked ≡ false)
        × (now ≤ old.expires_at)
        × Rotated x.hash_token_jti now c n w.db.tokens w'.db.tokens
        × (n.sub ≡ c.sub)
        × (n.client_id ≡ c.client_id)
        × (n.scope ≡ c.scope)
  unfolding handle_refresh_grant
  handle_refresh_grant-issued now uuids ip q w w' t u h =
      let begun = begin_refresh x r settings now q w.db in
      let (c, claim, db, made, left, g, granted, answer) =
        after_begin-issued now uuids ip q begun w w' t h in
      let (read, checked, given) = begin_refresh-claimed x r settings now q w.db begun.1 c claim in
      let (old, found, alive, early, same) =
        subst (Validates x.hash_token_jti now c.jti w.db.tokens) checked
          (validate_refresh_token-Validates x.hash_token_jti now c.jti w.db.tokens u) in
      let (n, new, rotated) = store_new-Rotated now t.refresh_token c begun.1 db made in
      let new' =
        subst
          (λ (s : TokenResponse). validate_refresh_token x settings now s.refresh_token ≡ some n)
          (sym answer) new in
      let owner = refresh-same_owner x settings now uuids q begun.1 g c n granted read new' in
      (
        c,
        n,
        old,
        read,
        new,
        found,
        alive,
        early,
        subst₂ (λ before after. Rotated x.hash_token_jti now c n before after) same (sym left)
            rotated,
        owner.0,
        owner.1,
        owner.2,
      )
