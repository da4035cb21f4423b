-- ===== src/Auth/Endpoint/Refresh.antt =====
-- The refresh grant of oauth.py: what a successful one leaves, and what the second use of a token does.
use mathlib.Core.Path.{subst}
use codelab_ai_service.Auth.Tokens
use codelab_ai_service.Auth.Claims.{validate_refresh_token, Settings, payload}
use codelab_ai_service.Prelude.{
  Bool, Bool-cases, List, Option, String, ap, arith, find, inl, inr, map, none, some, ℕ, ◌++◌, ◌∷◌,
  ◌≡◌, [], get_or, is_truthy, true, Option-cases, ◌∙◌, refl,
}
use codelab_ai_service.Auth.Crypto.{Crypto, Claims}
use codelab_ai_service.Auth.Lockout.{Redis}
use codelab_ai_service.Auth.Endpoint.{
  store_new, issued, begin_refresh, conclude_refresh, World, error, finish_grant, after_store,
  Reply, claimed, finish_refresh,
}
use codelab_ai_service.Auth.Tokens.{save_refresh_token, get_by_jti, new_row, valid, revoke_token}
use codelab_ai_service.Auth.Grants.{
  Db, authenticate_refresh_grant, Granted, TokenRequest, TokenResponse,
}

pub find-map {ℓ} :
    {A : Type ℓ} (p : A → Bool) (f : A → A) (x : A) (xs : List A)
    → ((a : A) → p (f a) ≡ p a)
    → find p xs ≡ some x
    → find p (map f xs) ≡ some (f x)
find-map p f x [] same e = cc
find-map p f x (y ∷ ys) same e = elim (Bool-cases (p y)) [
  | inl here ↦ let eq : y ≡ x = cc (rw here at e) in rw (same y, here) (ap (λ a. some (f a)) eq)
  | inr there ↦ rw (same y, there) (find-map p f x ys same (rw there at e))
]

pub find-append {ℓ} :
    {A : Type ℓ} (p : A → Bool) (x : A) (xs ys : List A)
    → find p xs ≡ some x
    → find p (xs ++ ys) ≡ some x
find-append p x [] ys e = cc
find-append p x (y ∷ xs) ys e = ground (arith, find-append p x xs ys)

module _ (x : Crypto) (r : Redis) (settings : Settings) where
  abbrev pub hash : String → String
  hash = x.hash_token_jti

  -- What storing the new token has done, if it did not raise.
  pub store_new-some :
      (now : ℕ) (token : String) (parent : Option String) (db db' : Db)
      → store_new x r settings now token parent db ≡ some db'
      → (c : Claims) × (validate_refresh_token x settings now token ≡ some c)
        × (get_by_jti hash c.jti db.tokens ≡ none)
        × (db' ≡ record db { tokens = db.tokens ++ new_row hash now (payload c) parent ∷ [] })
  unfolding store_new save_refresh_token
  store_new-some now token parent db db' h = ground arith

  finish_grant-issued :
      (now : ℕ) (g : Granted) (parent : Option String) (w : World r) (t : TokenResponse)
      → (finish_grant x r settings now g parent w).0 ≡ issued t
      → (db : Db) × (store_new x r settings now t.refresh_token parent w.db ≡ some db)
        × ((finish_grant x r settings now g parent w).1.db ≡ db)
        × (g.response ≡ t)
  unfolding finish_grant
  finish_grant-issued now g parent w t h =
      elim (Option-cases (store_new x r settings now g.response.refresh_token parent w.db)) [
        | inl raises ↦ cc (rw (raises, finish_grant) at h)
        | inr (db, done) ↦ (db, ground arith, ground arith, ground arith)
      ]

  after_store-issued :
      (ip : String) (g : Granted) (result : Reply × World r) (t : TokenResponse) (w' : World r)
      → after_store x r settings ip g result ≡ (issued t, w')
      → (result.0 ≡ issued t) × (w'.db.tokens ≡ result.1.db.tokens)
  unfolding after_store
  after_store-issued ip g (issued s, w) t w' h = ground arith
  after_store-issued ip g (error code status, w) t w' h = ground arith

  -- What a refresh grant that issues tokens has done to the table, after the claims `c` were read.
  conclude_refresh-issued :
      (now : ℕ) (ip : String) (c : Claims) (granted : Option Granted) (w w' : World r)
      (t : TokenResponse)
      → conclude_refresh x r settings now ip c granted w ≡ (issued t, w')
      → (db : Db) × (store_new x r settings now t.refresh_token
            (some c.jti)
            (record w.db { tokens = (revoke_token hash now c.jti w.db.tokens).1 })
          ≡ some db)
        × (w'.db.tokens ≡ db.tokens)
        × (g : Granted) × (granted ≡ some g)
        × (g.response ≡ t)
  unfolding conclude_refresh
  conclude_refresh-issued now ip c none w w' t h = ground arith
  conclude_refresh-issued now ip c (some g) w w' t h =
      let revoked : World r = record w {
        db = record w.db { tokens = (revoke_token hash now c.jti w.db.tokens).1 };
      } in
      let stored =
        after_store-issued ip g (finish_grant x r settings now g (some c.jti) revoked) t w' h in
      let (db, made, left, answer) = finish_grant-issued now g (some c.jti) revoked t stored.0 in
      (db, made, stored.1 ∙ ap (λ (d : Db). d.tokens) left, g, refl, answer)

  pub tokens-grant :
      (now : ℕ) (uuids : String × String) (q : TokenRequest) (db : Db)
      → (authenticate_refresh_grant x settings now uuids q db).1 ≡ db
  unfolding authenticate_refresh_grant
  tokens-grant now uuids q db = ground arith

  -- The claims that a refresh grant goes on with.
  pub begin_refresh-claimed :
      (now : ℕ) (q : TokenRequest) (db db' : Db) (c : Claims)
      → begin_refresh x r settings now q db ≡ (claimed c, db')
      → (validate_refresh_token x settings now (get_or q.token "") ≡ some c)
        × (Tokens.validate_refresh_token hash now c.jti db.tokens ≡ (Tokens.valid, db'.tokens))
        × (is_truthy q.token ≡ true)
  unfolding begin_refresh
  begin_refresh-claimed now q db db' c h = ground arith

  pub finish_refresh-issued :
      (now : ℕ) (uuids : String × String) (ip : String) (q : TokenRequest) (c : Claims)
      (w w' : World r) (t : TokenResponse)
      → finish_refresh x r settings now uuids ip q c w ≡ (issued t, w')
      → (db : Db) × (store_new x r settings now t.refresh_token
            (some c.jti)
            (record w.db { tokens = (revoke_token hash now c.jti w.db.tokens).1 })
          ≡ some db)
        × (w'.db.tokens ≡ db.tokens)
        × (g : Granted) × ((authenticate_refresh_grant x settings now uuids q w.db).0 ≡ some g)
        × (g.response ≡ t)
  unfolding finish_refresh
  finish_refresh-issued now uuids ip q c w w' t h =
      let result = authenticate_refresh_grant x settings now uuids q w.db in
      let same : (record w { db = result.1 }) ≡ w =
        ap (λ (d : Db). record w { db = d }) (tokens-grant now uuids q w.db) in
      conclude_refresh-issued now ip c result.0 w w' t (
        subst (λ (v : World r). conclude_refresh x r settings now ip c result.0 v ≡ (issued t, w'))
          same h)
