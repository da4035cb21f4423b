-- ===== src/Auth/Endpoint/Replay.antt =====
-- The second use of a refresh token that was exchanged (oauth.py, refresh_token_service.py).
use mathlib.Core.Path.{subst₂}
use codelab_ai_service.Auth.Tokens
use codelab_ai_service.Auth.Claims.{validate_refresh_token, Settings, payload}
use codelab_ai_service.Prelude.{
  String, arith, some, true, ℕ, ◌≡◌, Bool, ap, eq_refl, find, get_or, if◌then◌else◌, is_truthy, map,
  none, str_eq, ◌∙◌, ◌∷◌, [], refl, ◌≢◌, eq_iff,
}
use codelab_ai_service.Auth.Tokens.{
  RefreshToken, reused, Table, get_by_jti, revoke_token_chain, revoke_token, revoke, revoke_if,
  revoke_in_chain, has_jti, new_row, same_family, valid,
}
use codelab_ai_service.Auth.Crypto.{Claims, Crypto}
use codelab_ai_service.Auth.Endpoint.Rotation.{Rotated, handle_refresh_grant-issued}
use codelab_ai_service.Auth.Endpoint.{error, handle_refresh_grant, World, begin_refresh, issued}
use codelab_ai_service.Auth.Lockout.{Redis}
use codelab_ai_service.Auth.Tokens.Unique.{find-append_one, find-passes, IsUnique}
use codelab_ai_service.Auth.Endpoint.Refresh.{find-map, find-append}
use codelab_ai_service.Auth.Grants.{TokenRequest, TokenResponse}
use codelab_ai_service.Auth.Tokens.Revocation.{live, live-revoke_token_chain}

judge-of_find :
    (hash : String → String) (now : ℕ) (jti : String) (t : RefreshToken) (db : Table)
    → get_by_jti hash jti db ≡ some t
    → t.revoked ≡ true
    → Tokens.validate_refresh_token hash now jti db ≡ (Tokens.reused, revoke_token_chain now t db)
unfolding Tokens.validate_refresh_token
judge-of_find hash now jti t db found dead = ground arith

table-revoke_token :
    (hash : String → String) (now : ℕ) (jti : String) (t : RefreshToken) (db : Table)
    → get_by_jti hash jti db ≡ some t
    → (revoke_token hash now jti db).1 ≡ map (revoke_if hash now jti) db
unfolding revoke_token
table-revoke_token hash now jti t db found = ground arith

has_jti-revoke_if :
    (hash : String → String) (now : ℕ) (jti : String) (t : RefreshToken)
    → has_jti hash jti (revoke_if hash now jti t) ≡ has_jti hash jti t
has_jti-revoke_if hash now jti t = ground arith

has_jti-revoke_in_chain :
    (hash : String → String) (now : ℕ) (jti : String) (token t : RefreshToken)
    → has_jti hash jti (revoke_in_chain now token t) ≡ has_jti hash jti t
unfolding revoke_in_chain
has_jti-revoke_in_chain hash now jti token t = ground arith

revoked_in_family :
    (now : ℕ) (token t : RefreshToken)
    → same_family token t ≡ true
    → (revoke_in_chain now token t).revoked ≡ true
unfolding revoke_in_chain
revoked_in_family now token t h = ground arith

module _ (hash : String → String) (now : ℕ) (c n : Claims) (old : RefreshToken) (db db' : Table)
    (found : get_by_jti hash c.jti db ≡ some old) (rotated : Rotated hash now c n db db') where
  -- The exchanged token is found in the table, revoked.
  found_revoked : get_by_jti hash c.jti db' ≡ some (revoke now old)
  unfolding get_by_jti
  found_revoked =
      let p : RefreshToken → Bool = has_jti hash c.jti in
      let f : RefreshToken → RefreshToken = revoke_if hash now c.jti in
      let new = new_row hash now (payload n) (some c.jti) in
      let moved = find-map p f old db (has_jti-revoke_if hash now c.jti) found in
      let kept = find-append p (f old) (map f db) (new ∷ []) moved in
      let here = find-passes p old db found in
      rw (rotated.1, table-revoke_token hash now c.jti old db found)
        (kept ∙ ap (λ b. some (if b then revoke now old else old)) here)

  -- So is the new one, once the family of the old one is revoked.
  child_revoked :
      (later : ℕ)
      → str_eq n.sub old.user_id ≡ true
      → str_eq n.client_id old.client_id ≡ true
      → (t : RefreshToken) × (get_by_jti hash n.jti (revoke_token_chain later (revoke now old) db')
          ≡ some t)
        × (t.revoked ≡ true)
  unfolding get_by_jti revoke_token_chain
  child_revoked later user client =
      let p : RefreshToken → Bool = has_jti hash n.jti in
      let f : RefreshToken → RefreshToken = revoke_in_chain later (revoke now old) in
      let new = new_row hash now (payload n) (some c.jti) in
      let there : find p db' ≡ some new = rw rotated.1 (
        find-append_one p new (revoke_token hash now c.jti db).1 rotated.0
        ∙ ap (λ b. if b then some new else none) (eq_refl (hash n.jti))) in
      (
        f new,
        find-map p f new db' (has_jti-revoke_in_chain hash later n.jti (revoke now old)) there,
        revoked_in_family later (revoke now old) new (ground arith),
      )

refused_of_reused :
    (hash : String → String) (now : ℕ) (jti : String) (t : RefreshToken) (db : Table)
    → Tokens.validate_refresh_token hash now jti db ≡ (Tokens.reused, revoke_token_chain now t db)
    → (Tokens.validate_refresh_token hash now jti db).0 ≢ Tokens.valid
refused_of_reused hash now jti t db judged v = cc

module _ (x : Crypto) (r : Redis) (settings : Settings) where
  replay_stops :
      (later : ℕ) (uuids : String × String) (ip : String) (q : TokenRequest) (c : Claims)
      (t : RefreshToken) (w : World r)
      → is_truthy q.token ≡ true
      → validate_refresh_token x settings later (get_or q.token "") ≡ some c
      → get_by_jti x.hash_token_jti c.jti w.db.tokens ≡ some t
      → t.revoked ≡ true
      → handle_refresh_grant x r settings later uuids ip q w ≡ (
        error "invalid_grant" 401,
        record w { db = record w.db { tokens = revoke_token_chain later t w.db.tokens } },
      )
  unfolding handle_refresh_grant
  replay_stops later uuids ip q c t w given read found dead =
      let judged = judge-of_find x.hash_token_jti later c.jti t w.db.tokens found dead in
      rw (given, begin_refresh) (rw (read, begin_refresh) (rw (judged, begin_refresh)))

  -- A refresh token has been exchanged for that of the claims `n`, in a table in which no two rows
  -- share a hash, and its row belonged to the user and the client that its claims `c` name. If it is then presented again, at a time at which its
  -- signature is still accepted, the answer is 401, no live token of that user at that client is
  -- left, and the token that it was exchanged for is not valid at any later time either.
  pub replay_revokes_family :
      (now later after : ℕ) (uuids uuids' : String × String) (ip ip' : String) (q : TokenRequest)
      (c n : Claims) (old : RefreshToken) (w w' : World r) (t : TokenResponse)
      → IsUnique w.db.tokens
      → handle_refresh_grant x r settings now uuids ip q w ≡ (issued t, w')
      → validate_refresh_token x settings now (get_or q.token "") ≡ some c
      → validate_refresh_token x settings now t.refresh_token ≡ some n
      → get_by_jti x.hash_token_jti c.jti w.db.tokens ≡ some old
      → old.user_id ≡ c.sub
      → old.client_id ≡ c.client_id
      → is_truthy q.token ≡ true
      → validate_refresh_token x settings later (get_or q.token "") ≡ some c
      → let (reply, w'') = handle_refresh_grant x r settings later uuids' ip' q w' in
        (reply ≡ error "invalid_grant" 401)
        × (live c.sub c.client_id w''.db.tokens ≡ [])
        × ((Tokens.validate_refresh_token x.hash_token_jti after n.jti w''.db.tokens).0
            ≢ Tokens.valid)
  replay_revokes_family now later after uuids uuids' ip ip' q c n old w w' t u done read new found
        user client given again =
      let (c', n', old', read', new', found', alive, early, rotated, sub, cid, scope) =
        handle_refresh_grant-issued x r settings now uuids ip q w w' t u done in
      let ec : c' ≡ c = cc in
      let en : n' ≡ n = cc in
      let turned : Rotated x.hash_token_jti now c n w.db.tokens w'.db.tokens =
        subst₂ (λ a b. Rotated x.hash_token_jti now a b w.db.tokens w'.db.tokens) ec en rotated in
      let dead = found_revoked x.hash_token_jti now c n old w.db.tokens w'.db.tokens found turned in
      let stop = replay_stops later uuids' ip' q c (revoke now old) w' given again dead refl in
      let (row, child, gone) =
        child_revoked x.hash_token_jti now c n old w.db.tokens w'.db.tokens found turned later
          ((eq_iff n.sub old.user_id).1 cc) ((eq_iff n.client_id old.client_id).1 cc) in
      let chained = revoke_token_chain later (revoke now old) w'.db.tokens in
      let judged = judge-of_find x.hash_token_jti after n.jti row chained child gone in
      let not_valid = refused_of_reused x.hash_token_jti after n.jti row chained judged in
      rw stop (
        refl,
        subst₂ (λ a b. live a b chained ≡ []) user client
            (live-revoke_token_chain later (revoke now old) w'.db.tokens),
        not_valid,
      )
