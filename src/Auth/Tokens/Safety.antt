-- ===== src/Auth/Tokens/Safety.antt =====
-- Runs of the refresh-token service (refresh_token_service.py): what stays true of the table.
use codelab_ai_service.Prelude.{
  All, Bool, List, Option, String, arith, false, keep, map, none, not, refl, some, str_eq, true, ℕ,
  ◌&&◌, ◌++◌, ◌∷◌, ◌≡◌, ◌≢◌, ◌⊎◌, [],
}
use codelab_ai_service.Auth.Tokens.{
  cleanup, save, valid, validate, withdraw, Call, revoke_in_chain, Table, apply,
  validate_refresh_token, RefreshToken, run, judge, revoke_token, revoke_if, get_by_jti, has_jti,
  new_row, is_stale,
}
use codelab_ai_service.Auth.Tokens.Unique.{
  IsUnique, append-IsUnique, map-IsUnique, find-passes, keep-IsUnique,
}
use codelab_ai_service.Auth.Tokens.Revocation.{fails_of_keep}

module _ (hash : String → String) where
  hash-revoke_in_chain :
      (now : ℕ) (token t : RefreshToken) → (revoke_in_chain now token t).jti_hash ≡ t.jti_hash
  unfolding revoke_in_chain
  hash-revoke_in_chain now token t = ground arith

  hash-revoke_if :
      (now : ℕ) (jti : String) (t : RefreshToken) → (revoke_if hash now jti t).jti_hash ≡ t.jti_hash
  hash-revoke_if now jti t = ground arith

  judge-IsUnique :
      (now : ℕ) (found : Option RefreshToken) (db : Table)
      → IsUnique db
      → IsUnique (judge hash now found db).1
  unfolding judge
  judge-IsUnique now none db u = u
  judge-IsUnique now (some t) db u =
      ground (arith, map-IsUnique (revoke_in_chain now t) db (hash-revoke_in_chain now t) u)

  apply-IsUnique : (call : Call) (db : Table) → IsUnique db → IsUnique (apply hash call db)
  unfolding apply get_by_jti
  apply-IsUnique (save now payload parent) db u =
      ground (arith, append-IsUnique (new_row hash now payload parent) db)
  apply-IsUnique (validate now jti) db u = judge-IsUnique now (get_by_jti hash jti db) db u
  apply-IsUnique (withdraw now jti) db u =
      ground (arith, map-IsUnique (revoke_if hash now jti) db (hash-revoke_if now jti) u)
  apply-IsUnique (cleanup now days) db u = keep-IsUnique (λ t. not (is_stale now days t)) db u

  -- From a table in which no two rows share a hash, no sequence of calls leads to one in which two do.
  pub run-IsUnique : (calls : List Call) (db : Table) → IsUnique db → IsUnique (run hash calls db)
  unfolding run
  run-IsUnique [] db u = u
  run-IsUnique (call ∷ calls) db u =
      run-IsUnique calls (apply hash call db) (apply-IsUnique call db u)

  -- The rows of a token identifier that have not been revoked.
  abbrev pub usable : String → Table → Table
  usable jti = keep (λ t. has_jti hash jti t && not t.revoked)

  usable-map :
      (jti : String) (f : RefreshToken → RefreshToken) (db : Table)
      → ((t : RefreshToken) → (f t).jti_hash ≡ t.jti_hash)
      → ((t : RefreshToken) → ((f t).revoked ≡ t.revoked) ⊎ ((f t).revoked ≡ true))
      → usable jti db ≡ []
      → usable jti (map f db) ≡ []
  usable-map jti f [] same grows h = refl
  usable-map jti f (t ∷ db) same grows h =
      ground (arith, same t, grows t, usable-map jti f db same grows)

  grows-revoke_in_chain :
      (now : ℕ) (token t : RefreshToken)
      → ((revoke_in_chain now token t).revoked ≡ t.revoked)
        ⊎ ((revoke_in_chain now token t).revoked ≡ true)
  unfolding revoke_in_chain
  grows-revoke_in_chain now token t = ground arith

  grows-revoke_if :
      (now : ℕ) (jti : String) (t : RefreshToken)
      → ((revoke_if hash now jti t).revoked ≡ t.revoked)
        ⊎ ((revoke_if hash now jti t).revoked ≡ true)
  grows-revoke_if now jti t = ground arith

  usable-keep :
      (jti : String) (q : RefreshToken → Bool) (db : Table)
      → usable jti db ≡ []
      → usable jti (keep q db) ≡ []
  usable-keep jti q [] h = refl
  usable-keep jti q (t ∷ db) h = ground (arith, usable-keep jti q db)

  usable-append_one :
      (jti : String) (r : RefreshToken) (db : Table)
      → has_jti hash jti r ≡ false
      → usable jti db ≡ []
      → usable jti (db ++ r ∷ []) ≡ []
  usable-append_one jti r [] other h = ground arith
  usable-append_one jti r (t ∷ db) other h = ground (arith, usable-append_one jti r db)

  -- A call saves no token under the identifier.
  abbrev pub Spares : String → Call → Type 0
  Spares jti (save now payload parent) = str_eq (hash payload.jti) (hash jti) ≡ false
  Spares jti (validate now j) = Unit
  Spares jti (withdraw now j) = Unit
  Spares jti (cleanup now days) = Unit

  judge-usable :
      (jti : String) (now : ℕ) (found : Option RefreshToken) (db : Table)
      → usable jti db ≡ []
      → usable jti (judge hash now found db).1 ≡ []
  unfolding judge
  judge-usable jti now none db h = h
  judge-usable jti now (some t) db h = ground (
    arith,
    usable-map jti (revoke_in_chain now t) db (hash-revoke_in_chain now t)
        (grows-revoke_in_chain now t) h,
  )

  apply-usable :
      (jti : String) (call : Call) (db : Table)
      → Spares jti call
      → usable jti db ≡ []
      → usable jti (apply hash call db) ≡ []
  unfolding apply get_by_jti
  apply-usable jti (save now payload parent) db sp h =
      ground (arith, usable-append_one jti (new_row hash now payload parent) db)
  apply-usable jti (validate now j) db sp h = judge-usable jti now (get_by_jti hash j db) db h
  apply-usable jti (withdraw now j) db sp h = ground (
    arith,
    usable-map jti (revoke_if hash now j) db (hash-revoke_if now j) (grows-revoke_if now j) h,
  )
  apply-usable jti (cleanup now days) db sp h =
      usable-keep jti (λ t. not (is_stale now days t)) db h

  run-usable :
      (jti : String) (calls : List Call) (db : Table)
      → All (Spares jti) calls
      → usable jti db ≡ []
      → usable jti (run hash calls db) ≡ []
  unfolding run
  run-usable jti [] db sp h = h
  run-usable jti (call ∷ calls) db sp h =
      run-usable jti calls (apply hash call db) sp.1 (apply-usable jti call db sp.0 h)

  usable-revoke_token :
      (jti : String) (now : ℕ) (db : Table) → usable jti (map (revoke_if hash now jti) db) ≡ []
  usable-revoke_token jti now [] = refl
  usable-revoke_token jti now (t ∷ db) = ground (arith, usable-revoke_token jti now db)

  not_valid_of_usable :
      (jti : String) (now : ℕ) (found : Option RefreshToken) (db : Table)
      → get_by_jti hash jti db ≡ found
      → usable jti db ≡ []
      → (judge hash now found db).0 ≢ valid
  unfolding judge get_by_jti
  not_valid_of_usable jti now none db e h v = cc
  not_valid_of_usable jti now (some t) db e h v = ground (
    arith,
    fails_of_keep (λ t. has_jti hash jti t && not t.revoked) (has_jti hash jti) t db h e,
    find-passes (has_jti hash jti) t db e,
  )

  pub revoke_token-usable :
      (jti : String) (now : ℕ) (db : Table)
      → (revoke_token hash now jti db).0 ≡ true
      → usable jti (revoke_token hash now jti db).1 ≡ []
  unfolding revoke_token
  revoke_token-usable jti now db done = ground (arith, usable-revoke_token jti now db)

  -- Once a refresh token has been revoked, no sequence of calls that saves no token under its hash
  -- makes it valid again.
  pub revoked_for_good :
      (jti : String) (now : ℕ) (calls : List Call) (later : ℕ) (db : Table)
      → All (Spares jti) calls
      → (revoke_token hash now jti db).0 ≡ true
      → (validate_refresh_token hash later jti (run hash calls (revoke_token hash now jti db).1)).0
        ≢ valid
  unfolding validate_refresh_token revoke_token
  revoked_for_good jti now calls later db sp done =
      let after = (revoke_token hash now jti db).1 in
      let end = run hash calls after in
      not_valid_of_usable jti later (get_by_jti hash jti end) end refl
        (run-usable jti calls after sp (revoke_token-usable jti now db done))
