-- ===== src/Auth/Tokens/Revocation.antt =====
-- What revocation does to the live tokens of a user at a client (refresh_token_service.py).
use codelab_ai_service.Prelude.{
  Bool, String, arith, eq_iff, find, inl, inr, keep, map, not, refl, some, str_eq, true, ℕ, ◌&&◌,
  ◌∷◌, ◌≡◌, [], Bool-cases, List, false,
}
use codelab_ai_service.Auth.Tokens.{revoke_token_chain, RefreshToken, revoke_in_chain, Table}
use codelab_ai_service.Auth.Tokens.Unique.{Only}

abbrev pub in_family : String → String → RefreshToken → Bool
in_family user client t = str_eq t.user_id user && str_eq t.client_id client

-- The tokens of the user at the client that have not been revoked.
abbrev pub live : String → String → Table → Table
live user client = keep (λ t. in_family user client t && not t.revoked)

-- The tokens of everybody else.
abbrev pub others : String → String → Table → Table
others user client = keep (λ t. not (in_family user client t))

live-revoke_in_chain :
    (now : ℕ) (token : RefreshToken) (db : Table)
    → live token.user_id token.client_id (map (revoke_in_chain now token) db) ≡ []
unfolding revoke_in_chain
live-revoke_in_chain now token [] = refl
live-revoke_in_chain now token (t ∷ db) = ground (arith, live-revoke_in_chain now token db)

pub live-revoke_token_chain :
    (now : ℕ) (token : RefreshToken) (db : Table)
    → live token.user_id token.client_id (revoke_token_chain now token db) ≡ []
unfolding revoke_token_chain
live-revoke_token_chain now token db = live-revoke_in_chain now token db

others-revoke_in_chain :
    (now : ℕ) (token : RefreshToken) (db : Table)
    → Only token db
    → others token.user_id token.client_id (map (revoke_in_chain now token) db)
      ≡ others token.user_id token.client_id db
unfolding revoke_in_chain
others-revoke_in_chain now token [] o = refl
others-revoke_in_chain now token (t ∷ db) (inl other, o) =
    ground (arith, others-revoke_in_chain now token db o)
others-revoke_in_chain now token (t ∷ db) (inr same, o) = ground (
  arith,
  others-revoke_in_chain now token db o,
  eq_iff token.user_id token.user_id,
  eq_iff token.client_id token.client_id,
)

pub others-revoke_token_chain :
    (now : ℕ) (token : RefreshToken) (db : Table)
    → Only token db
    → others token.user_id token.client_id (revoke_token_chain now token db)
      ≡ others token.user_id token.client_id db
unfolding revoke_token_chain
others-revoke_token_chain now token db o = others-revoke_in_chain now token db o

-- What was found fails every test that no element passes.
pub fails_of_keep {ℓ} :
    {A : Type ℓ} (q p : A → Bool) (x : A) (xs : List A)
    → keep q xs ≡ []
    → find p xs ≡ some x
    → q x ≡ false
fails_of_keep q p x [] none_pass e = cc
fails_of_keep q p x (y ∷ ys) none_pass e = elim (Bool-cases (q y)) [
  | inl passes ↦ cc (rw passes at none_pass)
  | inr fails ↦ elim (Bool-cases (p y)) [
    | inl here ↦ let eq : y ≡ x = cc (rw here at e) in rw (← eq) fails
    | inr there ↦ fails_of_keep q p x ys (rw fails at none_pass) (rw there at e)
  ]
]

-- A token of a family without live tokens has been revoked.
pub revoked_of_not_live :
    (p : RefreshToken → Bool) (user client : String) (t : RefreshToken) (db : Table)
    → live user client db ≡ []
    → find p db ≡ some t
    → in_family user client t ≡ true
    → t.revoked ≡ true
revoked_of_not_live p user client t db dead e fam =
    let fails = fails_of_keep (λ x. in_family user client x && not x.revoked) p t db dead e in
    ground arith
