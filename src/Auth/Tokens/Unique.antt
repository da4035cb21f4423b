-- ===== src/Auth/Tokens/Unique.antt =====
-- The hash of a row of the refresh-token table (refresh_token.py) is unique, whatever is done to it.
use mathlib.Core.Path.{subst}
use codelab_ai_service.Prelude.{
  Bool, Bool-cases, String, false, find, inl, inr, none, some, str_eq, ◌∷◌, ◌≡◌, ◌⊎◌, [], List,
  arith, eq_iff, if◌then◌else◌, keep, map, refl, true, ◌++◌,
}
use codelab_ai_service.Auth.Tokens.{RefreshToken, Table}

abbrev pub same_hash : RefreshToken → RefreshToken → Bool
same_hash t r = str_eq r.jti_hash t.jti_hash

abbrev pub IsUnique : Table → Type 0
IsUnique [] = Unit
IsUnique (t ∷ db) = (find (same_hash t) db ≡ none) × IsUnique db

-- A row with the hash of `token` is `token`.
abbrev pub Only : RefreshToken → Table → Type 0
Only token [] = Unit
Only token (t ∷ db) = ((same_hash token t ≡ false) ⊎ (t ≡ token)) × Only token db

Only-absent : (token : RefreshToken) (db : Table) → find (same_hash token) db ≡ none → Only token db
Only-absent token [] h = tt
Only-absent token (t ∷ db) h = elim (Bool-cases (same_hash token t)) [
  | inl same ↦ cc (rw same at h)
  | inr other ↦ (inl other, Only-absent token db (rw other at h))
]

-- What `find` returns passes the test.
pub find-passes {ℓ} :
    {A : Type ℓ} (p : A → Bool) (x : A) (xs : List A) → find p xs ≡ some x → p x ≡ true
find-passes p x [] e = cc
find-passes p x (y ∷ ys) e = elim (Bool-cases (p y)) [
  | inl here ↦ let eq : y ≡ x = cc (rw here at e) in rw (← eq) here
  | inr there ↦ find-passes p x ys (rw there at e)
]

pub Only-find :
    (h : String) (token : RefreshToken) (db : Table)
    → IsUnique db
    → find (λ t. str_eq t.jti_hash h) db ≡ some token
    → Only token db
Only-find h token [] u e = tt
Only-find h token (t ∷ db) u e = elim (Bool-cases (str_eq t.jti_hash h)) [
  | inl here ↦
      let eq : t ≡ token = cc (rw here at e) in
      (inr eq, Only-absent token db (subst (λ x. find (same_hash x) db ≡ none) eq u.0))
  | inr there ↦
      let rest = rw there at e in
      let named : token.jti_hash ≡ h =
        (eq_iff token.jti_hash h).0 (find-passes (λ t. str_eq t.jti_hash h) token db rest) in
      (inl (rw named there), Only-find h token db u.1 rest)
]

-- A change of the rows that keeps their hashes, a deletion, and a new row with a new hash.
find-map :
    (f : RefreshToken → RefreshToken) (h : String) (db : Table)
    → ((t : RefreshToken) → (f t).jti_hash ≡ t.jti_hash)
    → find (λ t. str_eq t.jti_hash h) db ≡ none
    → find (λ t. str_eq t.jti_hash h) (map f db) ≡ none
find-map f h [] same e = refl
find-map f h (t ∷ db) same e = elim (Bool-cases (str_eq t.jti_hash h)) [
  | inl here ↦ cc (rw here at e)
  | inr there ↦ rw (same t, there) (find-map f h db same (rw there at e))
]

pub map-IsUnique :
    (f : RefreshToken → RefreshToken) (db : Table)
    → ((t : RefreshToken) → (f t).jti_hash ≡ t.jti_hash)
    → IsUnique db
    → IsUnique (map f db)
map-IsUnique f [] same u = tt
map-IsUnique f (t ∷ db) same u =
    (rw (same t) (find-map f t.jti_hash db same u.0), map-IsUnique f db same u.1)

find-keep : (p q : RefreshToken → Bool) (db : Table) → find p db ≡ none → find p (keep q db) ≡ none
find-keep p q [] e = refl
find-keep p q (t ∷ db) e = ground (arith, find-keep p q db)

pub keep-IsUnique : (q : RefreshToken → Bool) (db : Table) → IsUnique db → IsUnique (keep q db)
keep-IsUnique q [] u = tt
keep-IsUnique q (t ∷ db) u = ground (arith, find-keep (same_hash t) q db, keep-IsUnique q db u.1)

pub find-append_one {ℓ} :
    {A : Type ℓ} (p : A → Bool) (x : A) (xs : List A)
    → find p xs ≡ none
    → find p (xs ++ x ∷ []) ≡ (if p x then some x else none)
find-append_one p x [] e = refl
find-append_one p x (y ∷ ys) e = ground (arith, find-append_one p x ys)

pub append-IsUnique :
    (r : RefreshToken) (db : Table)
    → find (same_hash r) db ≡ none
    → IsUnique db
    → IsUnique (db ++ r ∷ [])
append-IsUnique r [] e u = (refl, tt)
append-IsUnique r (t ∷ db) e u = elim (Bool-cases (same_hash r t)) [
  | inl same ↦ cc (rw same at e)
  | inr other ↦ (
    rw (find-append_one (same_hash t) r db u.0)
        (ground (arith, eq_iff r.jti_hash t.jti_hash, eq_iff t.jti_hash r.jti_hash)),
    append-IsUnique r db (rw other at e) u.1,
  )
]
