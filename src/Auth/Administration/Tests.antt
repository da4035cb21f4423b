-- ===== src/Auth/Administration/Tests.antt =====
-- A name is taken once; a user may be named like the mail address of another.
use codelab_ai_service.Auth.Accounts.{User, find_login, get_by_username, get_by_email, password}
use codelab_ai_service.Auth.Administration.{
  UserCreate, create_user, username_taken, delete_user, new_user,
}
use codelab_ai_service.Prelude.{List, String, inl, refl, some, ◌∷◌, ◌≡◌, []}

abbrev ann : UserCreate
ann = record { username = "ann"; email = "ann@x.org"; password = "secret12" }

abbrev mimic : UserCreate
mimic = record { username = "ann@x.org"; email = "eve@x.org"; password = "secret34" }

abbrev hash : String → String
hash p = "hashed"

abbrev first : List User
first = new_user hash "1" ann ∷ []

taken : create_user hash "2" ann first ≡ (inl (username_taken "ann"), first)
unfolding create_user get_by_username
taken = refl

-- The login by the mail address is then that of the other user.
mimicked :
    find_login "ann@x.org" (create_user hash "2" mimic first).1 ≡ some (new_user hash "2" mimic)
unfolding create_user find_login get_by_username get_by_email
mimicked = refl

deleted : (delete_user "1" first).1 ≡ []
unfolding delete_user codelab_ai_service.Auth.Accounts.get_by_id
deleted = refl
