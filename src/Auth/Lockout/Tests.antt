-- ===== src/Auth/Lockout/Tests.antt =====
-- The lockout of brute_force_protection.py in a server in memory.
use codelab_ai_service.Auth.Lockout.Ending.{is_locked_out-elapse}
use codelab_ai_service.Prelude.{List, arith, false, inl, refl, true, ◌∷◌, ◌≡◌, ◌≤◌, []}
use codelab_ai_service.Auth.Lockout.{username_key, is_locked_out, same_key}
use codelab_ai_service.Auth.Lockout.Memory.{Cells, memory, no_failures}
use codelab_ai_service.Auth.Lockout.Counting.{Failure, hits, fail_all, is_locked_out-fail_all}
use codelab_ai_service.Auth.Claims.{default_settings}

-- Six failures within fifty seconds.
abbrev attempts : List Failure
attempts =
    (0, "bob", "a")
    ∷ (10, "bob", "b")
    ∷ (10, "eve", "a")
    ∷ (10, "bob", "c")
    ∷ (10, "bob", "a")
    ∷ (10, "bob", "d")
    ∷ []

always_up : (s : Cells) → memory.is_up s ≡ true
always_up s = refl

bob_hits : 5 ≤ hits (username_key "bob") attempts
unfolding same_key
bob_hits = omega arith

is_locked_out-fail_all_example :
    is_locked_out memory default_settings "bob" "z"
      (fail_all memory default_settings always_up attempts no_failures)
    ≡ true
is_locked_out-fail_all_example =
    is_locked_out-fail_all memory default_settings always_up "bob" "z" attempts no_failures
      (omega arith) (omega arith) refl refl (inl bob_hits)

is_locked_out-elapse_example :
    is_locked_out memory default_settings "bob" "a"
      (memory.elapse 900 (fail_all memory default_settings always_up attempts no_failures))
    ≡ false
is_locked_out-elapse_example =
    is_locked_out-elapse memory default_settings always_up "bob" "a" attempts no_failures
      (omega arith) refl refl
