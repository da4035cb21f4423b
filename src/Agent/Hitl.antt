-- ===== src/Agent/Hitl.antt =====
-- Which tools need the approval of the user: agent-runtime/app/domain/services/hitl_policy.py, over
-- agent-runtime/app/domain/entities/hitl.py. Patterns are those of `fnmatch` with `*` and `?`, on a
-- system whose file names keep their case; sets of letters in brackets are not modelled.
use codelab_ai_service.Prelude.{
  Text, Bool, List, Option, String, codes, false, if◌then◌else◌, none, not, some, true, ◌&&◌, ◌==◌,
  ◌||◌, ◌∷◌, [],
}

-- `fnmatch`: 42 is `*`, and 63 is `?`.
unfoldable pub matches_pattern : Text → Text → Bool
matches_pattern [] [] = true
matches_pattern [] (c ∷ s) = false
matches_pattern (p ∷ ps) [] = p == 42 && matches_pattern ps []
matches_pattern (p ∷ ps) (c ∷ s) =
    let here = matches_pattern ps (c ∷ s) in
    let later = matches_pattern (p ∷ ps) s in
    let next = matches_pattern ps s in
    if p == 42 then here || later else (p == 63 || p == c) && next

pub record HitlPolicyRule : Type 0 where
  pub tool_name : Text
  pub requires_approval : Bool
  pub reason : Option String

pub record HitlPolicy : Type 0 where
  pub enabled : Bool
  pub rules : List HitlPolicyRule
  pub default_requires_approval : Bool

abbrev pub first_match : Text → Bool → List HitlPolicyRule → Bool × Option String
first_match name default [] = (default, none)
first_match name default (rule ∷ rules) =
    if matches_pattern rule.tool_name name
    then (rule.requires_approval, rule.reason)
    else first_match name default rules

unfoldable pub requires_approval : HitlPolicy → Text → Bool × Option String
unfolding matches_pattern
requires_approval policy name =
    if not policy.enabled
    then (false, none)
    else first_match name policy.default_requires_approval policy.rules

abbrev pub hitl_rule : String → Bool → String → HitlPolicyRule
hitl_rule name required reason = record {
  tool_name = codes name;
  requires_approval = required;
  reason = some reason;
}

abbrev pub default_hitl_policy : HitlPolicy
default_hitl_policy = record {
  enabled = true;
  rules =
      hitl_rule "write_file" true "File modification requires user approval"
      ∷ hitl_rule "delete_file" true "File deletion requires user approval"
      ∷ hitl_rule "execute_command" true "Command execution requires user approval"
      ∷ hitl_rule "create_directory" true "Directory creation requires user approval"
      ∷ hitl_rule "move_file" true "File move requires user approval"
      ∷ hitl_rule "read_file" false "Read operations are safe"
      ∷ hitl_rule "list_files" false "List operations are safe"
      ∷ hitl_rule "search_files" false "Search operations are safe"
      ∷ [];
  default_requires_approval = false;
}

-- The setters of the service.
abbrev pub enable : HitlPolicy → HitlPolicy
enable policy = record policy { enabled = true }

abbrev pub disable : HitlPolicy → HitlPolicy
disable policy = record policy { enabled = false }

unfoldable pub update_hitl_policy : HitlPolicy → HitlPolicy → HitlPolicy
update_hitl_policy policy old = policy
