-- ===== src/Agent/Approvals/Policy.antt =====
-- Which requests need approval: the policy of agent-runtime/app/domain/entities/approval.py, and
-- `should_require_approval` of agent-runtime/app/domain/services/approval_management.py. A subject
-- pattern is one of the regular expressions of the policies there: literals, alternatives and `.*`.
-- The values of conditions are numbers; `none` is the `TypeError` of a comparison with another value.
use codelab_ai_service.Prelude.{
  String, Option, none, some, List, [], ◌∷◌, Bool, Text, codes, Dict, drop, false, if◌then◌else◌,
  length, not, str_eq, take, text_eq, true, ◌&&◌, ◌-◌, ◌==◌, ◌||◌,
}
use codelab_ai_service.Prelude.Int.{ℤ, pos, leb_ℤ}
use codelab_ai_service.Prelude.Json.{Json, bool, num}

pub data Pattern : Type 0 where
  literal : Text → Pattern
  anything : Pattern
  either : Pattern → Pattern → Pattern

unfoldable pub starts_with : Text → Text → Bool
starts_with [] s = true
starts_with (c ∷ p) [] = false
starts_with (c ∷ p) (d ∷ s) = c == d && starts_with p s

-- `re.match(pattern, subject)`, which asks for a match at the beginning only.
unfoldable pub match_subject : Pattern → Text → Bool
unfolding starts_with
match_subject (literal p) s = starts_with p s
match_subject anything s = true
match_subject (either p q) s = match_subject p s || match_subject q s

pub data RequestType : Type 0 where
  tool plan : RequestType

abbrev pub type_name : RequestType → String
type_name tool = "tool"
type_name plan = "plan"

pub record Rule : Type 0 where
  pub request_type : RequestType
  pub subject_pattern : Pattern
  pub conditions : List (Text × ℤ)
  pub requires_approval : Bool
  pub reason : Option String

pub record ApprovalPolicy : Type 0 where
  pub enabled : Bool
  pub rules : List Rule
  pub default_requires_approval : Bool

-- A value as a number: `True` and `False` are numbers too.
abbrev pub as_number : Json → Option ℤ
as_number (num n) = some n
as_number (bool b) = some (if b then pos 1 else pos 0)
as_number _ = none

abbrev pub find_detail : Text → Dict Json → Option Json
find_detail key [] = none
find_detail key ((k, v) ∷ details) =
    if text_eq (codes k) key then some v else find_detail key details

abbrev pub ends_with : Text → Text → Bool
ends_with suffix s = text_eq (drop (length s - length suffix) s) suffix

-- `key[:-3]`
abbrev pub stem : Text → Text
stem key = take (length key - 3) key

-- Whether the value of the detail passes a test that only numbers can take.
abbrev pub passes : (ℤ → Bool) → Option Json → Option Bool
passes p none = some false
passes p (some v) = elim (as_number v) [ some n ↦ some (p n) | none ↦ none ]

-- Whether the value of the detail is the number.
abbrev pub is_equal : ℤ → Option Json → Option Bool
is_equal n none = some false
is_equal n (some v) = elim (as_number v) [
  | some m ↦ some (leb_ℤ n m && leb_ℤ m n)
  | none ↦ some false
]

unfoldable pub check_condition : Text → ℤ → Dict Json → Option Bool
check_condition key n details =
    if ends_with (codes "_gt") key
    then passes (λ m. not (leb_ℤ m n)) (find_detail (stem key) details)
    else if ends_with (codes "_lt") key
    then passes (λ m. not (leb_ℤ n m)) (find_detail (stem key) details)
    else if ends_with (codes "_eq") key
    then is_equal n (find_detail (stem key) details)
    else some true

-- The conditions in turn, up to the first that fails or raises.
unfoldable pub check_conditions : List (Text × ℤ) → Dict Json → Option Bool
unfolding check_condition
check_conditions [] details = some true
check_conditions ((key, n) ∷ conditions) details =
    let rest = check_conditions conditions details in
    elim (check_condition key n details) [
      | none ↦ none
      | some holds ↦ if holds then rest else some false
    ]

-- Whether a rule is for the request.
unfoldable pub rule_matches : Rule → String → Text → Dict Json → Option Bool
unfolding match_subject check_conditions
rule_matches rule request_type subject details =
    if not (str_eq (type_name rule.request_type) request_type)
    then some false
    else if not (match_subject rule.subject_pattern subject)
    then some false
    else check_conditions rule.conditions details

unfoldable pub decide_by :
    List Rule → Bool → String → Text → Dict Json → Option (Bool × Option String)
unfolding rule_matches
decide_by [] default request_type subject details = some (default, none)
decide_by (rule ∷ rules) default request_type subject details =
    let rest = decide_by rules default request_type subject details in
    elim (rule_matches rule request_type subject details) [
      | none ↦ none
      | some matched ↦ if matched then some (rule.requires_approval, rule.reason) else rest
    ]

unfoldable pub should_require_approval :
    ApprovalPolicy → String → Text → Dict Json → Option (Bool × Option String)
unfolding decide_by
should_require_approval policy request_type subject details =
    if policy.enabled
    then decide_by policy.rules policy.default_requires_approval request_type subject details
    else some (false, none)

abbrev word : String → Pattern
word s = literal (codes s)

-- `ApprovalPolicy.default()`
abbrev pub rule : RequestType → Pattern → Bool → Option String → Rule
rule request_type pattern requires reason = record {
  request_type = request_type;
  subject_pattern = pattern;
  conditions = [];
  requires_approval = requires;
  reason = reason;
}

abbrev pub default_policy : ApprovalPolicy
default_policy = record {
  enabled = true;
  rules =
      rule tool (word "write_file") true (some "File modification requires approval")
      ∷ rule tool (word "execute_command") true (some "Command execution requires approval")
      ∷ rule tool
          (either (word "delete_file") (either (word "move_file") (word "create_directory"))) true
          (some "File system operation requires approval")
      ∷ rule tool (either (word "read_file") (either (word "list_files") (word "search_files")))
          false none
      ∷ rule plan anything true (some "All complex plans require approval")
      ∷ [];
  default_requires_approval = false;
}
