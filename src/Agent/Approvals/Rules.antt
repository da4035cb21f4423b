-- ===== src/Agent/Approvals/Rules.antt =====
-- Which rule of a policy (approval.py, approval_management.py) decides on a request.
use codelab_ai_service.Prelude.{
  String, Option, none, some, List, [], ◌∷◌, Bool, Text, codes, Dict, All, false, refl, true, ◌++◌,
  ◌||◌, ◌≡◌, arith, if◌then◌else◌, str_eq, ◌&&◌, Bool-cases, ap, inl, inr, ◌∙◌, ◌⊎◌,
}
use codelab_ai_service.Prelude.Json.{Json}
use codelab_ai_service.Agent.Approvals.Policy.{
  Rule, starts_with, should_require_approval, rule_matches, default_policy, decide_by,
  ApprovalPolicy, check_conditions, match_subject, RequestType, Pattern, rule, type_name,
}

-- No rule of the list is for the request, and no condition of one raises.
abbrev pub NoneMatches : List Rule → String → Text → Dict Json → Type 0
NoneMatches rules request_type subject details =
    All (λ rule. rule_matches rule request_type subject details ≡ some false) rules

decide_by-NoneMatches :
    (before rules : List Rule) (default : Bool) (request_type : String) (subject : Text)
    (details : Dict Json)
    → NoneMatches before request_type subject details
    → decide_by (before ++ rules) default request_type subject details
      ≡ decide_by rules default request_type subject details
unfolding decide_by
decide_by-NoneMatches [] rules default request_type subject details h = refl
decide_by-NoneMatches (rule ∷ before) rules default request_type subject details h =
    rw (h.0, decide_by)
      (decide_by-NoneMatches before rules default request_type subject details h.1)

decide_by-default :
    (rules : List Rule) (default : Bool) (request_type : String) (subject : Text)
    (details : Dict Json)
    → NoneMatches rules request_type subject details
    → decide_by rules default request_type subject details ≡ some (default, none)
unfolding decide_by
decide_by-default [] default request_type subject details h = refl
decide_by-default (rule ∷ rules) default request_type subject details h =
    rw (h.0, decide_by) (decide_by-default rules default request_type subject details h.1)

abbrev pub policy_of : Bool → List Rule → Bool → ApprovalPolicy
policy_of enabled rules default = record {
  enabled = enabled;
  rules = rules;
  default_requires_approval = default;
}

-- The rule that a list of rules has for a request: the first that is for it, after rules that are not,
-- or none of them.
abbrev pub Selects : List Rule → String → Text → Dict Json → Option Rule → Type 0
Selects rules request_type subject details none = NoneMatches rules request_type subject details
Selects rules request_type subject details (some rule) =
    (before : List Rule) × (after : List Rule) × (rules ≡ before ++ rule ∷ after)
    × NoneMatches before request_type subject details
    × (rule_matches rule request_type subject details ≡ some true)

-- What an enabled policy answers by the rule that was selected.
abbrev pub verdict : Bool → Option Rule → Bool × Option String
verdict default none = (default, none)
verdict default (some rule) = (rule.requires_approval, rule.reason)

decide_by-Selects :
    (rules : List Rule) (chosen : Option Rule) (default : Bool) (request_type : String)
    (subject : Text) (details : Dict Json)
    → Selects rules request_type subject details chosen
    → decide_by rules default request_type subject details ≡ some (verdict default chosen)
unfolding decide_by
decide_by-Selects rules none default request_type subject details h =
    decide_by-default rules default request_type subject details h
decide_by-Selects rules (some rule) default request_type subject details (before, after, e, h, m) =
    ap (λ rs. decide_by rs default request_type subject details) e
    ∙ rw
        (
          decide_by-NoneMatches before (rule ∷ after) default request_type subject details h,
          m,
          decide_by,
        )
        refl

-- A disabled policy asks for no approval, whatever its rules. An enabled one gives the answer and
-- the reason of the first rule that is for the request, when no rule before it raises; and its
-- default, without a reason, when no rule is for the request and none raises.
pub should_require_approval-first :
    (policy : ApprovalPolicy) (chosen : Option Rule) (request_type : String) (subject : Text)
    (details : Dict Json)
    → (policy.enabled ≡ false) ⊎ Selects policy.rules request_type subject details chosen
    → should_require_approval policy request_type subject details
      ≡ some (
          if policy.enabled then verdict policy.default_requires_approval chosen else (false, none))
unfolding should_require_approval decide_by
should_require_approval-first policy chosen request_type subject details (inl off) = rw (off) refl
should_require_approval-first policy chosen request_type subject details (inr h) =
    elim (Bool-cases policy.enabled) [
      | inl on ↦ rw (on) (
          decide_by-Selects policy.rules chosen policy.default_requires_approval request_type
            subject details h)
      | inr off ↦ rw (off) refl
    ]

abbrev pub is_required : Option (Bool × Option String) → Option Bool
is_required none = none
is_required (some (requires, reason)) = some requires

abbrev pub starts : String → Text → Bool
starts word subject = starts_with (codes word) subject

-- The names of the tools that change something.
abbrev pub changes : Text → Bool
changes subject =
    starts "write_file" subject
    || starts "execute_command" subject
    || (starts "delete_file" subject
        || (starts "move_file" subject || starts "create_directory" subject))

-- Three tests in turn.
is_required-tests :
    (a b c : Bool) (r s t : Option String) (rest : Option (Bool × Option String))
    → is_required rest ≡ some false
    → is_required (
        if a
        then some (true, r)
        else if b
        then some (true, s)
        else if c
        then some (true, t)
        else rest)
      ≡ some (a || b || c)
is_required-tests a b c r s t rest h = ground arith

is_required-if :
    (a : Bool) → is_required (if a then some (false, none) else some (false, none)) ≡ some false
is_required-if a = ground arith

-- A rule without conditions.
decide_by-rule :
    (type : RequestType) (pattern : Pattern) (requires : Bool) (reason : Option String)
    (rules : List Rule) (default : Bool) (request_type : String) (subject : Text)
    (details : Dict Json)
    → decide_by (rule type pattern requires reason ∷ rules) default request_type subject details ≡ (
        if str_eq (type_name type) request_type && match_subject pattern subject
        then some (requires, reason)
        else decide_by rules default request_type subject details)
unfolding decide_by rule_matches check_conditions
decide_by-rule type pattern requires reason rules default request_type subject details =
    ground arith

-- The default policy asks for approval of a tool exactly if its name begins with that of one of the
-- tools that change files or run commands, and of every plan; no condition raises.
pub default_policy-requires :
    (subject : Text) (details : Dict Json)
    → (is_required (should_require_approval default_policy "tool" subject details)
        ≡ some (changes subject))
      × (is_required (should_require_approval default_policy "plan" subject details) ≡ some true)
unfolding should_require_approval decide_by rule_matches match_subject check_conditions
default_policy-requires subject details = (
  simp (decide_by-rule, match_subject)
      (is_required-tests (starts "write_file" subject) (starts "execute_command" subject)
        (starts "delete_file" subject
          || (starts "move_file" subject || starts "create_directory" subject))
        (some "File modification requires approval") (some "Command execution requires approval")
        (some "File system operation requires approval")
        (if starts "read_file" subject
            || (starts "list_files" subject || starts "search_files" subject)
          then some (false, none)
          else some (false, none))
        (is_required-if (
          starts "read_file" subject
          || (starts "list_files" subject || starts "search_files" subject)))),
  refl,
)
