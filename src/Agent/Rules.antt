-- ===== src/Agent/Rules.antt =====
-- agent/runtime.go: which plans are valid, and which need a confirmation.
use go_dav_os.Base.Ints.{pos, lt_int, eq_int, rounds}
use go_dav_os.Base.{
  ℕ, zero, suc, ◌+◌, Bool, true, false, not, ◌&&◌, ◌||◌, Option, none, some, if◌then◌else◌,
}
use go_dav_os.Agent.{
  PlannerMode, ActionKind, RiskLevel, SafetyStatus, MessageKind, Action, Plan, ValidationResult,
  SafetyDecision, Context, max_actions, max_name_len, max_data_len, valid_kind,
}

abbrev pub is_llm : PlannerMode → Bool
is_llm PlannerMode.llm = true
is_llm _ = false

abbrev pub is_risky : RiskLevel → Bool
is_risky RiskLevel.risky = true
is_risky _ = false

-- `allowedPlanAction`
unfoldable pub allowed_plan_action : ActionKind → Bool
allowed_plan_action ActionKind.unknown = false
allowed_plan_action ActionKind.write_file = false
allowed_plan_action (ActionKind.other n) = false
allowed_plan_action k = true

-- `actionRequiresTarget`
unfoldable pub action_requires_target : ActionKind → Bool
action_requires_target ActionKind.read_file = true
action_requires_target ActionKind.delete_file = true
action_requires_target ActionKind.stat_file = true
action_requires_target k = false

-- `actionRisk`, as the test whether the action is risky.
unfoldable pub action_risk : ActionKind → RiskLevel
action_risk ActionKind.delete_file = RiskLevel.risky
action_risk k = RiskLevel.safe

-- `validRiskLevel`
unfoldable pub valid_risk_level : RiskLevel → Bool
valid_risk_level (RiskLevel.other n) = false
valid_risk_level r = true

-- `actionRisk(kind) != risk`, for a risk that is valid.
unfoldable pub same_risk : RiskLevel → RiskLevel → Bool
same_risk RiskLevel.safe RiskLevel.safe = true
same_risk RiskLevel.risky RiskLevel.risky = true
same_risk _ _ = false

abbrev pub refusal : MessageKind → ValidationResult
refusal m = record { ok = false; reason = m }

abbrev pub accepted : ValidationResult
accepted = record { ok = true; reason = MessageKind.ok }

-- The body of the loop in `validatePlan`; `rest` is what the later actions give.
unfoldable pub validate_action : PlannerMode → Action → ValidationResult → ValidationResult
validate_action planner a rest =
    if not (valid_kind a.kind) || (is_llm planner && not (allowed_plan_action a.kind))
    then refusal MessageKind.plan_contains_unsupported_action
    else if not (valid_risk_level a.risk)
    then refusal MessageKind.action_risk_invalid
    else if lt_int a.target_len (pos 0) || lt_int (pos max_name_len) a.target_len
    then refusal MessageKind.action_target_invalid
    else if lt_int a.payload_len (pos 0) || lt_int (pos max_data_len) a.payload_len
    then refusal MessageKind.action_data_invalid
    else if not (eq_int a.payload_len (pos 0))
    then refusal MessageKind.action_data_invalid
    else if action_requires_target a.kind && eq_int a.target_len (pos 0)
    then refusal MessageKind.action_target_invalid
    else if is_llm planner && not (same_risk (action_risk a.kind) a.risk)
    then refusal MessageKind.action_risk_invalid
    else rest

unfoldable pub validate_loop : ℕ → ℕ → Plan → ValidationResult
unfolding validate_action
validate_loop zero i plan = accepted
validate_loop (suc n) i plan =
    let rest = validate_loop n (i + 1) plan in validate_action plan.planner (plan.actions i) rest

-- `validatePlan`
unfoldable pub validate_plan : Plan → ValidationResult
validate_plan plan =
    if not (lt_int (pos 0) plan.action_count)
    then refusal MessageKind.plan_has_no_actions
    else if lt_int (pos max_actions) plan.action_count
    then refusal MessageKind.plan_has_too_many_actions
    else validate_loop (rounds plan.action_count) 0 plan

-- Whether one of the actions from `i` on is risky.
unfoldable pub any_risky : ℕ → ℕ → Plan → Bool
any_risky zero i plan = false
any_risky (suc n) i plan = is_risky (plan.actions i).risk || any_risky n (i + 1) plan

abbrev pub allow : SafetyDecision
allow = record { status = SafetyStatus.allowed; reason = MessageKind.ok }

abbrev pub ask : SafetyDecision
ask = record {
  status = SafetyStatus.confirmation_required;
  reason = MessageKind.confirmation_required;
}

abbrev pub hold : Plan → Option Context → Option Context
hold plan none = none
hold plan (some c) = some (record c { pending_plan = plan; confirmation_pending = true })

-- `evaluateSafetyWithConfirmation`: the first risky action decides.
unfoldable pub evaluate_safety : Plan → Option Context → Bool → SafetyDecision × Option Context
evaluate_safety plan context confirmed =
    if any_risky (rounds plan.action_count) 0 plan
    then (if confirmed then (allow, context) else (ask, hold plan context))
    else (allow, context)
