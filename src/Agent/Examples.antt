-- ===== src/Agent/Examples.antt =====
-- agent/runtime.go: runs in which the world counts the deletions.
use go_dav_os.Base.Ints.{pos, negsuc, lt_int, eq_int, rounds}
use go_dav_os.Base.{ℕ, ◌+◌, ◌≡◌, refl, true, false, none, some, [], arith}
use go_dav_os.Agent.{
  PlannerMode, IntentKind, ActionKind, RiskLevel, MessageKind, Plan, Context, no_action,
  action_none, empty_plan, valid_kind, single_action_plan,
}
use go_dav_os.Agent.Rules.{
  validate_plan, validate_loop, action_requires_target, action_risk, valid_risk_level,
  allowed_plan_action, same_risk, evaluate_safety, any_risky,
}
use go_dav_os.Agent.Runtime.{
  Handler, Executor, Runtime, run_plan, run_allowed, confirm_action, run_actions, execute,
  call_handler,
}
use go_dav_os.Agent.Validation.{HasRisk, IsAcceptable, validate_plan_iff}
use go_dav_os.Agent.Bridge.{
  BridgeRequest, BridgeResult, IsBridged, plan_with_bridge, check_result, allows, action_byte,
  intent_byte, bridge_action_intent, bridged_plan, new_bridge_request, plan_with_bridge-IsBridged,
}
use go_dav_os.Agent.Safety.{run_plan_unconfirmed}
use go_dav_os.Agent.Confirmation.{IsIdle, confirm_action_refused}

abbrev count_deletion : Handler ℕ
count_deletion a c w = (record { ok = true; message = MessageKind.ok }, c, w + 1)

abbrev executor : Executor ℕ
executor = record {
  list_files = none;
  read_file = none;
  write_file = none;
  delete_file = some count_deletion;
  stat_file = none;
  show_help = none;
  show_history = none;
  show_version = none;
  show_ticks = none;
  show_memory_map = none;
  set_mode = none;
}

abbrev shell : Runtime ℕ
shell = record {
  executor = executor;
  executor_configured = true;
  planner_mode = PlannerMode.llm;
  llm_configured = true;
}

-- Delete a file whose name is `a`, on the language model's advice.
abbrev deletion : Plan
deletion = record {
  planner = PlannerMode.llm;
  intent = IntentKind.delete_file;
  confidence = 90;
  action_count = pos 1;
  actions = λ i. record no_action {
    kind = ActionKind.delete_file;
    risk = RiskLevel.risky;
    target = λ i. 97;
    target_len = pos 1;
  };
}

abbrev calm : Context
calm = record {
  current_task = action_none;
  last_input = λ i. 0;
  last_input_len = 0;
  last_intent = IntentKind.unknown;
  last_action = action_none;
  last_result = MessageKind.none_given;
  request_count = 0;
  planner_mode = PlannerMode.llm;
  recent_count = 0;
  pending_plan = empty_plan;
  confirmation_pending = false;
}

abbrev waiting : Context
waiting = record calm { pending_plan = deletion; confirmation_pending = true }

deletion_passes : (validate_plan deletion).ok ≡ true
unfolding lt_int eq_int rounds validate_plan validate_loop valid_kind allowed_plan_action
    valid_risk_level action_requires_target same_risk action_risk
deletion_passes = refl

deletion-HasRisk : HasRisk deletion
unfolding rounds
deletion-HasRisk = (0, omega arith, refl)

-- Confirmed, the deletion is carried out once.
deletion_run : (run_plan shell deletion (some calm) true 0).2 ≡ 1
unfolding lt_int eq_int rounds run_plan validate_plan validate_loop valid_kind allowed_plan_action
    valid_risk_level action_requires_target same_risk action_risk evaluate_safety any_risky
    run_allowed run_actions execute call_handler
deletion_run = refl

-- A length that is negative does not pass.
negative_fails :
    (validate_plan
      (record deletion { actions = λ i. record (deletion.actions i) { target_len = negsuc 0 } })).ok
    ≡ false
unfolding lt_int eq_int rounds validate_plan validate_loop valid_kind allowed_plan_action
    valid_risk_level action_requires_target same_risk action_risk
negative_fails = refl

validate_plan_iff_example :
    ((validate_plan deletion).ok ≡ true → IsAcceptable deletion)
    × (IsAcceptable deletion → (validate_plan deletion).ok ≡ true)
validate_plan_iff_example = validate_plan_iff deletion

empty_fails : (validate_plan empty_plan).ok ≡ false
unfolding lt_int eq_int rounds validate_plan
empty_fails = refl

run_plan_unconfirmed_example :
    ((run_plan shell deletion (some calm) false 5).2 ≡ 5)
    × ((run_plan shell deletion (some calm) false 5).0.result.ok ≡ false)
run_plan_unconfirmed_example = run_plan_unconfirmed shell deletion (some calm) 5 deletion-HasRisk

confirm_action_refused_example :
    ((confirm_action shell false (some waiting) 5).2 ≡ 5)
    × IsIdle (confirm_action shell false (some waiting) 5).1
    × ((confirm_action shell true (confirm_action shell false (some waiting) 5).1 5).2 ≡ 5)
confirm_action_refused_example = confirm_action_refused shell (some waiting) 5 true

-- A host that always answers with a deletion, and counts the questions.
abbrev deleting : BridgeRequest → ℕ → ℕ × BridgeResult
deleting request n = (
  n + 1,
  record {
    ok = true;
    reason = MessageKind.none_given;
    response = record {
      intent = IntentKind.delete_file;
      action = ActionKind.delete_file;
      risk = RiskLevel.risky;
      target = λ i. 97;
      target_len = pos 1;
    };
  },
)

deleting_plans : (plan_with_bridge (some deleting) [] none 0).1.ok ≡ true
unfolding lt_int eq_int rounds plan_with_bridge check_result allows action_byte intent_byte
    bridge_action_intent bridged_plan new_bridge_request single_action_plan validate_plan
    validate_loop valid_kind allowed_plan_action valid_risk_level action_requires_target same_risk
    action_risk
deleting_plans = refl

plan_with_bridge-IsBridged_example : IsBridged (plan_with_bridge (some deleting) [] none 0).1.plan
plan_with_bridge-IsBridged_example =
    plan_with_bridge-IsBridged (some deleting) [] none 0 deleting_plans
