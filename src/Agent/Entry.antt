-- ===== src/Agent/Entry.antt =====
-- agent/runtime.go: the calls that the shell makes, on a runtime that may be nil (`none`).
use go_dav_os.Base.Ints.{ℤ, pos, lt_int}
use go_dav_os.Base.{◌||◌, ℕ, Bool, true, false, Option, none, some, Array, if◌then◌else◌}
use go_dav_os.Agent.{
  PlannerMode, IntentKind, ActionKind, RiskLevel, MessageKind, ActionResult, Response, Context,
  max_name_len,
}
use go_dav_os.Agent.Rules.{is_llm}
use go_dav_os.Agent.Runtime.{Executor, Runtime, run_action_request, confirm_action}

module _ {W : Type 0} where
  -- `NewDeterministicAgent`
  unfoldable pub new_deterministic_agent : Executor W → Runtime W
  new_deterministic_agent executor = record {
    executor = executor;
    executor_configured = true;
    planner_mode = PlannerMode.deterministic;
    llm_configured = false;
  }

  -- `CurrentPlanner`
  unfoldable pub current_planner : Runtime W → ActionResult
  current_planner r =
      if is_llm r.planner_mode
      then record { ok = true; message = MessageKind.llm_mode }
      else record { ok = true; message = MessageKind.deterministic_mode }

  -- `CopyPlannerConfiguration` into a runtime that is there.
  unfoldable pub copy_planner_configuration : Option (Runtime W) → Runtime W → Runtime W
  copy_planner_configuration none r = record r {
    planner_mode = PlannerMode.deterministic;
    llm_configured = false;
  }
  copy_planner_configuration (some source) r = record r {
    planner_mode = source.planner_mode;
    llm_configured = source.llm_configured;
  }

  -- `RunAction`
  unfoldable pub run_action :
      Runtime W
      → ActionKind
      → IntentKind
      → RiskLevel
      → Option (Array ℕ)
      → ℤ
      → Option Context
      → W
      → Response × Option Context × W
  run_action r kind what risk target target_len context w =
      run_action_request r kind what risk target target_len none (pos 0) context w

  abbrev pub message_of : Response × Option Context × W → MessageKind × Option Context × W
  message_of (resp, c, w) = (resp.result.message, c, w)

  -- `RunActionMessage`
  unfoldable pub run_action_message :
      Option (Runtime W)
      → ActionKind
      → IntentKind
      → RiskLevel
      → Option (Array ℕ)
      → ℤ
      → Option Context
      → W
      → MessageKind × Option Context × W
  run_action_message none kind what _ target target_len context w =
      (MessageKind.executor_not_configured, context, w)
  run_action_message (some r) kind what risk target target_len context w =
      let out = run_action r kind what risk target target_len context w in
      if lt_int target_len (pos 0) || lt_int (pos max_name_len) target_len
      then (MessageKind.action_target_invalid, context, w)
      else message_of out

  -- `RunActionRequestMessage`
  unfoldable pub run_action_request_message :
      Option (Runtime W)
      → ActionKind
      → IntentKind
      → RiskLevel
      → Option (Array ℕ)
      → ℤ
      → Option (Array ℕ)
      → ℤ
      → Option Context
      → W
      → MessageKind × Option Context × W
  run_action_request_message none kind what _ target target_len input input_len context w =
      (MessageKind.executor_not_configured, context, w)
  run_action_request_message (some r) kind what risk target target_len input input_len context w =
      let out = run_action_request r kind what risk target target_len input input_len context w in
      if lt_int target_len (pos 0) || lt_int (pos max_name_len) target_len
      then (MessageKind.action_target_invalid, context, w)
      else message_of out

  -- `ConfirmActionMessage`
  unfoldable pub confirm_action_message :
      Option (Runtime W) → Bool → Option Context → W → MessageKind × Option Context × W
  confirm_action_message none confirmed context w =
      (MessageKind.executor_not_configured, context, w)
  confirm_action_message (some r) confirmed context w =
      message_of (confirm_action r confirmed context w)
