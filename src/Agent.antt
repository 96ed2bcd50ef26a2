-- ===== src/Agent.antt =====
-- agent/types.go and agent/planner.go: what the agent's runtime computes with. Where a Go enumeration
-- is a byte, `other` stands for the bytes that name nothing.
pub mod Rules
pub mod Responses
pub mod Runtime
pub mod Entry
pub mod Validation
pub mod Safety
pub mod Confirmation
pub mod Bridge
mod Examples
use go_dav_os.Base.Ints.{
  ℤ, pos, negsuc, lt_int, eq_int, rounds, FitsIn, in_range-FitsIn, FitsIn-in_range, eq_int-pos,
  pos-eq_int, eq_int-ne, ne-eq_int,
}
use go_dav_os.Base.{
  ℕ, zero, suc, ◌+◌, ◌%◌, ◌^◌, Bool, true, false, Option, none, some, List, [], ◌∷◌, ◌++◌, Array,
  update, length, ltb, leb, if◌then◌else◌,
}

abbrev pub max_actions : ℕ
max_actions = 4

abbrev pub max_trace_entries : ℕ
max_trace_entries = 8

abbrev pub max_name_len : ℕ
max_name_len = 16

abbrev pub max_data_len : ℕ
max_data_len = 128

abbrev pub max_recent_items : ℕ
max_recent_items = 4

abbrev pub max_context_input : ℕ
max_context_input = 128

pub data PlannerMode : Type 0 where
  deterministic llm : PlannerMode
  other : ℕ → PlannerMode

pub data IntentKind : Type 0 where
  unknown list_files read_file write_file delete_file stat_file show_help show_history show_version
        show_ticks show_memory_map set_mode :
      IntentKind
  other : ℕ → IntentKind

pub data ActionKind : Type 0 where
  unknown list_files read_file write_file delete_file stat_file show_help show_history show_version
        show_ticks show_memory_map set_mode :
      ActionKind
  other : ℕ → ActionKind

-- `ActionNone`
abbrev pub action_none : ActionKind
action_none = ActionKind.unknown

pub data RiskLevel : Type 0 where
  safe risky : RiskLevel
  other : ℕ → RiskLevel

pub data SafetyStatus : Type 0 where
  rejected allowed confirmation_required : SafetyStatus

-- `MessageKind`: the messages that the runtime itself gives, and `other` for those of the handlers.
pub data MessageKind : Type 0 where
  none_given planner_failed planner_missing validation_failed plan_has_no_actions
        plan_has_too_many_actions plan_contains_unsupported_action action_risk_invalid
        action_target_invalid action_data_invalid confirmation_required action_cancelled
        executor_not_configured unsupported_action action_unavailable no_result completed_plan ok
        deterministic_mode llm_mode planner_switched_deterministic planner_switched_llm
        llm_mode_not_configured unsupported_mode :
      MessageKind
  other : ℕ → MessageKind

pub data TraceKind : Type 0 where
  planner intent validation safety executor formatter : TraceKind

pub data TraceDetail : Type 0 where
  none_given missing failed ok allowed rejected confirmation_required success structured
        deterministic llm list_files read_file write_file delete_file stat_file show_help
        show_history show_version show_ticks show_memory_map set_mode :
      TraceDetail

-- `ActionKind.Valid`
unfoldable pub valid_kind : ActionKind → Bool
valid_kind ActionKind.unknown = false
valid_kind (ActionKind.other n) = false
valid_kind k = true

-- `ActionKind.ExpectedRisk`
unfoldable pub expected_risk : ActionKind → RiskLevel
expected_risk ActionKind.delete_file = risky
expected_risk ActionKind.write_file = risky
expected_risk k = safe

-- `Action`, whose lengths are ints.
pub record Action : Type 0 where
  pub kind : ActionKind
  pub risk : RiskLevel
  pub target : Array ℕ
  pub target_len : ℤ
  pub payload : Array ℕ
  pub payload_len : ℤ

abbrev pub no_action : Action
no_action = record {
  kind = action_none;
  risk = safe;
  target = λ i. 0;
  target_len = pos 0;
  payload = λ i. 0;
  payload_len = pos 0;
}

pub record Plan : Type 0 where
  pub planner : PlannerMode
  pub intent : IntentKind
  pub confidence : ℕ
  pub actions : Array Action
  pub action_count : ℤ

-- `Plan{}`
abbrev pub empty_plan : Plan
empty_plan = record {
  planner = deterministic;
  intent = IntentKind.unknown;
  confidence = 0;
  actions = λ i. no_action;
  action_count = pos 0;
}

pub record ValidationResult : Type 0 where
  pub ok : Bool
  pub reason : MessageKind

pub record SafetyDecision : Type 0 where
  pub status : SafetyStatus
  pub reason : MessageKind

pub record ActionResult : Type 0 where
  pub ok : Bool
  pub message : MessageKind

-- `Response`; the trace is the entries that `TraceCount` counts.
pub record Response : Type 0 where
  pub trace : List (TraceKind × TraceDetail)
  pub result : ActionResult
  pub safety : SafetyDecision

-- `var response Response`
abbrev pub blank_response : Response
blank_response = record {
  trace = [];
  result = record { ok = false; message = none_given };
  safety = record { status = rejected; reason = none_given };
}

-- `AddTrace`
unfoldable pub add_trace : TraceKind → TraceDetail → Response → Response
add_trace stage detail r =
    if leb max_trace_entries (length r.trace)
    then r
    else record r { trace = r.trace ++ (stage, detail) ∷ [] }

pub record Context : Type 0 where
  pub current_task : ActionKind
  pub last_input : Array ℕ
  pub last_input_len : ℕ
  pub last_intent : IntentKind
  pub last_action : ActionKind
  pub last_result : MessageKind
  pub request_count : ℕ
  pub planner_mode : PlannerMode
  pub recent_count : ℕ
  pub pending_plan : Plan
  pub confirmation_pending : Bool

-- `BeginRequest` on a context that is there. `input` is `none` for a nil pointer; the count of
-- requests wraps as a uint64.
unfoldable pub begin_request : Option (Array ℕ) → ℤ → PlannerMode → Context → Context
begin_request none input_len mode c = record c {
  last_input_len = 0;
  request_count = (c.request_count + 1) % 2 ^ 64;
  planner_mode = mode;
  current_task = action_none;
  recent_count =
      (if ltb c.recent_count max_recent_items then c.recent_count + 1 else c.recent_count);
}
begin_request (some input) input_len mode c =
    let n =
      if lt_int (pos max_context_input) input_len then max_context_input else rounds input_len in
    record c {
      last_input = λ i. if ltb i n then input i else c.last_input i;
      last_input_len = n;
      request_count = (c.request_count + 1) % 2 ^ 64;
      planner_mode = mode;
      current_task = action_none;
      recent_count =
          (if ltb c.recent_count max_recent_items then c.recent_count + 1 else c.recent_count);
    }

-- `Remember` on a context that is there.
unfoldable pub remember : IntentKind → Context → Context
remember what c = record c {
  last_intent = what;
  recent_count =
      (if ltb c.recent_count max_recent_items then c.recent_count + 1 else c.recent_count);
}

-- `singleActionPlan`
unfoldable pub single_action_plan : PlannerMode → IntentKind → ActionKind → RiskLevel → Plan
single_action_plan mode what kind risk = record {
  planner = mode;
  intent = what;
  confidence = 100;
  action_count = pos 1;
  actions = update (λ i. no_action) 0 (record no_action { kind = kind; risk = risk });
}
