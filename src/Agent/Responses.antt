-- ===== src/Agent/Responses.antt =====
-- agent/runtime.go: the parts of a response, and what a context keeps of a plan.
use go_dav_os.Base.Ints.{ℤ, pos, lt_int, eq_int, rounds}
use go_dav_os.Base.{not, ◌-◌, Bool, true, false, Option, none, some, Array, leb, if◌then◌else◌}
use go_dav_os.Agent.{
  PlannerMode, IntentKind, ActionKind, SafetyStatus, MessageKind, TraceDetail, Plan, ActionResult,
  Response, Context, max_actions, action_none,
}

-- `plannerTrace`, `intentTrace`, `safetyTrace`, `traceFromMessage`
unfoldable pub planner_trace : PlannerMode → TraceDetail
planner_trace PlannerMode.llm = TraceDetail.llm
planner_trace m = TraceDetail.deterministic

unfoldable pub intent_trace : IntentKind → TraceDetail
intent_trace IntentKind.unknown = TraceDetail.none_given
intent_trace IntentKind.list_files = TraceDetail.list_files
intent_trace IntentKind.read_file = TraceDetail.read_file
intent_trace IntentKind.write_file = TraceDetail.write_file
intent_trace IntentKind.delete_file = TraceDetail.delete_file
intent_trace IntentKind.stat_file = TraceDetail.stat_file
intent_trace IntentKind.show_help = TraceDetail.show_help
intent_trace IntentKind.show_history = TraceDetail.show_history
intent_trace IntentKind.show_version = TraceDetail.show_version
intent_trace IntentKind.show_ticks = TraceDetail.show_ticks
intent_trace IntentKind.show_memory_map = TraceDetail.show_memory_map
intent_trace IntentKind.set_mode = TraceDetail.set_mode
intent_trace (IntentKind.other n) = TraceDetail.none_given

unfoldable pub safety_trace : SafetyStatus → TraceDetail
safety_trace SafetyStatus.allowed = TraceDetail.allowed
safety_trace SafetyStatus.confirmation_required = TraceDetail.confirmation_required
safety_trace SafetyStatus.rejected = TraceDetail.rejected

unfoldable pub trace_from_message : MessageKind → TraceDetail
trace_from_message MessageKind.ok = TraceDetail.ok
trace_from_message m = TraceDetail.failed

abbrev pub set_result : Bool → MessageKind → Response → Response
set_result ok message r = record r { result = record { ok = ok; message = message } }

abbrev pub set_safety : SafetyStatus → MessageKind → Response → Response
set_safety status reason r = record r { safety = record { status = status; reason = reason } }

-- `formatResult`
unfoldable pub format_result : Array ActionResult → ℤ → ActionResult
format_result results n =
    if not (lt_int (pos 0) n)
    then record { ok = false; message = MessageKind.no_result }
    else if eq_int n (pos 1)
    then results 0
    else record { ok = true; message = MessageKind.completed_plan }

abbrev pub is_set_mode : ActionKind → Bool
is_set_mode ActionKind.set_mode = true
is_set_mode _ = false

abbrev pub is_asked : SafetyStatus → Bool
is_asked SafetyStatus.confirmation_required = true
is_asked _ = false

-- The action that the context remembers of a plan.
unfoldable pub last_action : Plan → ActionKind
last_action plan =
    let last = rounds plan.action_count - 1 in
    if not (lt_int (pos 0) plan.action_count)
    then action_none
    else (plan.actions (if leb max_actions last then max_actions - 1 else last)).kind

-- `finishPlanContext`
unfoldable pub finish : Response → Option Context → Plan → Response × Option Context
finish r none plan = (r, none)
finish r (some c) plan =
    let last = last_action plan in
    (
      r,
      some (record c {
        last_intent = plan.intent;
        last_action = last;
        last_result = r.result.message;
        planner_mode = (if is_set_mode last then c.planner_mode else plan.planner);
        current_task = (if is_asked r.safety.status then c.current_task else action_none);
      }),
    )
