-- ===== src/Agent/Runtime.antt =====
-- agent/runtime.go and agent/executor.go: a plan is validated, gated and carried out. The handlers
-- are the shell's, and act on a world of their own; `none` is a nil handler, or a nil context.
use go_dav_os.Base.Ints.{ℤ, pos, lt_int, rounds}
use go_dav_os.Base.{
  ℕ, zero, suc, ◌+◌, Bool, true, false, not, Option, none, some, Array, update, ltb, if◌then◌else◌,
}
use go_dav_os.Agent.{
  PlannerMode, IntentKind, ActionKind, RiskLevel, SafetyStatus, MessageKind, TraceKind, TraceDetail,
  Action, Plan, SafetyDecision, ActionResult, Response, Context, max_name_len, empty_plan,
  blank_response, add_trace, begin_request, single_action_plan,
}
use go_dav_os.Agent.Rules.{validate_plan, evaluate_safety}
use go_dav_os.Agent.Responses.{
  planner_trace, intent_trace, safety_trace, trace_from_message, set_result, set_safety,
  format_result, finish,
}

-- `ActionHandler`
abbrev pub Handler : Type 0 → Type 0
Handler W = Action → Option Context → W → ActionResult × Option Context × W

-- `AllowedActionExecutor`
pub record Executor (W : Type 0) : Type 0 where
  pub list_files : Option (Handler W)
  pub read_file : Option (Handler W)
  pub write_file : Option (Handler W)
  pub delete_file : Option (Handler W)
  pub stat_file : Option (Handler W)
  pub show_help : Option (Handler W)
  pub show_history : Option (Handler W)
  pub show_version : Option (Handler W)
  pub show_ticks : Option (Handler W)
  pub show_memory_map : Option (Handler W)
  pub set_mode : Option (Handler W)

-- `Runtime`
pub record Runtime (W : Type 0) : Type 0 where
  pub executor : Executor W
  pub executor_configured : Bool
  pub planner_mode : PlannerMode
  pub llm_configured : Bool

abbrev pub set_task : ActionKind → Option Context → Option Context
set_task k none = none
set_task k (some c) = some (record c { current_task = k })

-- The loop over the actions: the first failure, or every result.
pub record LoopEnd (W : Type 0) : Type 0 where
  pub failure : Option ActionResult
  pub results : Array ActionResult
  pub context : Option Context
  pub world : W

abbrev pub opening : Plan → Response
opening plan =
    add_trace TraceKind.intent (intent_trace plan.intent)
      (add_trace TraceKind.planner (planner_trace plan.planner) blank_response)

abbrev pub gated : SafetyDecision → Response → Response
gated d r = add_trace TraceKind.safety (safety_trace d.status) (set_safety d.status d.reason r)

abbrev pub cancelled : Response
cancelled =
    set_safety SafetyStatus.rejected MessageKind.action_cancelled
      (set_result false MessageKind.action_cancelled blank_response)

module _ {W : Type 0} where
  -- `callHandler`
  unfoldable pub call_handler :
      Option (Handler W) → Action → Option Context → W → ActionResult × Option Context × W
  call_handler none a c w = (record { ok = false; message = MessageKind.action_unavailable }, c, w)
  call_handler (some h) a c w = h a c w

  -- The handler of each kind of action; there is none for a kind that is not valid.
  abbrev pub handler_of : ActionKind → Executor W → Option (Option (Handler W))
  handler_of ActionKind.list_files e = some e.list_files
  handler_of ActionKind.read_file e = some e.read_file
  handler_of ActionKind.write_file e = some e.write_file
  handler_of ActionKind.delete_file e = some e.delete_file
  handler_of ActionKind.stat_file e = some e.stat_file
  handler_of ActionKind.show_help e = some e.show_help
  handler_of ActionKind.show_history e = some e.show_history
  handler_of ActionKind.show_version e = some e.show_version
  handler_of ActionKind.show_ticks e = some e.show_ticks
  handler_of ActionKind.show_memory_map e = some e.show_memory_map
  handler_of ActionKind.set_mode e = some e.set_mode
  handler_of ActionKind.unknown e = none
  handler_of (ActionKind.other n) e = none

  -- `Execute`
  unfoldable pub execute :
      Executor W → Action → Option Context → W → ActionResult × Option Context × W
  execute e a c w = elim (handler_of a.kind e) [
    | none ↦ (record { ok = false; message = MessageKind.unsupported_action }, c, w)
    | some h ↦ call_handler h a c w
  ]

  unfoldable pub run_actions :
      Executor W → ℕ → ℕ → Plan → Array ActionResult → Option Context → W → LoopEnd W
  run_actions e zero i plan results c w = record {
    failure = none;
    results = results;
    context = c;
    world = w;
  }
  run_actions e (suc n) i plan results c w =
      let (r, c', w') = execute e (plan.actions i) (set_task (plan.actions i).kind c) w in
      let results' = update results i r in
      let rest = run_actions e n (i + 1) plan results' c' w' in
      if r.ok
      then rest
      else record { failure = some r; results = results'; context = c'; world = w' }

  -- The end of `runPlanWithConfirmation`, past the gate.
  unfoldable pub run_allowed :
      Runtime W → Plan → Response → Option Context → W → Response × Option Context × W
  run_allowed r plan resp context w =
      let l =
        run_actions r.executor (rounds plan.action_count) 0 plan
          (λ i. record { ok = false; message = MessageKind.none_given }) context w in
      let (missing_r, missing_c) =
        finish
          (add_trace TraceKind.executor TraceDetail.missing
            (set_result false MessageKind.executor_not_configured resp))
          context plan in
      let result = format_result l.results plan.action_count in
      let (done_r, done_c) =
        finish
          (add_trace TraceKind.formatter TraceDetail.structured (
            set_result result.ok result.message
              (add_trace TraceKind.executor TraceDetail.success resp)))
          l.context plan in
      if not r.executor_configured then (missing_r, missing_c, w) else elim l.failure [
        | none ↦ (done_r, done_c, l.world)
        | some f ↦
            let (r', c') =
              finish
                (set_result f.ok f.message (add_trace TraceKind.executor TraceDetail.failed resp))
                l.context plan in
            (r', c', l.world)
      ]

  -- `runPlanWithConfirmation`
  unfoldable pub run_plan :
      Runtime W → Plan → Option Context → Bool → W → Response × Option Context × W
  run_plan r plan context confirmed w =
      let v = validate_plan plan in
      let (bad_r, bad_c) =
        finish
          (add_trace TraceKind.validation (trace_from_message v.reason) (
            set_safety SafetyStatus.rejected MessageKind.validation_failed
              (set_result false v.reason (opening plan))))
          context plan in
      let valid_r = add_trace TraceKind.validation TraceDetail.ok (opening plan) in
      let (d, context') = evaluate_safety plan (set_task (plan.actions 0).kind context) confirmed in
      let resp = gated d valid_r in
      let (held_r, held_c) = finish (set_result false d.reason resp) context' plan in
      if not v.ok then (bad_r, bad_c, w) else elim d.status [
        | SafetyStatus.allowed ↦ run_allowed r plan resp context' w
        | other ↦ (held_r, held_c, w)
      ]

  -- The plan of `runAction`. A target is `none` for a nil pointer.
  unfoldable pub action_plan :
      Runtime W → ActionKind → IntentKind → RiskLevel → Option (Array ℕ) → ℤ → Plan
  action_plan r kind intent risk none target_len =
      single_action_plan r.planner_mode intent kind risk
  action_plan r kind intent risk (some target) target_len =
      let plan = single_action_plan r.planner_mode intent kind risk in
      let n = if lt_int (pos max_name_len) target_len then max_name_len else rounds target_len in
      if not (lt_int (pos 0) target_len) then plan else record plan {
        actions = update plan.actions 0 (record (plan.actions 0) {
          target_len = pos n;
          target = λ i. if ltb i n then target i else 0;
        });
      }

  -- `RunActionRequest`; `RunAction` is the case of no input.
  unfoldable pub run_action_request :
      Runtime W
      → ActionKind
      → IntentKind
      → RiskLevel
      → Option (Array ℕ)
      → ℤ
      → Option (Array ℕ)
      → ℤ
      → Option Context
      → W
      → Response × Option Context × W
  run_action_request r kind intent risk target target_len input input_len context w =
      run_plan r (action_plan r kind intent risk target target_len)
        (elim context [
          | none ↦ none
          | some c ↦ some (begin_request input input_len r.planner_mode c)
        ])
        false w

  -- `ConfirmAction`
  unfoldable pub confirm_action :
      Runtime W → Bool → Option Context → W → Response × Option Context × W
  confirm_action r confirmed none w = (cancelled, none, w)
  confirm_action r confirmed (some c) w =
      let c' = record c { pending_plan = empty_plan; confirmation_pending = false } in
      let (stop_r, stop_c) =
        finish (add_trace TraceKind.safety TraceDetail.rejected cancelled) (some c')
          c.pending_plan in
      if not c.confirmation_pending
      then (cancelled, some c, w)
      else if not confirmed
      then (stop_r, stop_c, w)
      else run_plan r c.pending_plan (some c') true w

  -- `SetPlannerMode`
  unfoldable pub set_planner_mode : PlannerMode → Runtime W → Runtime W × ActionResult
  set_planner_mode PlannerMode.deterministic r = (
    record r { planner_mode = PlannerMode.deterministic },
    record { ok = true; message = MessageKind.planner_switched_deterministic },
  )
  set_planner_mode PlannerMode.llm r =
      if not r.llm_configured
      then (r, record { ok = false; message = MessageKind.llm_mode_not_configured })
      else (
        record r { planner_mode = PlannerMode.llm },
        record { ok = true; message = MessageKind.planner_switched_llm },
      )
  set_planner_mode (PlannerMode.other n) r =
      (r, record { ok = false; message = MessageKind.unsupported_mode })
