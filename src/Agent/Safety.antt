-- ===== src/Agent/Safety.antt =====
-- agent/runtime.go, `runPlanWithConfirmation`: what stands between a plan and the world.
use go_dav_os.Base.Ints.{ℤ, pos, lt_int, rounds}
use go_dav_os.Base.{
  not, ℕ, Array, arith, ◌≡◌, refl, ap, Bool, true, false, length, leb, Option, none, some,
  Bool-cases, inl, inr,
}
use go_dav_os.Agent.{
  ActionKind, IntentKind, RiskLevel, single_action_plan, SafetyStatus, TraceKind, TraceDetail, Plan,
  Response, Context, max_trace_entries, add_trace,
}
use go_dav_os.Agent.Rules.{validate_plan, evaluate_safety, ask, hold}
use go_dav_os.Agent.Responses.{finish}
use go_dav_os.Agent.Runtime.{action_plan, run_action_request, Runtime, run_plan, set_task}
use go_dav_os.Agent.Validation.{HasRisk, any_risky-HasRisk}

-- What a response says, without its trace.
pub add_trace-result :
    (k : TraceKind) (d : TraceDetail) (r : Response) → (add_trace k d r).result ≡ r.result
unfolding add_trace
add_trace-result k d r = elim (Bool-cases (leb max_trace_entries (length r.trace))) [
  | inl y ↦ rw y refl
  | inr n ↦ rw n refl
]

pub add_trace-safety :
    (k : TraceKind) (d : TraceDetail) (r : Response) → (add_trace k d r).safety ≡ r.safety
unfolding add_trace
add_trace-safety k d r = elim (Bool-cases (leb max_trace_entries (length r.trace))) [
  | inl y ↦ rw y refl
  | inr n ↦ rw n refl
]

-- The response of a plan is whatever it was before the context is brought up to date.
pub finish_response : (r : Response) (c : Option Context) (p : Plan) → (finish r c p).0 ≡ r
unfolding finish
finish_response r none p = refl
finish_response r (some c) p = refl

evaluate_safety_held :
    (plan : Plan) (c : Option Context)
    → HasRisk plan
    → evaluate_safety plan c false ≡ (ask, hold plan c)
unfolding evaluate_safety
evaluate_safety_held plan c risk = rw (any_risky-HasRisk plan risk) refl

-- The context keeps the plan for a confirmation.
abbrev pub IsWaiting : Plan → Option Context → Type 0
IsWaiting plan none = ⊥
IsWaiting plan (some c) = (c.pending_plan ≡ plan) × (c.confirmation_pending ≡ true)

module _ {W : Type 0} where
  -- A plan that the validator refuses changes nothing in the world; the response says that it was
  -- rejected, and for which reason.
  pub run_plan_rejected :
      (r : Runtime W) (plan : Plan) (c : Option Context) (confirmed : Bool) (w : W)
      → (validate_plan plan).ok ≡ false
      → ((run_plan r plan c confirmed w).2 ≡ w)
        × ((run_plan r plan c confirmed w).0.result.ok ≡ false)
        × ((run_plan r plan c confirmed w).0.result.message ≡ (validate_plan plan).reason)
        × ((run_plan r plan c confirmed w).0.safety.status ≡ SafetyStatus.rejected)
  unfolding run_plan
  run_plan_rejected r plan c confirmed w e = rw e (
    refl,
    rw (finish_response, add_trace-result) refl,
    rw (finish_response, add_trace-result) refl,
    rw (finish_response, add_trace-safety) refl,
  )

  -- A plan with a risky action that is not confirmed changes nothing in the world, and is not
  -- answered with success, whatever else the plan holds.
  pub run_plan_unconfirmed :
      (r : Runtime W) (plan : Plan) (c : Option Context) (w : W)
      → HasRisk plan
      → ((run_plan r plan c false w).2 ≡ w) × ((run_plan r plan c false w).0.result.ok ≡ false)
  unfolding run_plan evaluate_safety
  run_plan_unconfirmed r plan c w risk = elim (Bool-cases (validate_plan plan).ok) [
    | inl y ↦ rw (y, any_risky-HasRisk plan risk) (refl, rw finish_response refl)
    | inr n ↦ let out = run_plan_rejected r plan c false w n in (out.0, out.1)
  ]

  -- A risky plan that passes the validator, on a context that is there, is held: the response asks
  -- for a confirmation, and the context keeps this very plan for it.
  pub run_plan_held :
      (r : Runtime W) (plan : Plan) (c : Context) (w : W)
      → (validate_plan plan).ok ≡ true
      → HasRisk plan
      → ((run_plan r plan (some c) false w).0.safety.status ≡ SafetyStatus.confirmation_required)
        × IsWaiting plan (run_plan r plan (some c) false w).1
  unfolding run_plan finish
  run_plan_held r plan c w ok risk =
      let c' = set_task (plan.actions 0).kind (some c) in
      let held = evaluate_safety_held plan c' risk in
      rw ok (rw held (rw held (ap (λ s. s.status) (add_trace-safety _ _ _), (refl, refl))))

  -- The plan of a risky action holds a risk, with whatever target.
  action_plan-HasRisk :
      (r : Runtime W) (kind : ActionKind) (what : IntentKind) (target : Option (Array ℕ))
      (target_len : ℤ)
      → HasRisk (action_plan r kind what RiskLevel.risky target target_len)
  unfolding action_plan single_action_plan rounds
  action_plan-HasRisk r kind what none target_len = (0, omega arith, refl)
  action_plan-HasRisk r kind what (some target) target_len =
      elim (Bool-cases (not (lt_int (pos 0) target_len))) [
        | inl y ↦ rw y (0, omega arith, refl)
        | inr n ↦ rw n (0, omega arith, refl)
      ]

  -- Asking for an action that is marked risky never changes the world by itself, whatever the kind, the
  -- target, the input and the context.
  pub run_action_request_risky :
      (r : Runtime W) (kind : ActionKind) (what : IntentKind) (target : Option (Array ℕ))
      (target_len : ℤ) (input : Option (Array ℕ)) (input_len : ℤ) (c : Option Context) (w : W)
      → ((run_action_request r kind what RiskLevel.risky target target_len input input_len c w).2
          ≡ w)
        × ((run_action_request r kind what RiskLevel.risky target target_len input input_len c
              w).0.result.ok
            ≡ false)
  unfolding run_action_request
  run_action_request_risky r kind what target target_len input input_len c w =
      run_plan_unconfirmed r _ _ w (action_plan-HasRisk r kind what target target_len)
