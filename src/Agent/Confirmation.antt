-- ===== src/Agent/Confirmation.antt =====
-- agent/runtime.go, `ConfirmAction`: the second half of a risky request.
use go_dav_os.Base.Ints.{rounds}
use go_dav_os.Base.{◌≡◌, refl, ap, Bool, true, false, Option, none, some, Bool-cases, inl, inr}
use go_dav_os.Agent.{Plan, Response, Context, empty_plan, TraceKind, TraceDetail, add_trace}
use go_dav_os.Agent.Rules.{validate_plan, evaluate_safety, allow, any_risky}
use go_dav_os.Agent.Responses.{finish}
use go_dav_os.Agent.Runtime.{
  Runtime, run_plan, run_allowed, confirm_action, cancelled, opening, gated, set_task,
}

-- The plan that was held is gone from the context.
abbrev pub cleared : Context → Context
cleared c = record c { pending_plan = empty_plan; confirmation_pending = false }

abbrev pub IsIdle : Option Context → Type 0
IsIdle none = Unit
IsIdle (some c) = c.confirmation_pending ≡ false

evaluate_safety_confirmed :
    (plan : Plan) (c : Option Context) → evaluate_safety plan c true ≡ (allow, c)
unfolding evaluate_safety
evaluate_safety_confirmed plan c = elim (Bool-cases (any_risky (rounds plan.action_count) 0 plan)) [
  | inl y ↦ rw y refl
  | inr n ↦ rw n refl
]

-- The response to a plan that the validator and the gate let through, before it is carried out.
abbrev pub passed : Plan → Response
passed plan = gated allow (add_trace TraceKind.validation TraceDetail.ok (opening plan))

module _ {W : Type 0} where
  -- When nothing waits for a confirmation, confirming or refusing changes neither the context nor
  -- the world.
  pub confirm_action_idle :
      (r : Runtime W) (confirmed : Bool) (c : Option Context) (w : W)
      → IsIdle c
      → confirm_action r confirmed c w ≡ (cancelled, c, w)
  unfolding confirm_action
  confirm_action_idle r confirmed none w idle = refl
  confirm_action_idle r confirmed (some c) w idle = rw idle refl

  refused-IsIdle :
      (r : Runtime W) (c : Option Context) (w : W)
      → ((confirm_action r false c w).2 ≡ w) × IsIdle (confirm_action r false c w).1
  unfolding confirm_action finish
  refused-IsIdle r none w = (refl, tt)
  refused-IsIdle r (some c) w = elim (Bool-cases c.confirmation_pending) [
    | inl y ↦ rw y (refl, refl)
    | inr n ↦ rw n (refl, refl)
  ]

  -- Refusing leaves the world alone, and afterwards nothing waits, so that a later confirmation
  -- cannot bring the plan back: it changes nothing either.
  pub confirm_action_refused :
      (r : Runtime W) (c : Option Context) (w : W) (again : Bool)
      → ((confirm_action r false c w).2 ≡ w)
        × IsIdle (confirm_action r false c w).1
        × ((confirm_action r again (confirm_action r false c w).1 w).2 ≡ w)
  confirm_action_refused r c w again =
      let (same, idle) = refused-IsIdle r c w in
      (
        same,
        idle,
        ap (λ out. out.2) (confirm_action_idle r again (confirm_action r false c w).1 w idle),
      )

  -- Confirming, when a plan waits that the validator passes, runs this plan and no other, past the
  -- gate, and in a context in which nothing waits any more.
  pub confirm_action_runs :
      (r : Runtime W) (c : Context) (w : W)
      → c.confirmation_pending ≡ true
      → (validate_plan c.pending_plan).ok ≡ true
      → confirm_action r true (some c) w
        ≡ run_allowed r c.pending_plan
            (passed c.pending_plan)
            (set_task (c.pending_plan.actions 0).kind (some (cleared c)))
            w
  unfolding confirm_action run_plan
  confirm_action_runs r c w waits ok =
      let gate =
        evaluate_safety_confirmed c.pending_plan
          (set_task (c.pending_plan.actions 0).kind (some (cleared c))) in
      rw waits (rw ok (rw gate (rw gate refl)))
