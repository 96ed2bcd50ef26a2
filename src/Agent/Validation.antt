-- ===== src/Agent/Validation.antt =====
-- agent/runtime.go, `validatePlan`: what a plan that passes is like.
use go_dav_os.Base.Ints.{
  ℤ, pos, negsuc, lt_int, eq_int, rounds, FitsIn, in_range-FitsIn, FitsIn-in_range, eq_int-pos,
  pos-eq_int, eq_int-ne, ne-eq_int, rounds-pos,
}
use go_dav_os.Base.{
  not, false, ◌&&◌, ◌||◌, ◌≢◌, ℕ, zero, suc, ◌+◌, ◌≤◌, ◌<◌, ◌≡◌, refl, true, ◌==◌, ==_iff, arith,
  Bool-cases, sym, ap, ◌∙◌, inl, inr,
}
use go_dav_os.Agent.{
  PlannerMode, ActionKind, RiskLevel, Action, Plan, ValidationResult, max_actions, max_name_len,
  valid_kind,
}
use go_dav_os.Agent.Rules.{
  is_llm, is_risky, allowed_plan_action, action_requires_target, action_risk, valid_risk_level,
  same_risk, validate_action, validate_loop, validate_plan, any_risky,
}

-- What is asked of an action of a plan of planner `m`.
pub record Accepts (m : PlannerMode) (a : Action) : Type 0 where
  pub named : valid_kind a.kind ≡ true
  pub risk_named : valid_risk_level a.risk ≡ true
  pub target_fits : FitsIn max_name_len a.target_len
  pub no_payload : a.payload_len ≡ pos 0
  pub target_given : action_requires_target a.kind ≡ true → a.target_len ≢ pos 0
  pub llm_allowed : is_llm m ≡ true → allowed_plan_action a.kind ≡ true
  pub llm_risk : is_llm m ≡ true → same_risk (action_risk a.kind) a.risk ≡ true

pub record IsAcceptable (plan : Plan) : Type 0 where
  pub count : ℕ
  pub counted : plan.action_count ≡ pos count
  pub some_action : 1 ≤ count
  pub few_actions : count ≤ max_actions
  pub each : (i : ℕ) → i < count → Accepts plan.planner (plan.actions i)

-- The guards of the loop, each of which lets the action through.
record Guards (m : PlannerMode) (a : Action) : Type 0 where
  kind : (not (valid_kind a.kind) || (is_llm m && not (allowed_plan_action a.kind))) ≡ false
  risk : not (valid_risk_level a.risk) ≡ false
  target : (lt_int a.target_len (pos 0) || lt_int (pos 16) a.target_len) ≡ false
  payload : (lt_int a.payload_len (pos 0) || lt_int (pos 128) a.payload_len) ≡ false
  no_payload : not (eq_int a.payload_len (pos 0)) ≡ false
  target_given : (action_requires_target a.kind && eq_int a.target_len (pos 0)) ≡ false
  llm_risk : (is_llm m && not (same_risk (action_risk a.kind) a.risk)) ≡ false

validate_action-Guards :
    (m : PlannerMode) (a : Action) (rest : ValidationResult)
    → (validate_action m a rest).ok ≡ true
    → Guards m a × (rest.ok ≡ true)
unfolding validate_action
validate_action-Guards m a rest e = (
  record {
    kind = ground arith;
    risk = ground arith;
    target = ground arith;
    payload = ground arith;
    no_payload = ground arith;
    target_given = ground arith;
    llm_risk = ground arith;
  },
  ground arith,
)

Guards-Accepts : (m : PlannerMode) (a : Action) → Guards m a → Accepts m a
Guards-Accepts m a g =
    let k = g.kind in
    let r = g.risk in
    let n = g.no_payload in
    let t = g.target_given in
    let l = g.llm_risk in
    record {
      named = ground arith;
      risk_named = ground arith;
      target_fits = in_range-FitsIn 16 a.target_len g.target;
      no_payload = eq_int-pos a.payload_len 0 (ground arith);
      target_given = λ needs. eq_int-ne a.target_len 0 (ground arith);
      llm_allowed = λ llm. ground arith;
      llm_risk = λ llm. ground arith;
    }

Accepts-Guards : (m : PlannerMode) (a : Action) → Accepts m a → Guards m a
Accepts-Guards m a v =
    let k = v.named in
    let r = v.risk_named in
    let l = v.llm_allowed in
    let s = v.llm_risk in
    let none_there : eq_int a.payload_len (pos 0) ≡ true = rw v.no_payload (pos-eq_int 0) in
    record {
      kind = ground arith;
      risk = ground arith;
      target = FitsIn-in_range 16 a.target_len v.target_fits;
      payload = FitsIn-in_range 128 a.payload_len (0, v.no_payload, omega arith);
      no_payload = ground arith;
      target_given = elim (Bool-cases (action_requires_target a.kind)) [
        | inl needs ↦ rw (needs, ne-eq_int a.target_len 0 (v.target_given needs)) refl
        | inr free ↦ rw free refl
      ];
      llm_risk = ground arith;
    }

validate_action-ok :
    (m : PlannerMode) (a : Action) (rest : ValidationResult)
    → (validate_action m a rest).ok ≡ true
    → Accepts m a × (rest.ok ≡ true)
validate_action-ok m a rest e =
    let (g, later) = validate_action-Guards m a rest e in (Guards-Accepts m a g, later)

ok-validate_action :
    (m : PlannerMode) (a : Action) (rest : ValidationResult)
    → Accepts m a
    → rest.ok ≡ true
    → (validate_action m a rest).ok ≡ true
unfolding validate_action
ok-validate_action m a rest v e =
    let g = Accepts-Guards m a v in
    rw (g.kind, g.risk, g.target, g.payload, g.no_payload, g.target_given, g.llm_risk) e

validate_loop-ok :
    (n i : ℕ) (plan : Plan)
    → (validate_loop n i plan).ok ≡ true
    → (j : ℕ) → i ≤ j
    → j < i + n
    → Accepts plan.planner (plan.actions j)
unfolding validate_loop
validate_loop-ok zero i plan e j lo hi = absurd (omega (arith, lo, hi))
validate_loop-ok (suc n) i plan e j lo hi =
    let (here, later) =
      validate_action-ok plan.planner (plan.actions i) (validate_loop n (i + 1) plan) e in
    elim (Bool-cases (i == j)) [
      | inl y ↦ rw (← (==_iff i j).0 y) here
      | inr ne ↦ validate_loop-ok n (i + 1) plan later j (ground arith) (omega (arith, hi))
    ]

ok-validate_loop :
    (n i : ℕ) (plan : Plan)
    → ((j : ℕ) → i ≤ j → j < i + n → Accepts plan.planner (plan.actions j))
    → (validate_loop n i plan).ok ≡ true
unfolding validate_loop
ok-validate_loop zero i plan v = refl
ok-validate_loop (suc n) i plan v =
    ok-validate_action plan.planner (plan.actions i) (validate_loop n (i + 1) plan)
      (v i (omega arith) (omega arith))
      (ok-validate_loop n (i + 1) plan (λ j lo hi. v j (omega (arith, lo)) (omega (arith, hi))))

counted_actions :
    (z : ℤ)
    → not (lt_int (pos 0) z) ≡ false
    → lt_int (pos 4) z ≡ false
    → (n : ℕ) × (z ≡ pos n) × (1 ≤ n) × (n ≤ 4)
unfolding lt_int
counted_actions (pos n) low high = (n, refl, ground (arith, low), ground (arith, high))
counted_actions (negsuc n) low high = cc

actions_counted :
    (z : ℤ) (n : ℕ)
    → z ≡ pos n
    → 1 ≤ n
    → n ≤ 4
    → (not (lt_int (pos 0) z) ≡ false) × (lt_int (pos 4) z ≡ false)
unfolding lt_int
actions_counted z n e least most = rw e (ground (arith, least), ground (arith, most))

-- The validator passes exactly the plans with one to four actions, each of them of a known kind and
-- risk, with a target length from 0 to 16, no payload, and a target where one is needed; and for the
-- language model's planner, each of an allowed kind and with the risk that the kind has. Counts and
-- lengths are any integers.
pub validate_plan_iff :
    (plan : Plan)
    → ((validate_plan plan).ok ≡ true → IsAcceptable plan)
      × (IsAcceptable plan → (validate_plan plan).ok ≡ true)
unfolding validate_plan
validate_plan_iff plan = (
  λ e.
      let low : not (lt_int (pos 0) plan.action_count) ≡ false = ground arith in
      let high : lt_int (pos 4) plan.action_count ≡ false = ground arith in
      let loop : (validate_loop (rounds plan.action_count) 0 plan).ok ≡ true = ground arith in
      let (n, counted, least, most) = counted_actions plan.action_count low high in
      record {
        count = n;
        counted = counted;
        some_action = least;
        few_actions = most;
        each = λ i lt.
            validate_loop-ok n 0 plan (rw (rounds-pos plan.action_count n counted) at loop) i
              (omega arith) (omega (arith, lt));
      },
  λ v.
      let s = v.some_action in
      let f = v.few_actions in
      let z = plan.action_count in
      let (low, high) = actions_counted z v.count v.counted s f in
      let all = rounds-pos z v.count v.counted in
      let loop = ok-validate_loop v.count 0 plan (λ j lo hi. v.each j (omega (arith, hi))) in
      rw (low, high, all) loop,
)

-- Whether a plan holds a risky action.
abbrev pub HasRisk : Plan → Type 0
HasRisk plan = (i : ℕ) × (i < rounds plan.action_count) × (is_risky (plan.actions i).risk ≡ true)

any_risky-from :
    (n i : ℕ) (plan : Plan) (j : ℕ)
    → i ≤ j
    → j < i + n
    → is_risky (plan.actions j).risk ≡ true
    → any_risky n i plan ≡ true
unfolding any_risky
any_risky-from zero i plan j lo hi r = absurd (omega (arith, lo, hi))
any_risky-from (suc n) i plan j lo hi r = elim (Bool-cases (i == j)) [
  | inl y ↦ rw ((==_iff i j).0 y, r) refl
  | inr ne ↦
      let later = any_risky-from n (i + 1) plan j (ground arith) (omega (arith, hi)) r in
      ground arith
]

pub any_risky-HasRisk :
    (plan : Plan) → HasRisk plan → any_risky (rounds plan.action_count) 0 plan ≡ true
any_risky-HasRisk plan (i, lt, r) =
    any_risky-from (rounds plan.action_count) 0 plan i (omega arith) (omega (arith, lt)) r

same_risk-risky : (r : RiskLevel) → same_risk RiskLevel.risky r ≡ true → is_risky r ≡ true
unfolding same_risk
same_risk-risky RiskLevel.risky e = refl
same_risk-risky RiskLevel.safe e = e
same_risk-risky (RiskLevel.other n) e = e

-- A plan of the language model's planner that passes the validator and deletes a file holds an
-- action that is marked risky: the planner cannot pass a deletion off as safe.
pub llm_delete-HasRisk :
    (plan : Plan) (i : ℕ)
    → (validate_plan plan).ok ≡ true
    → plan.planner ≡ PlannerMode.llm
    → i < rounds plan.action_count
    → (plan.actions i).kind ≡ ActionKind.delete_file
    → HasRisk plan
unfolding action_risk
llm_delete-HasRisk plan i ok m lt k =
    let v = (validate_plan_iff plan).0 ok in
    let inside = rw (rounds-pos plan.action_count v.count v.counted) at lt in
    let r = (v.each i inside).llm_risk (rw m refl) in
    (
      i,
      lt,
      same_risk-risky (plan.actions i).risk
          (sym (ap (λ x. same_risk (action_risk x) (plan.actions i).risk) k) ∙ r),
    )
