-- ===== src/Agent/Bridge.antt =====
-- agent/planner_llm.go: plans of the language model, over a bridge to the host that may answer anything.
use go_dav_os.Base.Ints.{ℤ, pos, rounds}
use go_dav_os.Base.{
  ◌≤◌, sym, ℕ, ◌+◌, ◌≡◌, refl, Bool, true, false, not, Option, none, some, List, [], ◌∷◌, Array,
  update, ◌==◌, ==_iff, if◌then◌else◌, arith, Bool-cases, inl, inr,
}
use go_dav_os.Agent.{
  PlannerMode, IntentKind, ActionKind, RiskLevel, MessageKind, Plan, Context, empty_plan,
  single_action_plan,
}
use go_dav_os.Agent.Rules.{validate_plan}
use go_dav_os.Agent.Validation.{IsAcceptable, HasRisk, validate_plan_iff, llm_delete-HasRisk}

-- `PlanningResult`
pub record PlanningResult : Type 0 where
  pub ok : Bool
  pub plan : Plan
  pub reason : MessageKind

abbrev pub failed_planning : MessageKind → PlanningResult
failed_planning m = record { ok = false; plan = empty_plan; reason = m }

-- `successfulPlan`
abbrev pub successful_plan : Plan → PlanningResult
successful_plan p = record { ok = true; plan = p; reason = MessageKind.none_given }

pub record BridgeRequest : Type 0 where
  pub input : List ℕ
  pub context : Option Context
  pub allowed_actions : List ActionKind

pub record BridgeResponse : Type 0 where
  pub intent : IntentKind
  pub action : ActionKind
  pub risk : RiskLevel
  pub target : Array ℕ
  pub target_len : ℤ

pub record BridgeResult : Type 0 where
  pub ok : Bool
  pub response : BridgeResponse
  pub reason : MessageKind

-- The byte of an action's kind and of an intent; `other n` is the byte `n` past the names.
unfoldable pub action_byte : ActionKind → ℕ
action_byte ActionKind.unknown = 0
action_byte ActionKind.list_files = 1
action_byte ActionKind.read_file = 2
action_byte ActionKind.write_file = 3
action_byte ActionKind.delete_file = 4
action_byte ActionKind.stat_file = 5
action_byte ActionKind.show_help = 6
action_byte ActionKind.show_history = 7
action_byte ActionKind.show_version = 8
action_byte ActionKind.show_ticks = 9
action_byte ActionKind.show_memory_map = 10
action_byte ActionKind.set_mode = 11
action_byte (ActionKind.other n) = 12 + n

unfoldable pub intent_byte : IntentKind → ℕ
intent_byte IntentKind.unknown = 0
intent_byte IntentKind.list_files = 1
intent_byte IntentKind.read_file = 2
intent_byte IntentKind.write_file = 3
intent_byte IntentKind.delete_file = 4
intent_byte IntentKind.stat_file = 5
intent_byte IntentKind.show_help = 6
intent_byte IntentKind.show_history = 7
intent_byte IntentKind.show_version = 8
intent_byte IntentKind.show_ticks = 9
intent_byte IntentKind.show_memory_map = 10
intent_byte IntentKind.set_mode = 11
intent_byte (IntentKind.other n) = 12 + n

-- `newBridgeRequest`
unfoldable pub new_bridge_request : List ℕ → Option Context → BridgeRequest
new_bridge_request input context = record {
  input = input;
  context = context;
  allowed_actions =
      ActionKind.list_files ∷ ActionKind.read_file ∷ ActionKind.stat_file ∷ ActionKind.delete_file
      ∷ ActionKind.show_history ∷ ActionKind.show_version ∷ ActionKind.show_ticks
      ∷ ActionKind.show_memory_map ∷ [];
}

-- `allows`
unfoldable pub allows : List ActionKind → ActionKind → Bool
allows [] kind = false
allows (a ∷ rest) kind =
    let later = allows rest kind in if action_byte a == action_byte kind then true else later

-- `bridgeActionIntent`
unfoldable pub bridge_action_intent : ActionKind → IntentKind
bridge_action_intent ActionKind.list_files = IntentKind.list_files
bridge_action_intent ActionKind.read_file = IntentKind.read_file
bridge_action_intent ActionKind.stat_file = IntentKind.stat_file
bridge_action_intent ActionKind.delete_file = IntentKind.delete_file
bridge_action_intent ActionKind.show_history = IntentKind.show_history
bridge_action_intent ActionKind.show_version = IntentKind.show_version
bridge_action_intent ActionKind.show_ticks = IntentKind.show_ticks
bridge_action_intent ActionKind.show_memory_map = IntentKind.show_memory_map
bridge_action_intent _ = IntentKind.unknown

-- The plan of the bridge's answer.
unfoldable pub bridged_plan : BridgeResponse → Plan
bridged_plan a =
    let plan = single_action_plan PlannerMode.llm a.intent a.action a.risk in
    record plan {
      actions =
          update plan.actions 0
            (record (plan.actions 0) { target = a.target; target_len = a.target_len });
    }

-- The end of `Plan`, from the bridge's result on.
unfoldable pub check_result : BridgeRequest → BridgeResult → PlanningResult
check_result request result =
    let answer = result.response in
    let plan = bridged_plan answer in
    if not result.ok
    then failed_planning
        (elim result.reason [ MessageKind.none_given ↦ MessageKind.other 41 | m ↦ m ])
    else if not (allows request.allowed_actions answer.action)
    then failed_planning MessageKind.plan_contains_unsupported_action
    else if not (intent_byte (bridge_action_intent answer.action) == intent_byte answer.intent)
    then failed_planning MessageKind.planner_failed
    else if not (validate_plan plan).ok
    then failed_planning (validate_plan plan).reason
    else successful_plan plan

-- `Plan`, with a bridge that acts on a world `W`; 40 is the message that no bridge is configured.
unfoldable pub plan_with_bridge :
    {W : Type 0}
    → Option (BridgeRequest → W → W × BridgeResult)
    → List ℕ
    → Option Context
    → W
    → W × PlanningResult
plan_with_bridge none input context w = (w, failed_planning (MessageKind.other 40))
plan_with_bridge (some ask) input context w =
    let request = new_bridge_request input context in
    let (v, result) = ask request w in (v, check_result request result)

-- The kinds of action that the language model may ask for, each with its intent.
pub data Offers : ActionKind → IntentKind → Type 0 where
  may_list_files : Offers ActionKind.list_files IntentKind.list_files
  may_read_file : Offers ActionKind.read_file IntentKind.read_file
  may_stat_file : Offers ActionKind.stat_file IntentKind.stat_file
  may_delete_file : Offers ActionKind.delete_file IntentKind.delete_file
  may_show_history : Offers ActionKind.show_history IntentKind.show_history
  may_show_version : Offers ActionKind.show_version IntentKind.show_version
  may_show_ticks : Offers ActionKind.show_ticks IntentKind.show_ticks
  may_show_memory_map : Offers ActionKind.show_memory_map IntentKind.show_memory_map

-- A plan that may be handed to the runtime: of one action, which the validator accepts, of a kind that the
-- language model may ask for, with the intent of that kind, and marked risky if it deletes a file.
pub record IsBridged (plan : Plan) : Type 0 where
  pub acceptable : IsAcceptable plan
  pub one : plan.action_count ≡ pos 1
  pub from_llm : plan.planner ≡ PlannerMode.llm
  pub offered : Offers (plan.actions 0).kind plan.intent
  pub risk_shown : (plan.actions 0).kind ≡ ActionKind.delete_file → HasRisk plan

-- The intent of a byte below 12.
abbrev named_intent : ℕ → IntentKind
named_intent b =
    if b == 0
    then IntentKind.unknown
    else if b == 1
    then IntentKind.list_files
    else if b == 2
    then IntentKind.read_file
    else if b == 3
    then IntentKind.write_file
    else if b == 4
    then IntentKind.delete_file
    else if b == 5
    then IntentKind.stat_file
    else if b == 6
    then IntentKind.show_help
    else if b == 7
    then IntentKind.show_history
    else if b == 8
    then IntentKind.show_version
    else if b == 9
    then IntentKind.show_ticks
    else if b == 10
    then IntentKind.show_memory_map
    else IntentKind.set_mode

intent_named : (what : IntentKind) → intent_byte what ≤ 11 → what ≡ named_intent (intent_byte what)
unfolding intent_byte
intent_named IntentKind.unknown low = refl
intent_named IntentKind.list_files low = refl
intent_named IntentKind.read_file low = refl
intent_named IntentKind.write_file low = refl
intent_named IntentKind.delete_file low = refl
intent_named IntentKind.stat_file low = refl
intent_named IntentKind.show_help low = refl
intent_named IntentKind.show_history low = refl
intent_named IntentKind.show_version low = refl
intent_named IntentKind.show_ticks low = refl
intent_named IntentKind.show_memory_map low = refl
intent_named IntentKind.set_mode low = refl
intent_named (IntentKind.other n) low = absurd (omega (arith, low))

intent_from : (what : IntentKind) (b : ℕ) → b ≤ 11 → b ≡ intent_byte what → named_intent b ≡ what
intent_from what b low e = rw e (sym (intent_named what (rw e at low)))

-- What is offered, and has the intent of its kind.
offered-Offers :
    (input : List ℕ) (context : Option Context) (kind : ActionKind) (what : IntentKind)
    → allows (new_bridge_request input context).allowed_actions kind ≡ true
    → intent_byte (bridge_action_intent kind) ≡ intent_byte what
    → Offers kind what
unfolding new_bridge_request allows action_byte bridge_action_intent intent_byte
offered-Offers input context ActionKind.unknown what e same = cc
offered-Offers input context ActionKind.list_files what e same =
    rw⁻¹ (intent_from what 1 (omega arith) same) may_list_files
offered-Offers input context ActionKind.read_file what e same =
    rw⁻¹ (intent_from what 2 (omega arith) same) may_read_file
offered-Offers input context ActionKind.write_file what e same = cc
offered-Offers input context ActionKind.delete_file what e same =
    rw⁻¹ (intent_from what 4 (omega arith) same) may_delete_file
offered-Offers input context ActionKind.stat_file what e same =
    rw⁻¹ (intent_from what 5 (omega arith) same) may_stat_file
offered-Offers input context ActionKind.show_help what e same = cc
offered-Offers input context ActionKind.show_history what e same =
    rw⁻¹ (intent_from what 7 (omega arith) same) may_show_history
offered-Offers input context ActionKind.show_version what e same =
    rw⁻¹ (intent_from what 8 (omega arith) same) may_show_version
offered-Offers input context ActionKind.show_ticks what e same =
    rw⁻¹ (intent_from what 9 (omega arith) same) may_show_ticks
offered-Offers input context ActionKind.show_memory_map what e same =
    rw⁻¹ (intent_from what 10 (omega arith) same) may_show_memory_map
offered-Offers input context ActionKind.set_mode what e same = cc
offered-Offers input context (ActionKind.other n) what e same = ground (arith, e)

bridged_plan-IsBridged :
    (a : BridgeResponse)
    → (validate_plan (bridged_plan a)).ok ≡ true
    → Offers a.action a.intent
    → IsBridged (bridged_plan a)
unfolding bridged_plan single_action_plan rounds
bridged_plan-IsBridged a ok offered =
    let plan = bridged_plan a in
    record {
      acceptable = (validate_plan_iff plan).0 ok;
      one = refl;
      from_llm = refl;
      offered = offered;
      risk_shown = λ k. llm_delete-HasRisk plan 0 ok refl (omega arith) k;
    }

check_result-IsBridged :
    (input : List ℕ) (context : Option Context) (result : BridgeResult)
    → (check_result (new_bridge_request input context) result).ok ≡ true
    → IsBridged (check_result (new_bridge_request input context) result).plan
unfolding check_result
check_result-IsBridged input context result e =
    let request = new_bridge_request input context in
    let a = result.response in
    let plan = bridged_plan a in
    let wanted = intent_byte (bridge_action_intent a.action) in
    elim (Bool-cases result.ok) [
      | inr fails ↦ cc (rw (fails, check_result) at e)
      | inl answered ↦ elim (Bool-cases (allows request.allowed_actions a.action)) [
        | inr fails ↦ cc (rw (answered, fails, check_result) at e)
        | inl offered ↦ elim (Bool-cases (wanted == intent_byte a.intent)) [
          | inr fails ↦ cc (rw (answered, offered, fails, check_result) at e)
          | inl same ↦ elim (Bool-cases (validate_plan plan).ok) [
            | inr fails ↦ cc (rw (answered, offered, same, fails, check_result) at e)
            | inl valid ↦
                let intent = (==_iff wanted (intent_byte a.intent)).0 same in
                rw (answered, offered, same, valid, check_result)
                  (bridged_plan-IsBridged a valid
                    (offered-Offers input context a.action a.intent offered intent))
          ]
        ]
      ]
    ]

-- Whatever the bridge answers, a plan that the planner of the language model hands over is one that the
-- validator accepts: a single action, of one of the eight kinds that the language model may ask for, with
-- the intent of that kind, and marked risky if it deletes a file.
pub plan_with_bridge-IsBridged :
    {W : Type 0} (bridge : Option (BridgeRequest → W → W × BridgeResult)) (input : List ℕ)
    (context : Option Context) (w : W)
    → (plan_with_bridge bridge input context w).1.ok ≡ true
    → IsBridged (plan_with_bridge bridge input context w).1.plan
unfolding plan_with_bridge
plan_with_bridge-IsBridged none input context w e = cc
plan_with_bridge-IsBridged (some ask) input context w e =
    check_result-IsBridged input context (ask (new_bridge_request input context) w).1 e
