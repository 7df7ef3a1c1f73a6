-- ===== src/Loop/Turn/Samples.antt =====
-- A harness whose model always finishes, and the theorems on its runs.
use aegis_code.Prelude.{
  ℕ, ◌≡◌, refl, ap, sym, subst, String, Bool-cases, inr, ◌==◌, true, false, List, [], ◌∷◌, ◌++◌,
  some, none, ok, arith, inl,
}
use aegis_code.Prelude.Text.{mem_text}
use aegis_code.Json.{get, str, obj, Fields, field, end}
use aegis_code.Tools.{success, result, Ctx, Tool, get_tool}
use aegis_code.Config.{default_config}
use aegis_code.Governance.Decision.{Action, Verdict, allow, evaluate}
use aegis_code.Governance.Dispatcher.{
  Dispatcher, dispatch, path_fence_reason, run_command_fence_reason, finish_run,
}
use aegis_code.Governance.Dispatcher.Runs.{Denies, dispatch-runs, dispatch-Denies}
use aegis_code.Audit.Events.{
  Event, EventType, action_proposed, governance_decision, tool_executed, termination,
}
use aegis_code.Loop.Termination.{Reason, completed, reason_text, zero_counters, decide_termination}
use aegis_code.Loop.Harness.{Harness, Loop, tool_payload}
use aegis_code.Loop.Turn.{
  initial, run, resume, turn, timed, checked, continued, is_cancelled, recalled, answered, parsed,
  dispatched, judged, executed, verified,
}
use aegis_code.Loop.Parts.{retrieve_memories, attempt, emit, terminate}
use aegis_code.Loop.Turn.Journal.{Quiet, Finished}
use aegis_code.Loop.Turn.Protocol.{Protocol}
use aegis_code.Loop.Turn.Ordered.{run-Protocol}
use aegis_code.Loop.Turn.Denied.{world_of, parsed-Unpermitted}
use aegis_code.Loop.Turn.Keeps.{run-Keeps}
use aegis_code.Loop.Turn.Kept.{PartsKeep}
use aegis_code.Loop.Turn.Returns.{Within, run-returns, run-Closed, run-Within, run-Finished}

abbrev finish_tool : Tool ℕ
finish_tool = record {
  name = "finish";
  description = "";
  parameters = end;
  run = λ args ctx w. (ok (result "finish" success none "done"), w);
}

abbrev allowed : Verdict
allowed = record {
  decision = allow;
  rule_id = "TIER_FINISH";
  reason = "finish action always allowed";
}

abbrev gates : Dispatcher ℕ
gates = record {
  registry = ("finish", finish_tool) ∷ [];
  engine = record { rules = []; default_fn = λ a. ok allowed };
  workspace_root = "/w";
  sensitive_patterns = [];
  files = λ w. record { realpath = λ p. p; exists = λ p. false; islink = λ p. false };
}

abbrev finish : Action
finish = record { tool = "finish"; arguments = end }

abbrev ctx : Ctx
ctx = record { task_id = "t1"; workspace_root = none; resolve = λ p. p; write_max_bytes = 1000 }

finish_dispatched :
    dispatch gates finish ctx 0 ≡ (ok (allowed, some (result "finish" success none "done")), 0)
unfolding get_tool path_fence_reason run_command_fence_reason evaluate finish_run mem_text
finish_dispatched =
    dispatch-runs gates finish ctx 0 finish_tool allowed refl refl refl refl (inl refl)

abbrev finishing : Harness ℕ
finishing = record {
  complete = λ messages w. (ok "{}", w);
  parse_action = λ text. ok finish;
  dispatcher = gates;
  sha256 = λ s. s;
  config = default_config;
  ctx = ctx;
  final_verifier = λ w. (ok true, w);
  approval_resolver = none;
  cancel_check = none;
  memory_store = none;
  project_id = none;
  prompt_builder = none;
  elapsed = λ w. (0, w);
}

-- what each event of the run is about
abbrev event : EventType → Fields → Event
event t payload = record { task_id = "t1"; step_index = 0; event_type = t; payload = payload }

abbrev final : Loop ℕ
final = record {
  counters = zero_counters;
  last_feedback = "";
  recent_steps = [];
  tracker = [];
  log =
      event action_proposed (field "tool" (str "finish") (field "arguments" (obj end) end))
      ∷ event governance_decision (
          field "tool" (str "finish") (
            field "decision" (str "ALLOW") (
              field "rule" (str "TIER_FINISH")
                (field "reason" (str "finish action always allowed") end))))
      ∷ event tool_executed (field "tool" (str "finish") (field "status" (str "success") end))
      ∷ event termination (field "reason" (str "COMPLETED") end)
      ∷ [];
  world = 0;
}

-- the first turn up to the dispatcher
abbrev proposed : Loop ℕ
proposed = record {
  counters = zero_counters;
  last_feedback = "";
  recent_steps = [];
  tracker = [];
  log = event action_proposed (field "tool" (str "finish") (field "arguments" (obj end) end)) ∷ [];
  world = 0;
}

run_ends : run finishing 1 "task" 0 ≡ some (completed, final)
unfolding run resume turn timed checked continued is_cancelled recalled retrieve_memories answered
    attempt parsed dispatched decide_termination emit judged executed tool_payload get verified
    terminate aegis_code.Loop.Harness.parse_succeeded aegis_code.Json.is_falsy
run_ends =
    ap (λ d. resume finishing 0 "task" (dispatched finishing finish proposed d)) finish_dispatched

run-returns_example : (out : Reason × Loop ℕ) × (run finishing 200 "task" 0 ≡ some out)
run-returns_example = run-returns finishing "task" 200 0 (omega arith)

run-Closed_example :
    (before : List Event) × (last : Event) × (final.log ≡ before ++ last ∷ [])
    × Quiet before
    × (last.event_type ≡ termination)
    × (last.payload ≡ field "reason" (str (reason_text completed)) end)
run-Closed_example = run-Closed finishing "task" 1 0 completed final run_ends

run-Within_example : Within default_config.limits final.counters
run-Within_example = run-Within finishing "task" 1 0 completed final run_ends

run-Finished_example :
    (before : List Event) × (last : Event) × (final.log ≡ before ++ last ∷ [])
    × Finished finishing before final
run-Finished_example = run-Finished finishing "task" 1 0 completed final run_ends refl

run-Protocol_example : Protocol final.log
run-Protocol_example = run-Protocol finishing "task" 1 0 completed final run_ends

abbrev strange : Action
strange = record { tool = "launch"; arguments = end }

not_registered : get_tool "launch" gates.registry ≡ none
unfolding get_tool
not_registered = refl

strange-Denies : Denies gates strange ctx 0 (dispatch gates strange ctx 0)
strange-Denies = dispatch-Denies gates strange ctx 0 not_registered

parsed-Unpermitted_example : world_of (parsed finishing "{}" (initial finishing 0) (ok strange)) ≡ 0
parsed-Unpermitted_example =
    parsed-Unpermitted finishing "{}" (initial finishing 0) strange strange-Denies.0
      strange-Denies.1 0 strange-Denies.2 (inl strange-Denies.3)

some_tool : {a b : Tool ℕ} → some a ≡ some b → a ≡ b
some_tool e = cc

only_finish :
    (name : String) (tool : Tool ℕ) → get_tool name gates.registry ≡ some tool → tool ≡ finish_tool
unfolding get_tool
only_finish name tool h = elim (Bool-cases ("finish" == name)) [
  | inl is ↦ sym (some_tool (rw is at h))
  | inr other ↦ absurd (ground (arith, rw other at h))
]

finish-stays :
    (name : String) (tool : Tool ℕ) (arguments : Fields) (w : ℕ)
    → get_tool name gates.registry ≡ some tool
    → w ≡ 0
    → (tool.run arguments ctx w).1 ≡ 0
finish-stays name tool arguments w h zero_before =
    subst (λ (t : Tool ℕ). (t.run arguments ctx w).1 ≡ 0) (sym (only_finish name tool h))
      zero_before

finishing_keeps : PartsKeep finishing (λ w. w ≡ 0)
finishing_keeps = record {
  complete = λ messages w p. p;
  elapsed = λ w p. p;
  final_verifier = λ w p. p;
  resolver = λ f has action v w p. absurd (ground (arith, has));
  cancelling = λ f has w p. absurd (ground (arith, has));
  memory = λ f has project top_k w p. absurd (ground (arith, has));
  permitted = λ action tool v w reg fences judged permits p.
      finish-stays action.tool tool action.arguments w reg p;
  after_approval = λ f action tool w has reg fences p. absurd (ground (arith, has));
}

run-Keeps_example : final.world ≡ 0
run-Keeps_example =
    run-Keeps finishing (λ w. w ≡ 0) finishing_keeps 1 "task" 0 completed final refl run_ends
