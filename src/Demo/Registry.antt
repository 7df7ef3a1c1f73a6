-- ===== src/Demo/Registry.antt =====
-- The scenarios of aegiscode/demo/scenarios.py with their success conditions. Titles are kept; the
-- descriptions and the learning objectives, which are only shown, are left out.
use aegis_code.Prelude.{
  ℕ, String, Bool, true, false, not, List, [], ◌∷◌, Option, none, some, map, Result, ok, err,
  key_error, nat_eq, ltb, ◌==◌, if◌then◌else◌,
}
use aegis_code.Json.{is_falsy}
use aegis_code.Demo.Scenarios.{
  RunOutcome, has_deny, deny_rule_id, feedback_categories, approved_then_superseded, among,
}

-- a success condition; its predicate may raise
pub record Condition : Type 0 where
  pub key : String
  pub label : String
  pub predicate : RunOutcome → Result Bool

pub record Assessment : Type 0 where
  pub key : String
  pub label : String
  pub passed : Bool

pub record Scenario : Type 0 where
  pub id : String
  pub title : String
  pub description : String
  pub learning_objective : String
  pub mock_script : List String
  pub interactive_approval : Bool
  pub enabled_tools : List String
  pub max_steps : ℕ
  pub max_consecutive_failures : ℕ
  pub fixture : Option String
  pub success_conditions : List Condition

abbrev passed_or_false : Result Bool → Bool
passed_or_false (ok b) = b
passed_or_false (err e) = false

-- evaluate
pub evaluate : List Condition → RunOutcome → List Assessment
evaluate conditions o =
    map
      (λ (c : Condition). record {
        key = c.key;
        label = c.label;
        passed = passed_or_false (c.predicate o);
      })
      conditions

abbrev condition : String → String → (RunOutcome → Bool) → Condition
condition key label p = record { key = key; label = label; predicate = λ o. ok (p o) }

abbrev pub dangerous_action_denial : Scenario
dangerous_action_denial = record {
  id = "dangerous-action-denial";
  title = "危险命令拦截";
  description = "MockLLM 提出 `rm -rf /`，真实治理引擎在执行前拒绝该命令。";
  learning_objective = "理解治理层如何在工具执行前拦截高危命令，并向 Agent 反馈 POLICY_DENIED。";
  mock_script = "{\"tool\": \"run_command\", \"arguments\": {\"command\": \"rm -rf /\"}}" ∷ [];
  interactive_approval = false;
  enabled_tools = "run_command" ∷ [];
  max_steps = 1;
  max_consecutive_failures = 5;
  fixture = none;
  success_conditions =
      condition "denied" "危险命令被拒绝(DENY)" has_deny
      ∷ condition "no_exec" "工具执行次数=0" (λ o. nat_eq o.tool_execution_count 0)
      ∷ condition "rule_id" "拒绝携带策略 rule_id" (λ o. not (is_falsy (deny_rule_id o)))
      ∷ condition "feedback" "Agent 收到 POLICY_DENIED 反馈"
          (λ o. among "POLICY_DENIED" (feedback_categories o))
      ∷ [];
}

abbrev pub feedback_driven_repair : Scenario
feedback_driven_repair = record {
  id = "feedback-driven-repair";
  title = "失败反馈驱动修复";
  description = "Agent 先写出错误实现，测试真实失败后收到反馈，再写出正确实现并通过验证。";
  learning_objective = "理解失败反馈如何驱动 Agent 修正动作，并由真实验证器确认完成。";
  mock_script =
      "{\"tool\": \"write_file\", \"arguments\": {\"path\": \"src/calc.py\", \"content\": \"def add(a, b):\\n    return a - b\\n\"}}"
      ∷ "{\"tool\": \"run_tests\", \"arguments\": {}}"
      ∷ "{\"tool\": \"write_file\", \"arguments\": {\"path\": \"src/calc.py\", \"content\": \"def add(a, b):\\n    return a + b\\n\"}}"
      ∷ "{\"tool\": \"run_tests\", \"arguments\": {}}" ∷ "{\"tool\": \"finish\", \"arguments\": {}}"
      ∷ [];
  interactive_approval = false;
  enabled_tools = "write_file" ∷ "run_tests" ∷ "finish" ∷ [];
  max_steps = 20;
  max_consecutive_failures = 5;
  fixture = some "calc";
  success_conditions =
      condition "completed" "最终验证通过 → COMPLETED" (λ o. o.final_state == "COMPLETED")
      ∷ condition "test_failure" "出现 TEST_FAILURE 反馈"
          (λ o. among "TEST_FAILURE" (feedback_categories o))
      ∷ condition "tools_ran" "工具真实执行(>0)" (λ o. ltb 0 o.tool_execution_count)
      ∷ [];
}

abbrev pub approval_binding_invalidation : Scenario
approval_binding_invalidation = record {
  id = "approval-binding-invalidation";
  title = "高风险操作审批 + 失效";
  description = "MockLLM 先写入需人工审批的文件并获批执行，随后审批解析器在绑定指纹后篡改动作参数，触发 SUPERSEDED 而不执行。";
  learning_objective = "理解审批指纹绑定机制：批准后动作发生偏移会使原审批失效，绝不执行被篡改的动作。";
  mock_script =
      "{\"tool\": \"write_file\", \"arguments\": {\"path\": \"docs/approved.txt\", \"content\": \"approved-write\\n\"}}"
      ∷ "{\"tool\": \"write_file\", \"arguments\": {\"path\": \"docs/superseded.txt\", \"content\": \"original-content-the-human-would-have-seen\\n\"}}"
      ∷ "{\"tool\": \"finish\", \"arguments\": {}}" ∷ [];
  interactive_approval = true;
  enabled_tools = "write_file" ∷ "finish" ∷ [];
  max_steps = 3;
  max_consecutive_failures = 5;
  fixture = none;
  success_conditions =
      condition "approved" "原动作获批准执行" (λ o. among "APPROVED" o.approval_states)
      ∷ condition "superseded" "改参后旧审批失效(SUPERSEDED)" (λ o. among "SUPERSEDED" o.approval_states)
      ∷ condition "flow" "审计含 APPROVED→SUPERSEDED" approved_then_superseded
      ∷ [];
}

-- REGISTRY, in the order of _ORDER
abbrev pub registry : List Scenario
registry = dangerous_action_denial ∷ feedback_driven_repair ∷ approval_binding_invalidation ∷ []

find_scenario : String → List Scenario → Option Scenario
find_scenario id [] = none
find_scenario id (s ∷ ss) = if s.id == id then some s else find_scenario id ss

found_or_unknown : String → Option Scenario → Result Scenario
found_or_unknown id none = err (key_error id)
found_or_unknown id (some s) = ok s

-- get_scenario
unfoldable pub get_scenario : String → Result Scenario
unfolding find_scenario found_or_unknown
get_scenario id = found_or_unknown id (find_scenario id registry)

-- list_scenarios
abbrev pub list_scenarios : List Scenario
list_scenarios = registry
