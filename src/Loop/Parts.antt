-- ===== src/Loop/Parts.antt =====
-- The helpers of `HarnessCore` in aegiscode/loop/harness.py: the log, the context and the model.
use aegis_code.Prelude.{
  ℕ, zero, suc, ◌-◌, String, List, [], ◌∷◌, ◌++◌, Option, none, some, Result, ok, err,
  runtime_error, ◌==◌, if◌then◌else◌,
}
use aegis_code.Prelude.Text.{◌+s◌}
use aegis_code.Prelude.Text.Repr.{decimal}
use aegis_code.Json.{str, Fields, end, field}
use aegis_code.Context.{Message, Memory, build_context}
use aegis_code.Governance.Decision.{Verdict, Action}
use aegis_code.Audit.Events.{EventType, termination}
use aegis_code.Loop.Termination.{Reason, reason_text, internal_error}
use aegis_code.Loop.Harness.{
  MemoryRow, PromptBuilder, Harness, Loop, Turn, stop, step_failed, append_step,
}

-- the rows that may guide the agent: not those of an agent
pub usable_memories : List MemoryRow → List Memory
usable_memories [] = []
usable_memories (row ∷ rows) =
    if row.source == "agent" then usable_memories rows else row.memory ∷ usable_memories rows

unfoldable pub with_rows : {W : Type 0} → Result (List MemoryRow) × W → Result (List Memory) × W
with_rows (ok rows, w) = (ok (usable_memories rows), w)
with_rows (err e, w) = (err e, w)

-- `finish_rejected`, `denied` and the others differ in what they tell the model
pub feedback_fields : String → String → Fields
feedback_fields category detail = field "category" (str category) (field "detail" (str detail) end)

unfoldable pub or_again : {W : Type 0} → Result String × W → Result String × W → Result String × W
or_again (ok text, w) again = (ok text, w)
or_again (err e, w) again = again

module _ {W : Type 0} (h : Harness W) where
  -- self.audit.append(self.ctx.task_id, c.step, …)
  unfoldable pub emit : EventType → Fields → Loop W → Loop W
  emit event_type payload s = record s {
    log =
        s.log
        ++ record {
          task_id = h.ctx.task_id;
          step_index = s.counters.step;
          event_type = event_type;
          payload = payload;
        }
          ∷ [];
  }

  -- _audit_term and the return
  unfoldable pub terminate : Reason → Loop W → Turn W
  terminate reason s =
      stop reason (emit termination (field "reason" (str (reason_text reason)) end) s)

  -- an exception in the turn's body
  unfoldable pub crash : Loop W → W → Turn W
  crash s w = terminate internal_error (record s { world = w })

  unfoldable pub remember_step : Action → Verdict → String → String → Loop W → Loop W
  unfolding append_step
  remember_step action v category summary s = record s {
    recent_steps = append_step h.config.limits.max_steps s.recent_steps action v category summary;
  }

  -- a step that counts as a failure, with what the model is told
  unfoldable pub failing : String → Loop W → Loop W
  failing fb s = record s { counters = step_failed s.counters; last_feedback = fb }

  -- _retrieve_memories
  unfoldable pub retrieve_memories : W → Result (List Memory) × W
  unfolding with_rows
  retrieve_memories w = retrieve_from h.memory_store h.project_id
    where
      retrieve_from :
          Option (String → ℕ → W → Result (List MemoryRow) × W)
          → Option String
          → Result (List Memory) × W
      retrieve_from (some store) (some project) =
          with_rows (store project h.config.memory.retrieval_top_k w)
      retrieve_from _ _ = (ok [], w)

  prompt_parts : Option PromptBuilder → ℕ → String × String
  prompt_parts none remaining = ("", "")
  prompt_parts (some p) remaining = (p.system_prompt remaining, p.tool_protocol)

  -- _build, with the memories retrieved
  pub build_messages : String → Loop W → List Memory → List Message
  unfolding prompt_parts
  build_messages task s memories =
      let parts = prompt_parts h.prompt_builder (h.config.limits.max_steps - s.counters.step) in
      build_context parts.0 parts.1 task s.recent_steps s.last_feedback memories
        h.config.memory.context_budget_chars

  -- _complete_with_retry: `left` of the `retries` attempts are still to be made
  unfoldable pub attempt : ℕ → ℕ → List Message → W → Result String × W
  unfolding or_again
  attempt retries zero messages w =
      (err (runtime_error ("LLM failed after " +s decimal retries +s " attempts")), w)
  attempt retries (suc left) messages w =
      let first = h.complete messages w in or_again first (attempt retries left messages first.1)
