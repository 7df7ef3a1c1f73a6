-- ===== src/Context/Samples.antt =====
-- A concrete context of one step, and the theorem on its budget at it.
use aegis_code.Prelude.{List, [], ◌∷◌}
use aegis_code.Context.{StepRecord, head_messages, tail_messages, build_context}
use aegis_code.Context.Budget.{Fewest, build_context-Fewest}

abbrev one_step : List StepRecord
one_step =
    record {
      tool = "read_file";
      governance_decision = "ALLOW";
      feedback_category = "SUCCESS";
      detail = "a long text that is left out of the summary, and some more of the same";
    }
    ∷ []

build_context-Fewest_example :
    Fewest
      (head_messages "s" "t" "task")
      (tail_messages "" [])
      100
      []
      0
      one_step
      (build_context "s" "t" "task" one_step "" [] 100)
build_context-Fewest_example = build_context-Fewest "s" "t" "task" one_step "" [] 100
