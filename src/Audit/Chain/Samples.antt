-- ===== src/Audit/Chain/Samples.antt =====
-- A small table of two tasks, and the theorems on the chain at it.
use aegis_code.Prelude.{◌≡◌, refl, String, true, List, [], some, none, ◌⊎◌, ◌==◌, if◌then◌else◌}
use aegis_code.Json.{str, field, end}
use aegis_code.Audit.Events.{Event, action_proposed, feedback, termination}
use aegis_code.Audit.Chain.{Row, genesis, task_rows, prev_hash, append, verify_chain}
use aegis_code.Audit.Chain.Valid.{verify_chain-append}
use aegis_code.Audit.Chain.Pinned.{Same, ClashIn, verify_chain-pinned}

-- a digest that is the same for every text
abbrev digest : String → String
digest s = genesis

abbrev unchanged : String → String
unchanged s = s

abbrev proposed : Event
proposed = record {
  task_id = "t1";
  step_index = 0;
  event_type = action_proposed;
  payload = field "tool" (str "finish") end;
}

abbrev told : Event
told = record { task_id = "t2"; step_index = 0; event_type = feedback; payload = end }

abbrev ended : Event
ended = record { task_id = "t1"; step_index = 1; event_type = termination; payload = end }

abbrev table : List Row
table = append digest unchanged "now" told (append digest unchanged "now" proposed [])

table_verifies : verify_chain digest "t1" (some 1) table ≡ (true, none)
unfolding verify_chain append
table_verifies = refl

verify_chain-append_example :
    verify_chain digest "t1"
      (some (if "t1" == "t1" then 2 else 1))
      (append digest unchanged "later" ended table)
    ≡ (true, none)
verify_chain-append_example =
    verify_chain-append digest unchanged "later" "t1" 1 ended table table_verifies

-- the same log with another payload
abbrev altered : List Row
altered =
    append digest unchanged "now" told
      (append digest unchanged "now" (record proposed { payload = end }) [])

altered_verifies : verify_chain digest "t1" (some 1) altered ≡ (true, none)
unfolding verify_chain append
altered_verifies = refl

same_end : prev_hash "t1" table ≡ prev_hash "t1" altered
unfolding prev_hash append
same_end = refl

verify_chain-pinned_example :
    Same (task_rows "t1" table) (task_rows "t1" altered)
    ⊎ ClashIn digest genesis (task_rows "t1" table) genesis (task_rows "t1" altered)
verify_chain-pinned_example =
    verify_chain-pinned digest (λ x. refl) "t1" 1 table altered table_verifies altered_verifies
      same_end
