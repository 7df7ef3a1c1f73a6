-- ===== src/Demo/Wiring/Silent.antt =====
-- The harness of aegiscode/demo/service.py for a workspace that the manager has not registered.
use aegis_code.Prelude.{◌≡◌, refl, ℕ, suc, String, Bool, [], ◌∷◌, Option, some}
use aegis_code.Llm.{complete_mock-empty}
use aegis_code.Loop.Termination.{Reason}
use aegis_code.Loop.Harness.{Harness, Loop}
use aegis_code.Loop.Turn.{run}
use aegis_code.Loop.Turn.Silent.{last_event, run-Silent}
use aegis_code.Demo.Wiring.{Stage, complete_keyless, fallback_harness}

module _ {W : Type 0} (g : Stage W) where
  abbrev harness : String → String → String → Option (W → Bool × W) → Harness W
  harness allowed_base task_id workspace cancel_check =
      fallback_harness g allowed_base task_id workspace cancel_check

  -- A run of the harness for a workspace without a scenario ends in its first turn and logs nothing
  -- but its end.
  pub fallback_harness-Silent :
      (allowed_base task_id workspace : String) (cancel_check : Option (W → Bool × W)) (n : ℕ)
      (task : String) (w : W)
      → (reason : Reason) × (s : Loop W) × (run
            (harness allowed_base task_id workspace cancel_check)
            (suc n)
            task
            w
          ≡ some (reason, s))
        × (s.log ≡ last_event (harness allowed_base task_id workspace cancel_check) reason ∷ [])
  unfolding complete_keyless fallback_harness
  fallback_harness-Silent allowed_base task_id workspace cancel_check =
      run-Silent (harness allowed_base task_id workspace cancel_check)
        (λ messages w. let (e, raised) = complete_mock-empty messages in (e, w, rw raised refl))
