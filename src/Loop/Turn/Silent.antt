-- ===== src/Loop/Turn/Silent.antt =====
-- A run of aegiscode/loop/harness.py whose model never answers.
use aegis_code.Prelude.{
  ◌≡◌, refl, ℕ, zero, suc, String, Bool, true, false, List, [], ◌∷◌, Option, none, some, Result, ok,
  err, Error,
}
use aegis_code.Json.{str, end, field}
use aegis_code.Context.{Message, Memory}
use aegis_code.Audit.Events.{Event, termination}
use aegis_code.Loop.Termination.{Reason, reason_text}
use aegis_code.Loop.Harness.{Harness, Loop, Turn, stop}
use aegis_code.Loop.Parts.{emit, terminate, crash, build_messages, attempt}
use aegis_code.Loop.Turn.{answered, recalled, continued, checked, timed, turn, resume, run, initial}

module _ {W : Type 0} (h : Harness W) where
  -- the model raises whatever it is asked
  abbrev pub IsSilent : Type 0
  IsSilent =
      (messages : List Message) (w : W)
      → (e : Error) × (v : W) × (h.complete messages w ≡ (err e, v))

  -- the one event of such a run
  abbrev pub last_event : Reason → Event
  last_event reason = record {
    task_id = h.ctx.task_id;
    step_index = 0;
    event_type = termination;
    payload = field "reason" (str (reason_text reason)) end;
  }

  module _ (silent : IsSilent) where
    attempt-fails :
        (retries left : ℕ) (messages : List Message) (w : W)
        → (e : Error) × (v : W) × (attempt h retries left messages w ≡ (err e, v))
    unfolding attempt
    attempt-fails retries zero messages w = (_, w, refl)
    attempt-fails retries (suc left) messages w =
        let (e, v, failed) = silent messages w in
        let (e', v', again) = attempt-fails retries left messages v in (e', v', rw failed again)

    -- a turn that stops with nothing but the end in the log
    Stops : Turn W → Type 0
    Stops t =
        (reason : Reason) × (s : Loop W) × (t ≡ stop reason s) × (s.log ≡ last_event reason ∷ [])

    -- a state before any event
    IsFresh : Loop W → Type 0
    IsFresh s = (s.log ≡ []) × (s.counters.step ≡ 0)

    terminate-Stops : (reason : Reason) (s : Loop W) → IsFresh s → Stops (terminate h reason s)
    unfolding terminate emit Stops IsFresh
    terminate-Stops reason s fresh = (reason, _, refl, rw (fresh.0, fresh.1) refl)

    recalled-Stops :
        (task : String) (s : Loop W) (r : Result (List Memory) × W)
        → IsFresh s
        → Stops (recalled h task s r)
    unfolding recalled crash answered IsFresh
    recalled-Stops task s (err e, w) fresh = terminate-Stops _ _ fresh
    recalled-Stops task s (ok memories, w) fresh =
        let retries = h.config.limits.llm_max_retries in
        let (e, v, failed) = attempt-fails retries retries (build_messages h task s memories) w in
        rw failed (terminate-Stops _ _ fresh)

    continued-Stops :
        (task : String) (s : Loop W) (c : Bool × W) → IsFresh s → Stops (continued h task s c)
    unfolding continued IsFresh
    continued-Stops task s (true, w) fresh = terminate-Stops _ _ fresh
    continued-Stops task s (false, w) fresh = recalled-Stops task _ _ fresh

    checked-Stops :
        (task : String) (s : Loop W) (o : Option Reason) → IsFresh s → Stops (checked h task s o)
    unfolding checked
    checked-Stops task s (some reason) fresh = terminate-Stops reason s fresh
    checked-Stops task s none fresh = continued-Stops task s _ fresh

    turn-Stops : (task : String) (s : Loop W) → IsFresh s → Stops (turn h task s)
    unfolding turn timed IsFresh
    turn-Stops task s fresh = checked-Stops task _ _ fresh

    resume-Stops :
        (n : ℕ) (task : String) (t : Turn W)
        → Stops t
        → (reason : Reason) × (s : Loop W) × (resume h n task t ≡ some (reason, s))
          × (s.log ≡ last_event reason ∷ [])
    unfolding resume Stops
    resume-Stops n task t (reason, s, is, log) = (reason, s, rw is refl, log)

    -- A run whose model never answers ends in its first turn, and logs nothing but its end.
    pub run-Silent :
        (n : ℕ) (task : String) (w : W)
        → (reason : Reason) × (s : Loop W) × (run h (suc n) task w ≡ some (reason, s))
          × (s.log ≡ last_event reason ∷ [])
    unfolding run resume IsFresh
    run-Silent n task w =
        resume-Stops n task (turn h task (initial h w)) (turn-Stops task (initial h w) (refl, refl))
