-- ===== src/Context/Budget.antt =====
-- Which steps `build_context` of aegiscode/memory/context_builder.py summarises.
use mathlib.Core.List.{append-nil, append_assoc}
use native.Mathlib.Nat.{add-zero}
use aegis_code.Prelude.{
  ℕ, zero, suc, ◌+◌, ◌≤◌, ◌<◌, ◌≡◌, refl, ap, subst, ltb→lt, ltb→le, ◌∙◌, String, List, [], ◌∷◌,
  ◌++◌, map, arith, length, take, drop, ltb, Bool-cases, inl, inr, ◌⊎◌,
}
use aegis_code.Context.{
  Message, StepRecord, Memory, total_length, head_messages, tail_messages, short_step,
  detailed_from, shrink, build_context,
}

module _ (head tail : List Message) where
  -- The messages with the first `k` of the steps summarised, behind what is summarised already.
  abbrev laid : List Message → ℕ → List StepRecord → ℕ → List Message
  laid done i steps k =
      head
      ++ (done ++ map short_step (take k steps))
      ++ detailed_from (i + k) (drop k steps)
      ++ tail

  -- `out` summarises as few steps as the budget asks for, the oldest first.
  pub record Fewest (budget : ℕ) (done : List Message) (i : ℕ) (steps : List StepRecord)
      (out : List Message) : Type 0 where
    pub summarised : ℕ
    pub bounded : summarised ≤ length steps
    pub layout : out ≡ laid done i steps summarised
    pub fits : (total_length out ≤ budget) ⊎ (summarised ≡ length steps)
    pub needed : (k : ℕ) → k < summarised → budget < total_length (laid done i steps k)

  laid-zero :
      (done : List Message) (i : ℕ) (steps : List StepRecord)
      → head ++ done ++ detailed_from i steps ++ tail ≡ laid done i steps 0
  laid-zero done i steps = rw (append-nil, add-zero) refl

  laid-nil : (done : List Message) (i : ℕ) → head ++ done ++ tail ≡ laid done i [] 0
  unfolding detailed_from
  laid-nil done i = rw (append-nil, append-nil) refl

  laid-suc :
      (done : List Message) (i : ℕ) (s : StepRecord) (ss : List StepRecord) (k : ℕ)
      → laid (done ++ short_step s ∷ []) (i + 1) ss k ≡ laid done i (s ∷ ss) (suc k)
  laid-suc done i s ss k =
      ap (λ d. head ++ d ++ detailed_from (i + 1 + k) (drop k ss) ++ tail)
        (append_assoc done (short_step s ∷ []) (map short_step (take k ss)))
      ∙ ap
          (λ n.
            head
            ++ (done ++ short_step s ∷ map short_step (take k ss))
            ++ detailed_from n (drop k ss)
            ++ tail)
          (index_suc i k)
    where
      index_suc : (m n : ℕ) → m + 1 + n ≡ m + suc n
      index_suc m n = omega arith

  -- one more step in front
  module _ (budget : ℕ) (done : List Message) (i : ℕ) (s : StepRecord) (ss : List StepRecord) where
    abbrev msgs : List Message
    msgs = head ++ done ++ detailed_from i (s ∷ ss) ++ tail

    abbrev rest : List Message
    rest = shrink budget head tail (done ++ short_step s ∷ []) (i + 1) ss

    needed-cons :
        (n : ℕ)
        → budget < total_length msgs
        → ((k : ℕ) → k < n → budget < total_length (laid (done ++ short_step s ∷ []) (i + 1) ss k))
        → (k : ℕ) → k < suc n
        → budget < total_length (laid done i (s ∷ ss) k)
    needed-cons n over h zero lt =
        subst (λ m. budget < total_length m) (laid-zero done i (s ∷ ss)) over
    needed-cons n over h (suc k) lt =
        subst (λ m. budget < total_length m) (laid-suc done i s ss k) (h k (omega arith))

    over-Fewest :
        budget < total_length msgs
        → Fewest budget (done ++ short_step s ∷ []) (i + 1) ss rest
        → Fewest budget done i (s ∷ ss) rest
    over-Fewest over f = record {
      summarised = suc f.summarised;
      bounded = omega (arith, f.bounded);
      layout = f.layout ∙ laid-suc done i s ss f.summarised;
      fits = elim f.fits [ inl fit ↦ inl fit | inr all_of ↦ inr (ap suc all_of) ];
      needed = needed-cons f.summarised over f.needed;
    }

    fit-Fewest : total_length msgs ≤ budget → Fewest budget done i (s ∷ ss) msgs
    fit-Fewest fit = record {
      summarised = 0;
      bounded = omega arith;
      layout = laid-zero done i (s ∷ ss);
      fits = inl fit;
      needed = λ k lt. absurd (omega arith);
    }

  shrink-Fewest :
      (budget : ℕ) (done : List Message) (i : ℕ) (steps : List StepRecord)
      → Fewest budget done i steps (shrink budget head tail done i steps)
  unfolding shrink
  shrink-Fewest budget done i [] = record {
    summarised = 0;
    bounded = omega arith;
    layout = laid-nil done i;
    fits = inr refl;
    needed = λ k lt. absurd (omega arith);
  }
  shrink-Fewest budget done i (s ∷ ss) =
      elim (Bool-cases (ltb budget (total_length (msgs budget done i s ss)))) [
        | inl over ↦ rw over (
            over-Fewest budget done i s ss (ltb→lt _ _ over)
              (shrink-Fewest budget (done ++ short_step s ∷ []) (i + 1) ss))
        | inr fit ↦ rw fit (fit-Fewest budget done i s ss (ltb→le _ _ fit))
      ]

-- The messages are the system prompt and the task, the steps in order, and the feedback and the
-- memories; the oldest steps are summarised, as few as bring the text within the budget, and all of
-- them if none do.
pub build_context-Fewest :
    (system_prompt tool_protocol task : String) (recent_steps : List StepRecord)
    (last_feedback : String) (memories : List Memory) (budget_chars : ℕ)
    → Fewest
        (head_messages system_prompt tool_protocol task)
        (tail_messages last_feedback memories)
        budget_chars
        []
        0
        recent_steps
        (build_context system_prompt tool_protocol task recent_steps last_feedback memories
          budget_chars)
unfolding build_context
build_context-Fewest system_prompt tool_protocol task recent_steps last_feedback memories
      budget_chars =
    shrink-Fewest (head_messages system_prompt tool_protocol task)
      (tail_messages last_feedback memories) budget_chars [] 0 recent_steps
