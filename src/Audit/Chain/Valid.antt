-- ===== src/Audit/Chain/Valid.antt =====
-- The chain of aegiscode/audit/chain.py: what an append keeps, and what a verification finds.
use mathlib.Core.List.{append-nil}
use aegis_code.Prelude.{
  ℕ, ◌+◌, ◌≡◌, ◌↔◌, refl, ap, ◌∙◌, String, true, false, List, [], ◌∷◌, ◌++◌, Option, none, some,
  arith, length, length-append, if◌then◌else◌, ◌==◌, eq_iff, ◌⊎◌, inl, inr, Bool-cases,
}
use aegis_code.Prelude.Text.{◌+s◌}
use aegis_code.Audit.Events.{Event}
use aegis_code.Json.{obj}
use aegis_code.Json.Dumps.{dumps}
use aegis_code.Audit.Chain.{
  str_event, Row, genesis, body, row_body, task_rows, last_hash, prev_hash, append, row_holds, walk,
  verdict_of, verify_chain,
}

module _ (sha256 : String → String) where
  -- each row's stored hashes are those of the rows up to it
  unfoldable pub Chained : String → List Row → Type 0
  Chained prev [] = Unit
  Chained prev (r ∷ rs) =
      (r.prev_hash ≡ prev) × (r.hash ≡ sha256 (prev +s row_body r)) × Chained r.hash rs

  row_holds_iff :
      (prev : String) (r : Row)
      → (row_holds sha256 prev r ≡ true)
        ↔ (r.prev_hash ≡ prev) × (r.hash ≡ sha256 (prev +s row_body r))
  unfolding row_holds
  row_holds_iff prev r =
      ground (arith, eq_iff r.prev_hash prev, eq_iff r.hash (sha256 (prev +s row_body r)))

  none-some : {n : ℕ} → some n ≡ none → ⊥
  none-some e = ground arith

  walk-Chained :
      (prev : String) (n : ℕ) (rs : List Row)
      → Chained prev rs
      → walk sha256 prev n rs ≡ (none, n + length rs)
  unfolding walk Chained
  walk-Chained prev n [] c = ap (λ m. (none, m)) (omega arith)
  walk-Chained prev n (r ∷ rs) (p, q, c) =
      rw ((row_holds_iff prev r).1 (p, q))
        (walk-Chained r.hash (n + 1) rs c ∙ ap (λ m. (none, m)) (omega arith))

  Chained-walk :
      (prev : String) (n m : ℕ) (rs : List Row)
      → walk sha256 prev n rs ≡ (none, m)
      → Chained prev rs × (m ≡ n + length rs)
  unfolding walk Chained
  Chained-walk prev n m [] e = (tt, omega (arith, ap (λ p. p.1) e))
  Chained-walk prev n m (r ∷ rs) e = elim (Bool-cases (row_holds sha256 prev r)) [
    | inl h ↦
        let c = Chained-walk r.hash (n + 1) m rs (rw h at e) in
        let both = (row_holds_iff prev r).0 h in ((both.0, both.1, c.0), omega (arith, c.1))
    | inr h ↦ absurd (none-some (ap (λ p. p.0) (rw h at e)))
  ]

  Chained-append :
      (prev : String) (rs : List Row) (r : Row)
      → Chained prev rs
      → r.prev_hash ≡ last_hash prev rs
      → r.hash ≡ sha256 (last_hash prev rs +s row_body r)
      → Chained prev (rs ++ r ∷ [])
  unfolding Chained last_hash
  Chained-append prev [] r c p q = (p, q, tt)
  Chained-append prev (s ∷ rs) r (a, b, c) p q = (a, b, Chained-append s.hash rs r c p q)

  pub task_rows-append :
      (task_id : String) (rows more : List Row)
      → task_rows task_id (rows ++ more) ≡ task_rows task_id rows ++ task_rows task_id more
  unfolding task_rows
  task_rows-append task_id [] more = refl
  task_rows-append task_id (r ∷ rows) more = elim (Bool-cases (r.task_id == task_id)) [
    | inl e ↦ rw e (ap (λ rs. r ∷ rs) (task_rows-append task_id rows more))
    | inr e ↦ rw e (task_rows-append task_id rows more)
  ]

  verdict_of_sound :
      (n : ℕ) (w : Option ℕ × ℕ)
      → verdict_of sha256 (some n) w ≡ (true, none)
      → (w.0 ≡ none) × (w.1 ≡ n)
  unfolding verdict_of
  verdict_of_sound n (some step, m) e = ground arith
  verdict_of_sound n (none, m) e = (refl, ground arith)

  verdict_of_complete : (n m : ℕ) → m ≡ n → verdict_of sha256 (some n) (none, m) ≡ (true, none)
  unfolding verdict_of
  verdict_of_complete n m e = ground arith

  -- A verification that expects a count succeeds exactly where the task's rows are chained from
  -- the genesis hash and are as many as expected.
  pub verify_chain-expected :
      (task_id : String) (n : ℕ) (rows : List Row)
      → (verify_chain sha256 task_id (some n) rows ≡ (true, none))
        ↔ Chained genesis (task_rows task_id rows) × (length (task_rows task_id rows) ≡ n)
  unfolding verify_chain
  verify_chain-expected task_id n rows = (
    λ e.
        let w = verdict_of_sound n _ e in
        let c = Chained-walk genesis 0 n rs (λ i. (w.0 i, w.1 i)) in (c.0, omega (arith, c.1)),
    λ c.
        rw (walk-Chained genesis 0 rs c.0)
          (verdict_of_complete n (0 + length rs) (omega (arith, c.1))),
  )
    where
      rs : List Row
      rs = task_rows task_id rows

  append-Chained :
      (redact : String → String) (timestamp task_id : String) (n : ℕ) (e : Event) (rows : List Row)
      → Chained genesis (task_rows task_id rows) × (length (task_rows task_id rows) ≡ n)
      → (e.task_id == task_id ≡ true) ⊎ (e.task_id == task_id ≡ false)
      → (Chained genesis (task_rows task_id (append sha256 redact timestamp e rows))
          × (length (task_rows task_id (append sha256 redact timestamp e rows))
              ≡ (if e.task_id == task_id then n + 1 else n)))
  unfolding append task_rows prev_hash row_body
  append-Chained redact timestamp task_id n e rows (c, l) (inl same) =
      rw (task_rows-append task_id rows _, same)
        (
          Chained-append genesis (task_rows task_id rows) _ c prev
              (ap (λ p. sha256 (p +s text)) prev),
          omega (arith, length-append (task_rows task_id rows) _, l),
        )
    where
      text : String
      text =
          body e.task_id e.step_index (str_event e.event_type) timestamp
            (redact (dumps (obj e.payload)))

      prev :
          last_hash genesis (task_rows e.task_id rows) ≡ last_hash genesis (task_rows task_id rows)
      prev = ap (λ t. last_hash genesis (task_rows t rows)) ((eq_iff e.task_id task_id).0 same)
  append-Chained redact timestamp task_id n e rows (c, l) (inr other) =
      rw (task_rows-append task_id rows _, other, append-nil) (c, l)

  -- A verified log stays verified when an event of any task is appended: the task's count goes up
  -- by one where the event is the task's, and stays where it is another's.
  pub verify_chain-append :
      (redact : String → String) (timestamp task_id : String) (n : ℕ) (e : Event) (rows : List Row)
      → verify_chain sha256 task_id (some n) rows ≡ (true, none)
      → verify_chain sha256 task_id
          (some (if e.task_id == task_id then n + 1 else n))
          (append sha256 redact timestamp e rows)
        ≡ (true, none)
  verify_chain-append redact timestamp task_id n e rows v =
      let before = (verify_chain-expected task_id n rows).0 v in
      (verify_chain-expected task_id _ _).1 (
        append-Chained redact timestamp task_id n e rows before (Bool-cases (e.task_id == task_id)))
