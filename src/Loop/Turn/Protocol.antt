-- ===== src/Loop/Turn/Protocol.antt =====
-- The order of the events that the parts of a step log in aegiscode/loop/harness.py.
use aegis_code.Prelude.{
  ◌≡◌, refl, String, Bool, true, false, List, [], ◌∷◌, ◌++◌, Option, none, some, Result, ok, err,
  arith, sym, Bool-cases, ◌⊎◌, inl, inr, subst, ◌==◌,
}
use aegis_code.Json.{null, str, Fields, end, get, get_or}
use aegis_code.Tools.{ToolResult}
use aegis_code.Governance.Decision.{
  Decision, allow, allow_with_audit, require_approval, deny, value, is_deny, is_require_approval,
  Verdict, Action,
}
use aegis_code.Governance.Dispatcher.{Executed}
use aegis_code.Audit.Events.{
  EventType, governance_decision, approval_decided, tool_executed, feedback, termination, Event,
}
use aegis_code.Loop.Termination.{Reason, completed, internal_error}
use aegis_code.Loop.Harness.{Harness, Loop, Turn, stop, next, is_superseded}
use aegis_code.Loop.Parts.{emit, terminate, crash, remember_step, failing}
use aegis_code.Loop.Turn.{
  settled, verified, executed, refused, judged, approval_fields, approved, verdict_fields,
}

-- an event that permits a tool to run: a verdict of ALLOW or ALLOW_WITH_AUDIT, or an approval
abbrev pub Permits : Event → Type 0
Permits e =
    ((e.event_type ≡ governance_decision)
      × ((get_or "decision" null e.payload ≡ str "ALLOW")
          ⊎ (get_or "decision" null e.payload ≡ str "ALLOW_WITH_AUDIT")))
    ⊎ ((e.event_type ≡ approval_decided) × (get_or "state" null e.payload ≡ str "APPROVED"))

abbrev pub is_run : EventType → Bool
is_run tool_executed = true
is_run _ = false

-- every TOOL_EXECUTED stands straight behind an event that permits it
pub data Protocol : List Event → Type 0 where
  empty : Protocol []
  other :
      (log : List Event) (e : Event)
      → Protocol log
      → is_run e.event_type ≡ false
      → Protocol (log ++ e ∷ [])
  ran :
      (log : List Event) (a e : Event)
      → Protocol (log ++ a ∷ [])
      → Permits a
      → Protocol ((log ++ a ∷ []) ++ e ∷ [])

-- the last event permits a run
pub record LastPermits (log : List Event) : Type 0 where
  pub earlier : List Event
  pub last : Event
  pub split : log ≡ earlier ++ last ∷ []
  pub permits : Permits last

permitted-Protocol :
    (log : List Event) (e : Event) → Protocol log → LastPermits log → Protocol (log ++ e ∷ [])
permitted-Protocol log e p l =
    subst (λ xs. Protocol (xs ++ e ∷ [])) (sym l.split)
      (ran l.earlier l.last e (subst Protocol l.split p) l.permits)

-- what a verdict that neither denies nor asks is
verdict-permits :
    (d : Decision)
    → is_require_approval d ≡ false
    → is_deny d ≡ false
    → (str (value d) ≡ str "ALLOW") ⊎ (str (value d) ≡ str "ALLOW_WITH_AUDIT")
verdict-permits allow a b = inl refl
verdict-permits allow_with_audit a b = inr refl
verdict-permits require_approval a b = ground (arith, a)
verdict-permits deny a b = ground (arith, b)

module _ {W : Type 0} (h : Harness W) where
  -- the log after a turn, whether it is the last or not
  unfoldable pub Ordered : Turn W → Type 0
  Ordered (stop reason s) = Protocol s.log
  Ordered (next s) = Protocol s.log

  pub emit-Protocol :
      (t : EventType) (p : Fields) (s : Loop W)
      → is_run t ≡ false
      → Protocol s.log
      → Protocol (emit h t p s).log
  unfolding emit
  emit-Protocol t p s e q = other s.log _ q e

  approval-LastPermits :
      (action : Action) (s : Loop W)
      → LastPermits (emit h approval_decided (approval_fields h action "APPROVED" end) s).log
  unfolding emit get approval_fields
  approval-LastPermits action s = record {
    earlier = s.log;
    last = _;
    split = refl;
    permits = inr (refl, refl);
  }

  pub verdict-LastPermits :
      (action : Action) (v : Verdict) (s : Loop W)
      → is_require_approval v.decision ≡ false
      → is_deny v.decision ≡ false
      → LastPermits (emit h governance_decision (verdict_fields h action v) s).log
  unfolding emit get verdict_fields
  verdict-LastPermits action v s a b = record {
    earlier = s.log;
    last = _;
    split = refl;
    permits = inl (refl, verdict-permits v.decision a b);
  }

  pub terminate-Ordered : (r : Reason) (s : Loop W) → Protocol s.log → Ordered (terminate h r s)
  unfolding Ordered terminate
  terminate-Ordered r s q = emit-Protocol termination _ s refl q

  pub crash-Ordered : (s : Loop W) (w : W) → Protocol s.log → Ordered (crash h s w)
  unfolding crash
  crash-Ordered s w q = terminate-Ordered internal_error (record s { world = w }) q

  refused-Ordered :
      (action : Action) (v : Verdict) (s : Loop W) (summary : String) (r : Result String)
      → Protocol s.log
      → Ordered (refused h action v s summary r)
  unfolding Ordered refused remember_step failing
  refused-Ordered action v s summary (err e) q = crash-Ordered s s.world q
  refused-Ordered action v s summary (ok fb) q = emit-Protocol feedback _ s refl q

  verified-Ordered :
      (s : Loop W) (answer : Result Bool × W) → Protocol s.log → Ordered (verified h s answer)
  unfolding Ordered verified failing
  verified-Ordered s (err e, w) q = crash-Ordered s w q
  verified-Ordered s (ok true, w) q = terminate-Ordered completed (record s { world = w }) q
  verified-Ordered s (ok false, w) q = emit-Protocol feedback _ (record s { world = w }) refl q

  settled-Ordered :
      (action : Action) (v : Verdict) (r : ToolResult) (progress : Bool × List String) (s : Loop W)
      → Protocol s.log
      → Ordered (settled h action v r progress s)
  unfolding Ordered settled remember_step emit
  settled-Ordered action v r progress s q = other s.log _ q refl

  executed-Ordered :
      (action : Action) (v : Verdict) (s : Loop W) (r : Option ToolResult)
      → Protocol s.log
      → LastPermits s.log
      → Ordered (executed h action v s r)
  unfolding executed
  executed-Ordered action v s none q l = crash-Ordered s s.world q
  executed-Ordered action v s (some r) q l = elim (Bool-cases (action.tool == "finish")) [
    | inl e ↦ rw e (verified-Ordered (logged _) _ (logged-Protocol _))
    | inr e ↦ rw e (settled-Ordered action v r _ (logged _) (logged-Protocol _))
  ]
    where
      logged : Fields → Loop W
      logged p = emit h tool_executed p s

      logged-Protocol : (p : Fields) → Protocol (logged p).log
      logged-Protocol p = unfold emit in (permitted-Protocol s.log _ q l)

  pub judged-Ordered :
      (action : Action) (v : Verdict) (r : Option ToolResult) (s : Loop W)
      → Protocol s.log
      → (is_deny v.decision ≡ false → LastPermits s.log)
      → Ordered (judged h action v r s)
  unfolding judged
  judged-Ordered action v r s q l = elim (Bool-cases (is_deny v.decision)) [
    | inl e ↦ rw e (refused-Ordered action v s _ _ q)
    | inr e ↦ rw e (executed-Ordered action v s r q (l e))
  ]

  pub approved-Ordered :
      (action : Action) (v : Verdict) (s : Loop W) (out : Executed W)
      → Protocol s.log
      → Ordered (approved h action v s out)
  unfolding approved
  approved-Ordered action v s (err e, w) q = crash-Ordered s w q
  approved-Ordered action v s (ok r, w) q = elim (Bool-cases (is_superseded r)) [
    | inl e ↦ rw e (
        refused-Ordered action v (decided _) r.summary _
          (emit-Protocol approval_decided _ (record s { world = w }) refl q))
    | inr e ↦ rw e (
        judged-Ordered action v (some r) (decided _)
          (emit-Protocol approval_decided _ (record s { world = w }) refl q)
          (λ _. approval_permits))
  ]
    where
      decided : Fields → Loop W
      decided p = emit h approval_decided p (record s { world = w })

      approval_permits : LastPermits (decided (approval_fields h action "APPROVED" end)).log
      approval_permits = approval-LastPermits action (record s { world = w })
