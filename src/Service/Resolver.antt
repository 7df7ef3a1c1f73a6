-- ===== src/Service/Resolver.antt =====
-- The approvals of `ApplicationService` in aegiscode/service/app_service.py: the synchronous
-- resolver as a function, and the asynchronous one as a step relation between the harness's thread
-- and the threads that decide. A step is what a thread does under the lock, or one call.
pub mod Decided
pub mod Returns
use aegis_code.Prelude.{
  ℕ, zero, suc, ◌+◌, ◌≡◌, String, Bool, true, false, ◌&&◌, List, [], ◌∷◌, Option, none, some,
  Result, ok, err, ◌==◌, if◌then◌else◌,
}
use aegis_code.Persistence.{ApprovalRow, Request, insert_approval, get_approval, update_approval}

-- the state that a decision writes
abbrev pub decided_state : Bool → String
decided_state approved = if approved then "APPROVED" else "REJECTED"

-- sync_decision_fn; without one the answer is no
abbrev pub decision : Option (String → Bool) → String → Bool
decision none approval_id = false
decision (some decide) approval_id = decide approval_id

-- the resolver of _build_sync_approval_resolver, with its identifier and its times
unfoldable pub resolve_sync :
    Option (String → Bool)
    → String
    → String
    → String
    → Request
    → List ApprovalRow
    → Bool × List ApprovalRow
resolve_sync decide_fn created decided approval_id q rows =
    let approved = decision decide_fn approval_id in
    let asked = insert_approval created approval_id q rows in
    (approved, update_approval decided approval_id (decided_state approved) "service" asked)

-- where the resolver of _build_async_approval_resolver is
pub data Phase : Type 0 where
  unregistered waiting expired rejected woken reading : Phase
  returned : Bool → Phase

-- The database's rows, whether the approval is in `_approval_events`, whether its Event is set, how
-- many deciders found it and are still to set it, and the decisions made so far on this approval.
pub record Shared : Type 0 where
  pub rows : List ApprovalRow
  pub registered : Bool
  pub event : Bool
  pub signals : ℕ
  pub decisions : List Bool

-- what a decision of `decide` does under the lock
abbrev pub decide_under_lock : String → String → String → Bool → Shared → Shared
decide_under_lock now approval_id k approved s = record s {
  rows = update_approval now k (decided_state approved) "service" s.rows;
  signals = if k == approval_id && s.registered then s.signals + 1 else s.signals;
  decisions = if k == approval_id then approved ∷ s.decisions else s.decisions;
}

-- row["state"] == "APPROVED"
abbrev pub says_approved : Result ApprovalRow → Bool
says_approved (ok r) = r.state == "APPROVED"
says_approved (err e) = false

-- The steps about the approval `approval_id`, which is new to the table when it is registered.
pub data Step (approval_id : String) (q : Request) : Phase → Shared → Phase → Shared → Type 0 where
  register :
      (now : String) (s : Shared)
      → Step approval_id q unregistered s waiting
          (record s { rows = insert_approval now approval_id q s.rows; registered = true })
  decide :
      (now k : String) (approved : Bool) (p : Phase) (s : Shared)
      → Step approval_id q p s p (decide_under_lock now approval_id k approved s)
  signal :
      (n : ℕ) (p : Phase) (s : Shared)
      → s.signals ≡ suc n
      → Step approval_id q p s p (record s { event = true; signals = n })
  wake : (s : Shared) → s.event ≡ true → Step approval_id q waiting s woken s
  expire : (s : Shared) → s.event ≡ false → Step approval_id q waiting s expired s
  reject :
      (now : String) (s : Shared)
      → Step approval_id q expired s rejected
          (record s { rows = update_approval now approval_id "REJECTED" "timeout" s.rows })
  give_up :
      (s : Shared)
      → Step approval_id q rejected s (returned false) (record s { registered = false })
  forget : (s : Shared) → Step approval_id q woken s reading (record s { registered = false })
  read :
      (s : Shared) (r : ApprovalRow)
      → get_approval approval_id s.rows ≡ ok r
      → Step approval_id q reading s (returned (r.state == "APPROVED")) s
