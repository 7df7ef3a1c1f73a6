-- ===== src/Service/Resolver/Returns.antt =====
-- That a decision reaches the resolver of aegiscode/service/app_service.py that waits for it.
use aegis_code.Prelude.{◌≡◌, String, true, List, ok, ◌==◌}
use aegis_code.Persistence.{ApprovalRow, Request, get_approval}
use aegis_code.Service.Resolver.{
  Phase, unregistered, waiting, expired, rejected, woken, reading, returned, Shared,
}
use aegis_code.Service.Resolver.Decided.{Trace}

module _ (approval_id : String) (q : Request) where
  abbrev Found : List ApprovalRow → Type 0
  Found rows = (r : ApprovalRow) × (get_approval approval_id rows ≡ ok r)

  -- while the resolver waits it is registered, and until it returns its row is there
  Ready : Phase → Shared → Type 0
  Ready unregistered s = Unit
  Ready (returned b) s = Unit
  Ready reading s = Found s.rows
  Ready waiting s = (s.registered ≡ true) × Found s.rows
  Ready expired s = (s.registered ≡ true) × Found s.rows
  Ready rejected s = (s.registered ≡ true) × Found s.rows
  Ready woken s = (s.registered ≡ true) × Found s.rows

  -- The resolver can still answer, with what the row says now, and no row has to change for it: no
  -- timeout and no other decision is needed.
  pub record Answers (s : Shared) : Type 0 where
    pub row : ApprovalRow
    pub found : get_approval approval_id s.rows ≡ ok row
    pub after : Shared
    pub rows_stay : after.rows ≡ s.rows
    pub steps : Trace approval_id q waiting s (returned (row.state == "APPROVED")) after
