-- ===== src/Governance/Approval/Store.antt =====
-- The approval store of aegiscode/governance/approval.py: decisions and remembered pairs.
use aegis_code.Prelude.{
  String, Bool, ◌&&◌, ◌||◌, ◌≡◌, refl, List, [], ◌∷◌, Option, none, some, ok, ◌==◌, eq_iff, arith,
  if◌then◌else◌,
}
use aegis_code.Governance.Approval.{
  approved, rejected, ApprovalRequest, ApprovalStore, lookup_req, put_req, get_request, decide,
  remember, check_remembered,
}

lookup_req-put_req :
    (k j : String) (r : ApprovalRequest) (rs : List (String × ApprovalRequest))
    → lookup_req j (put_req k r rs) ≡ (if k == j then some r else lookup_req j rs)
unfolding lookup_req put_req
lookup_req-put_req k j r [] = refl
lookup_req-put_req k j r ((i, s) ∷ rs) =
    ground (arith, eq_iff i k, eq_iff i j, eq_iff k j, lookup_req-put_req k j r rs)

-- What `decide` makes of a request.
abbrev pub settled : Bool → ApprovalRequest → ApprovalRequest
settled is_approved r = record r { state = if is_approved then approved else rejected }

decided-get :
    (s : ApprovalStore) (k : String) (b : Bool) (o : Option ApprovalRequest)
    → lookup_req k s.reqs ≡ o
    → (r : ApprovalRequest) → get_request s k ≡ ok r
    → (j : String)
    → get_request (decide s k b).1 j ≡ (if k == j then ok (settled b r) else get_request s j)
unfolding get_request decide
decided-get s k b none e r h j = ground arith
decided-get s k b (some q) e r h j =
    ground (arith, lookup_req-put_req k j (settled b q) s.reqs, eq_iff k j)

-- Deciding a request that is there moves it to APPROVED or REJECTED, whatever it was, and changes
-- nothing else of it and no other request.
pub get_request-decide :
    (s : ApprovalStore) (k : String) (is_approved : Bool) (r : ApprovalRequest) (j : String)
    → get_request s k ≡ ok r
    → get_request (decide s k is_approved).1 j
      ≡ (if k == j then ok (settled is_approved r) else get_request s j)
get_request-decide s k is_approved r j h = decided-get s k is_approved _ refl r h j

-- A remembered pair is the one that was added, or one that was there.
pub check_remembered-remember :
    (s : ApprovalStore) (t fp u gp : String)
    → check_remembered (remember s t fp) u gp ≡ (t == u && fp == gp || check_remembered s u gp)
unfolding check_remembered remember
check_remembered-remember s t fp u gp = ground (arith, eq_iff t u, eq_iff fp gp)
