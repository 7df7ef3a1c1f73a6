-- ===== src/Service/Resolver/Decided.antt =====
-- What the resolvers of aegiscode/service/app_service.py return, and what wakes them.
use aegis_code.Prelude.{
  ◌≤◌, ◌≡◌, ◌⊎◌, inl, inr, refl, sym, ◌∙◌, String, Bool, true, false, List, [], ◌∷◌, Option, Result,
  ok, err, Error, any, ◌==◌, eq_refl, arith, Bool-cases,
}
use aegis_code.Persistence.{
  ApprovalRow, Request, insert_approval, get_approval, update_approval, set_approval,
}
use aegis_code.Persistence.Updates.{changed, get_approval-update_approval}
use aegis_code.Service.Resolver.{
  decision, decided_state, resolve_sync, Phase, unregistered, waiting, expired, rejected, woken,
  reading, returned, Shared, decide_under_lock, says_approved, Step, register, decide, signal, wake,
  expire, reject, give_up, forget, read,
}

-- some decision made on the approval was yes
abbrev pub SomeYes : Shared → Type 0
SomeYes s = any (λ b. b) s.decisions ≡ true

insert-says :
    (now approval_id : String) (q : Request) (rows : List ApprovalRow)
    → says_approved (get_approval approval_id (insert_approval now approval_id q rows))
      ≡ says_approved (get_approval approval_id rows)
unfolding get_approval insert_approval
insert-says now approval_id q [] = ground (arith, eq_refl approval_id)
insert-says now approval_id q (r ∷ rows) = ground (arith, insert-says now approval_id q rows)

changed-says :
    (now state by : String) (r : Result ApprovalRow)
    → state == "APPROVED" ≡ false
    → says_approved (changed (set_approval now state by) r) ≡ false
unfolding set_approval
changed-says now state by (ok r) e = e
changed-says now state by (err x) e = refl

update-says :
    (now approval_id k state by : String) (rows : List ApprovalRow)
    → state == "APPROVED" ≡ false
    → says_approved (get_approval approval_id (update_approval now k state by rows)) ≡ true
    → says_approved (get_approval approval_id rows) ≡ true
update-says now approval_id k state by rows e h = ground (
  arith,
  get_approval-update_approval now k state by approval_id rows,
  changed-says now state by (get_approval approval_id rows) e,
)

module _ (approval_id : String) (q : Request) where
  -- after a yes the resolver may return yes
  Done : Phase → Shared → Type 0
  Done (returned true) s = SomeYes s
  Done _ s = Unit

  -- the row says APPROVED only after a yes
  Sound : Shared → Type 0
  Sound s = says_approved (get_approval approval_id s.rows) ≡ true → SomeYes s

  decide-Sound :
      (now k : String) (b : Bool) (s : Shared)
      → Sound s
      → Sound (decide_under_lock now approval_id k b s)
  unfolding Sound
  decide-Sound now k true s i h = elim (Bool-cases (k == approval_id)) [
    | inl e ↦ rw e refl
    | inr e ↦ rw e (i (other h e))
  ]
    where
      other :
          says_approved
              (get_approval approval_id (update_approval now k "APPROVED" "service" s.rows))
            ≡ true
          → k == approval_id ≡ false
          → says_approved (get_approval approval_id s.rows) ≡ true
      other h e =
          ground (arith, get_approval-update_approval now k "APPROVED" "service" approval_id s.rows)
  decide-Sound now k false s i h = elim (Bool-cases (k == approval_id)) [
    | inl e ↦ rw e (i (update-says now approval_id k "REJECTED" "service" s.rows refl h))
    | inr e ↦ rw e (i (update-says now approval_id k "REJECTED" "service" s.rows refl h))
  ]

  decide-Done :
      (now k : String) (b : Bool) (p : Phase) (s : Shared)
      → Done p s
      → Done p (decide_under_lock now approval_id k b s)
  unfolding Done
  decide-Done now k b (returned true) s d = ground (arith, d)
  decide-Done now k b (returned false) s d = tt
  decide-Done now k b unregistered s d = tt
  decide-Done now k b waiting s d = tt
  decide-Done now k b expired s d = tt
  decide-Done now k b rejected s d = tt
  decide-Done now k b woken s d = tt
  decide-Done now k b reading s d = tt

  step-Sound :
      {p p' : Phase} {s s' : Shared}
      → Step approval_id q p s p' s'
      → Done p s × Sound s
      → Done p' s' × Sound s'
  unfolding Done Sound
  step-Sound (register now s) (d, i) = (tt, λ h. i (sym (insert-says now approval_id q s.rows) ∙ h))
  step-Sound (decide now k b p s) (d, i) = (decide-Done now k b p s d, decide-Sound now k b s i)
  step-Sound (signal n p s e) (d, i) = (signal-Done p d, i)
    where
      signal-Done : (p : Phase) → Done p s → Done p (record s { event = true; signals = n })
      signal-Done (returned true) d = d
      signal-Done (returned false) d = tt
      signal-Done unregistered d = tt
      signal-Done waiting d = tt
      signal-Done expired d = tt
      signal-Done rejected d = tt
      signal-Done woken d = tt
      signal-Done reading d = tt
  step-Sound (wake s e) (d, i) = (tt, i)
  step-Sound (expire s e) (d, i) = (tt, i)
  step-Sound (reject now s) (d, i) =
      (tt, λ h. i (update-says now approval_id approval_id "REJECTED" "timeout" s.rows refl h))
  step-Sound (give_up s) (d, i) = (tt, i)
  step-Sound (forget s) (d, i) = (tt, i)
  step-Sound (read s r found) (d, i) = (read-Done (r.state == "APPROVED") (λ e. i (rw found e)), i)
    where
      read-Done : (b : Bool) → (b ≡ true → SomeYes s) → Done (returned b) s
      read-Done true h = h refl
      read-Done false h = tt

  -- the steps of all threads, one after another
  pub data Trace : Phase → Shared → Phase → Shared → Type 0 where
    here : (p : Phase) (s : Shared) → Trace p s p s
    and_then :
        {p p' p'' : Phase} {s s' s'' : Shared}
        → Trace p s p' s'
        → Step approval_id q p' s' p'' s''
        → Trace p s p'' s''

  steps-Sound :
      {p p' : Phase} {s s' : Shared} → Trace p s p' s' → Done p s × Sound s → Done p' s' × Sound s'
  steps-Sound (here p s) i = i
  steps-Sound (and_then ss step) i = step-Sound step (steps-Sound ss i)

  -- However the threads interleave, and whether or not the wait expires: where the approval had no
  -- row at the start, the asynchronous resolver returns yes only after a decision of yes on it.
  pub resolver-SomeYes :
      (s s' : Shared) (e : Error)
      → get_approval approval_id s.rows ≡ err e
      → Trace unregistered s (returned true) s'
      → SomeYes s'
  unfolding Done Sound
  resolver-SomeYes s s' e none_yet steps =
      (steps-Sound steps (tt, λ h. ground (arith, none_yet, h))).0

  -- the Event is set, or a decider is about to set it
  abbrev pub Awake : Shared → Type 0
  Awake s = (s.event ≡ true) ⊎ (1 ≤ s.signals)

  decide-Awake :
      (now k : String) (b : Bool) (s : Shared)
      → Awake s
      → Awake (decide_under_lock now approval_id k b s)
  decide-Awake now k b s (inl e) = inl e
  decide-Awake now k b s (inr le) = inr (ground (arith, le))

  step-Awake : {p p' : Phase} {s s' : Shared} → Step approval_id q p s p' s' → Awake s → Awake s'
  step-Awake (register now s) a = a
  step-Awake (decide now k b p s) a = decide-Awake now k b s a
  step-Awake (signal n p s e) a = inl refl
  step-Awake (wake s e) a = a
  step-Awake (expire s e) a = a
  step-Awake (reject now s) a = a
  step-Awake (give_up s) a = a
  step-Awake (forget s) a = a
  step-Awake (read s r found) a = a

  steps-Awake : {p p' : Phase} {s s' : Shared} → Trace p s p' s' → Awake s → Awake s'
  steps-Awake (here p s) a = a
  steps-Awake (and_then ss step) a = step-Awake step (steps-Awake ss a)

  -- after a decision on a registered approval its Event is set, or is about to be
  pub decided-Awake :
      (now : String) (b : Bool) (p p' : Phase) (s s' : Shared)
      → s.registered ≡ true
      → Trace p (decide_under_lock now approval_id approval_id b s) p' s'
      → Awake s'
  decided-Awake now b p p' s s' reg steps =
      steps-Awake steps (inr (rw (eq_refl approval_id, reg) (omega arith)))

get-single :
    (approval_id : String) (r : ApprovalRow)
    → r.approval_id ≡ approval_id
    → get_approval approval_id (r ∷ []) ≡ ok r
unfolding get_approval
get-single approval_id r e = rw (e, eq_refl approval_id) refl

pub insert-found :
    (now approval_id : String) (q : Request) (rows : List ApprovalRow)
    → (r : ApprovalRow) × (get_approval approval_id (insert_approval now approval_id q rows) ≡ ok r)
unfolding get_approval insert_approval
insert-found now approval_id q [] = (_, get-single approval_id _ refl)
insert-found now approval_id q (r ∷ rows) = elim (Bool-cases (r.approval_id == approval_id)) [
  | inl e ↦ (r, rw e refl)
  | inr e ↦ let rest = insert-found now approval_id q rows in (rest.0, rw e rest.1)
]

-- The synchronous resolver returns what the table says in the end: the approval has a row, in the
-- state that the answer stands for.
pub resolve_sync-says :
    (decide_fn : Option (String → Bool)) (created decided approval_id : String) (q : Request)
    (rows : List ApprovalRow)
    → (r : ApprovalRow) × (get_approval approval_id
          (resolve_sync decide_fn created decided approval_id q rows).1
        ≡ ok r)
      × (r.state ≡ decided_state (resolve_sync decide_fn created decided approval_id q rows).0)
unfolding resolve_sync set_approval
resolve_sync-says decide_fn created decided approval_id q rows =
    let asked = insert-found created approval_id q rows in
    let state = decided_state (decision decide_fn approval_id) in
    (
      set_approval decided state "service" asked.0,
      get_approval-update_approval decided approval_id state "service" approval_id
            (insert_approval created approval_id q rows)
          ∙ rw (eq_refl approval_id, asked.1) refl,
      refl,
    )
