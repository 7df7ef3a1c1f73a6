-- ===== src/Memory/Retrieved.antt =====
-- The rows that `retrieve` of aegiscode/memory/store.py returns.
use aegis_code.Prelude.{
  ◌≡◌, refl, inl, inr, ℕ, zero, suc, ◌≤◌, String, Bool, true, false, List, [], ◌∷◌, Option, arith,
  Bool-cases, All, take, length,
}
use aegis_code.Prelude.Text.Lines.{text_leb}
use aegis_code.Memory.{Entry, selects, select, place, latest_first, retrieve}

text_leb_total : (s t : String) → text_leb s t ≡ false → text_leb t s ≡ true
unfolding text_leb
text_leb_total String.[] t h = absurd (ground arith)
text_leb_total (String.◌∷◌ c s) String.[] h = refl
text_leb_total (String.◌∷◌ c s) (String.◌∷◌ d t) h = ground (arith, text_leb_total s t)

-- no row is used later than the one before it
abbrev pub NotBefore : Entry → List Entry → Type 0
NotBefore r [] = Unit
NotBefore r (s ∷ rs) = text_leb s.last_used_at r.last_used_at ≡ true

abbrev pub LatestFirst : List Entry → Type 0
LatestFirst [] = Unit
LatestFirst (r ∷ rs) = NotBefore r rs × LatestFirst rs

place-NotBefore :
    (r s : Entry) (rs : List Entry)
    → text_leb r.last_used_at s.last_used_at ≡ true
    → NotBefore s rs
    → NotBefore s (place r rs)
unfolding place
place-NotBefore r s [] h n = h
place-NotBefore r s (t ∷ rs) h n = elim (Bool-cases (text_leb t.last_used_at r.last_used_at)) [
  | inl here ↦ rw here h
  | inr later ↦ rw later n
]

place-LatestFirst : (r : Entry) (rs : List Entry) → LatestFirst rs → LatestFirst (place r rs)
unfolding place
place-LatestFirst r [] h = (tt, tt)
place-LatestFirst r (s ∷ rs) h = elim (Bool-cases (text_leb s.last_used_at r.last_used_at)) [
  | inl here ↦ rw here (here, h)
  | inr later ↦ rw later (
    place-NotBefore r s rs (text_leb_total s.last_used_at r.last_used_at later) h.0,
    place-LatestFirst r rs h.1,
  )
]

latest_first-LatestFirst : (rs : List Entry) → LatestFirst (latest_first rs)
unfolding latest_first
latest_first-LatestFirst [] = tt
latest_first-LatestFirst (r ∷ rs) =
    place-LatestFirst r (latest_first rs) (latest_first-LatestFirst rs)

take-LatestFirst : (n : ℕ) (rs : List Entry) → LatestFirst rs → LatestFirst (take n rs)
take-LatestFirst zero rs h = tt
take-LatestFirst (suc n) [] h = tt
take-LatestFirst (suc zero) (r ∷ rs) h = (tt, tt)
take-LatestFirst (suc (suc n)) (r ∷ []) h = h
take-LatestFirst (suc (suc n)) (r ∷ s ∷ rs) h = (h.0, take-LatestFirst (suc n) (s ∷ rs) h.1)

module _ (P : Entry → Type 0) where
  place-All : (r : Entry) (rs : List Entry) → P r → All P rs → All P (place r rs)
  unfolding place
  place-All r [] p h = (p, tt)
  place-All r (s ∷ rs) p h = elim (Bool-cases (text_leb s.last_used_at r.last_used_at)) [
    | inl here ↦ rw here (p, h)
    | inr later ↦ rw later (h.0, place-All r rs p h.1)
  ]

  latest_first-All : (rs : List Entry) → All P rs → All P (latest_first rs)
  unfolding latest_first
  latest_first-All [] h = tt
  latest_first-All (r ∷ rs) h = place-All r (latest_first rs) h.0 (latest_first-All rs h.1)

  take-All : (n : ℕ) (rs : List Entry) → All P rs → All P (take n rs)
  take-All zero rs h = tt
  take-All (suc n) [] h = tt
  take-All (suc n) (r ∷ rs) h = (h.0, take-All n rs h.1)

select-All : (p : Entry → Bool) (rs : List Entry) → All (λ r. p r ≡ true) (select p rs)
unfolding select
select-All p [] = tt
select-All p (r ∷ rs) = elim (Bool-cases (p r)) [
  | inl yes_it_is ↦ rw yes_it_is (yes_it_is, select-All p rs)
  | inr other ↦ rw other (select-All p rs)
]

length-take : {A : Type 0} (n : ℕ) (xs : List A) → length (take n xs) ≤ n
length-take zero xs = omega arith
length-take (suc n) [] = omega arith
length-take (suc n) (x ∷ xs) = omega (arith, length-take n xs)

-- At most top_k rows are retrieved, the latest used first; each is of the project, of the type that
-- is asked for and holds the keyword.
pub retrieve-Selected :
    (now project_id : String) (query : Option String) (top_k : ℕ) (kind : Option String)
    (rows : List Entry)
    → (length (retrieve now project_id query top_k kind rows).0 ≤ top_k)
      × LatestFirst (retrieve now project_id query top_k kind rows).0
      × All
          (λ r. selects project_id query kind r ≡ true)
          (retrieve now project_id query top_k kind rows).0
unfolding retrieve
retrieve-Selected now project_id query top_k kind rows =
    let found = select (selects project_id query kind) rows in
    (
      length-take top_k (latest_first found),
      take-LatestFirst top_k (latest_first found) (latest_first-LatestFirst found),
      take-All (λ r. selects project_id query kind r ≡ true) top_k (latest_first found)
          (latest_first-All (λ r. selects project_id query kind r ≡ true) found
            (select-All (selects project_id query kind) rows)),
    )
