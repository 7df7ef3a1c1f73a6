-- ===== src/Audit/Chain/Pinned.antt =====
-- Tables of aegiscode/audit/chain.py in which a task has the same last hash.
use text.Mathlib.TextLemmas.{append_inj}
use Prim.Native.String.{count}
use aegis_code.Prelude.{
  ℕ, ◌≡◌, ◌≢◌, refl, sym, ap, ◌∙◌, String, true, List, [], ◌∷◌, none, some, arith, length, ◌==◌,
  eq_iff, ◌⊎◌, inl, inr, Bool-cases,
}
use aegis_code.Prelude.Text.{◌+s◌}
use aegis_code.Audit.Chain.{Row, genesis, row_body, task_rows, last_hash, prev_hash, verify_chain}
use aegis_code.Audit.Chain.Valid.{Chained, verify_chain-expected}

-- the two lists hold the same rows, in what a hash covers
unfoldable pub Same : List Row → List Row → Type 0
Same [] [] = Unit
Same (r ∷ rs) (s ∷ ss) = (row_body r ≡ row_body s) × Same rs ss
Same _ _ = ⊥

-- At one place of the two lists, each behind the hash before it, the texts that the two rows' hashes
-- cover differ and have one digest.
pub data ClashIn (sha256 : String → String) : String → List Row → String → List Row → Type 0 where
  at_head :
      (p q : String) (r s : Row) (rs ss : List Row)
      → p +s row_body r ≢ q +s row_body s
      → sha256 (p +s row_body r) ≡ sha256 (q +s row_body s)
      → ClashIn sha256 p (r ∷ rs) q (s ∷ ss)
  behind :
      (p q : String) (r s : Row) (rs ss : List Row)
      → ClashIn sha256 r.hash rs s.hash ss
      → ClashIn sha256 p (r ∷ rs) q (s ∷ ss)

same_or_differ : (a b : String) → (a ≡ b) ⊎ (a ≢ b)
same_or_differ a b = elim (Bool-cases (a == b)) [
  | inl h ↦ inl ((eq_iff a b).0 h)
  | inr h ↦ inr (λ same. ground (arith, (eq_iff a b).1 same, h))
]

module _ (sha256 : String → String) (digests : (x : String) → count (sha256 x) ≡ 64) where
  pinned :
      (p q : String) (rs ss : List Row)
      → count p ≡ count q
      → Chained sha256 p rs
      → Chained sha256 q ss
      → length rs ≡ length ss
      → last_hash p rs ≡ last_hash q ss
      → (p ≡ q) × Same rs ss ⊎ ClashIn sha256 p rs q ss
  unfolding Chained last_hash Same
  pinned p q [] [] n c d l e = inl (e, tt)
  pinned p q [] (s ∷ ss) n c d l e = ground arith
  pinned p q (r ∷ rs) [] n c d l e = ground arith
  pinned p q (r ∷ rs) (s ∷ ss) n (c1, c2, c3) (d1, d2, d3) l e =
      elim (pinned r.hash s.hash rs ss counts c3 d3 (omega (arith, l)) e) [
        | inr clash ↦ inr (behind p q r s rs ss clash)
        | inl (hashes, rest) ↦ elim (same_or_differ (p +s row_body r) (q +s row_body s)) [
          | inr differ ↦ inr (at_head p q r s rs ss differ (sym c2 ∙ hashes ∙ d2))
          | inl texts ↦ let both = append_inj texts n in inl (both.0, (both.1, rest))
        ]
      ]
    where
      counts : count r.hash ≡ count s.hash
      counts = ap count c2 ∙ digests _ ∙ sym (digests _) ∙ sym (ap count d2)

  -- Where the digests are 64 characters: two tables in which a task's rows verify for the same
  -- count and whose last hash of the task is the same hold the same rows of the task, in what the
  -- hashes cover, or else at one place of the two lists the two rows, each behind the hash before
  -- it, are different texts with one digest.
  pub verify_chain-pinned :
      (task_id : String) (n : ℕ) (rows other : List Row)
      → verify_chain sha256 task_id (some n) rows ≡ (true, none)
      → verify_chain sha256 task_id (some n) other ≡ (true, none)
      → prev_hash task_id rows ≡ prev_hash task_id other
      → Same (task_rows task_id rows) (task_rows task_id other)
        ⊎ ClashIn sha256 genesis (task_rows task_id rows) genesis (task_rows task_id other)
  unfolding prev_hash
  verify_chain-pinned task_id n rows other a b e =
      let left = (verify_chain-expected sha256 task_id n rows).0 a in
      let right = (verify_chain-expected sha256 task_id n other).0 b in
      elim (pinned genesis genesis (task_rows task_id rows) (task_rows task_id other) refl left.0
        right.0 (left.1 ∙ sym right.1) e) [ inl (_, same) ↦ inl same | inr clash ↦ inr clash ]
