-- ===== src/Governance/Approval/Binding.antt =====
-- What `validate_resume` of aegiscode/governance/approval.py binds an approval to.
use aegis_code.Prelude.{
  ◌≡◌, ◌≢◌, refl, String, Bool, true, false, ok, arith, ◌==◌, eq_iff, ◌⊎◌, inl, inr,
}
use aegis_code.Json.{str, obj, Fields, field, end}
use aegis_code.Json.Dumps.{quote, dumps}
use aegis_code.Json.Dumps.Quoted.{shown_inj}
use aegis_code.Governance.Decision.{Action}
use aegis_code.Governance.Approval.{fingerprint, validate_resume}

-- what an approval is asked for, written out: the tool and its arguments, in the canonical text
abbrev pub canonical : String → Fields → String
canonical tool arguments =
    dumps (obj (field "tool" (str tool) (field "arguments" (obj arguments) end)))

-- two actions with different canonical texts and one digest
pub record Clash (sha256 : String → String) (a b : Action) : Type 0 where
  pub differ : canonical a.tool a.arguments ≢ canonical b.tool b.arguments
  pub same : sha256 (canonical a.tool a.arguments) ≡ sha256 (canonical b.tool b.arguments)

abbrev text_of : Action → String
text_of a = canonical a.tool a.arguments

module _ (sha256 : String → String) (shown current : Action) where
  resume-same :
      (b : Bool)
      → fingerprint sha256 current == fingerprint sha256 shown ≡ b
      → validate_resume sha256 (fingerprint sha256 shown) current ≡ ok tt
      → fingerprint sha256 current ≡ fingerprint sha256 shown
  unfolding validate_resume
  resume-same b e v = ground (arith, eq_iff (fingerprint sha256 current) (fingerprint sha256 shown))

  by_text :
      (b : Bool)
      → text_of current == text_of shown ≡ b
      → sha256 (text_of current) ≡ sha256 (text_of shown)
      → (text_of current ≡ text_of shown) ⊎ Clash sha256 current shown
  by_text true e h = inl ((eq_iff (text_of current) (text_of shown)).0 e)
  by_text false e h = inr (record {
    differ = λ same. ground (arith, e, (eq_iff (text_of current) (text_of shown)).1 same);
    same = h;
  })

  -- An approval given for one action resumes another only where both name the same tool, as JSON
  -- writes it, with arguments of the same canonical text, or where the two actions have different
  -- canonical texts with one digest.
  pub validate_resume-binds :
      validate_resume sha256 (fingerprint sha256 shown) current ≡ ok tt
      → (quote current.tool ≡ quote shown.tool)
          × (dumps (obj current.arguments) ≡ dumps (obj shown.arguments))
        ⊎ Clash sha256 current shown
  unfolding fingerprint
  validate_resume-binds v = elim (by_text _ refl (resume-same _ refl v)) [
    | inl same ↦ inl (shown_inj current.tool shown.tool _ _ same)
    | inr clash ↦ inr clash
  ]
