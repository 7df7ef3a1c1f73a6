-- ===== src/Security/Quoted.antt =====
-- A quoted assignment behind `json.dumps`, as aegiscode/audit/chain.py hands it to `redact`.
use aegis_code.Prelude.{◌≡◌, refl, String, false}
use aegis_code.Json.{str}
use aegis_code.Json.Dumps.{dumps}
use aegis_code.Security.{
  Pattern, openai_key, aws_key, generic_assignment, finds, matches, redact_keys,
}
use aegis_code.Security.Clean.{redact_keys-of_free}
use Prim.Native.String.{◌∷◌}

-- KEY=" and a value, as the JSON of a text writes it: the quote has a backslash
abbrev pub escaped : String → String
escaped value = "K" ∷ "E" ∷ "Y" ∷ "=" ∷ "\\" ∷ "\"" ∷ value

escaped-free :
    (q : Pattern) (value : String) → finds q value ≡ false → finds q (escaped value) ≡ false
unfolding finds matches
escaped-free openai_key value free = free
escaped-free aws_key value free = free
escaped-free generic_assignment value free = free

-- A quoted assignment in the JSON of a text stays as it is, however long its value is, if no pattern
-- is found in the value itself.
pub redact_keys-escaped :
    (value : String)
    → ((q : Pattern) → finds q value ≡ false)
    → redact_keys (escaped value) ≡ escaped value
redact_keys-escaped value free =
    redact_keys-of_free (escaped value) (λ q. escaped-free q value (free q))

dumps_test : dumps (str "KEY=\"0123456789abcdef\"") ≡ "\"KEY=\\\"0123456789abcdef\\\"\""
unfolding dumps
dumps_test = refl
