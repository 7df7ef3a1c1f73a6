-- ===== src/Security/Samples.antt =====
-- Texts with and without credentials.
use aegis_code.Prelude.{◌≡◌, refl, String, true, false, some}
use aegis_code.Security.{
  Pattern, openai_key, aws_key, generic_assignment, finds, redact_keys, redact,
}
use aegis_code.Security.Quoted.{escaped, redact_keys-escaped}

abbrev leaky : String
leaky = "AKIA0123456789ABCDEF token = 'abcdefghijklmnop'"

leaky_redacted : redact_keys leaky ≡ "[REDACTED] [REDACTED]'"
unfolding redact_keys
leaky_redacted = refl

-- with a root, what is left about the root may be a key
joined : redact (some "/w") "sk-aaaaaaaaaa/w/aaaaaaaaaaaa" ≡ "sk-aaaaaaaaaaaaaaaaaaaaaa"
unfolding redact
joined = refl

joined_found : finds openai_key (redact (some "/w") "sk-aaaaaaaaaa/w/aaaaaaaaaaaa") ≡ true
unfolding redact finds
joined_found = refl

abbrev value : String
value = "0123456789abcdef0123\\\""

value_free : (q : Pattern) → finds q value ≡ false
unfolding finds
value_free openai_key = refl
value_free aws_key = refl
value_free generic_assignment = refl

quoted_stays : redact_keys (escaped value) ≡ escaped value
quoted_stays = redact_keys-escaped value value_free
