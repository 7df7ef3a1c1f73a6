-- ===== src/Config/Loader/Samples.antt =====
-- A raw configuration and an environment, and the overrides at them.
use aegis_code.Prelude.{◌≡◌, refl, String, List, [], ◌∷◌, ok}
use aegis_code.Json.{num, str, obj, Fields, end, field, get}
use aegis_code.Config.Loader.{apply_env_overrides}

abbrev limits : Fields
limits = field "limits" (obj (field "max_steps" (num 5) end)) end

abbrev mocked : List (String × String)
mocked = ("AEGIS_LLM_PROVIDER", "mock") ∷ []

abbrev overridden : Fields
overridden =
    field "limits" (obj (field "max_steps" (num 5) end))
      (field "llm" (obj (field "provider" (str "mock") end)) end)

limits_overridden : apply_env_overrides limits mocked ≡ ok overridden
unfolding apply_env_overrides get aegis_code.Json.put
limits_overridden = refl
