-- ===== src/Config.antt =====
-- aegiscode/config/schema.py: the configuration with its defaults, after validation. Limits are
-- natural numbers: the schema also admits negative ones, which no default and no shipped file has.
pub mod Loader
use aegis_code.Prelude.{ℕ, String, Bool, false, List, [], ◌∷◌, Option, none}
use aegis_code.Governance.Decision.{Decision, allow, require_approval, deny}
use aegis_code.Governance.Rules.{CommandRule}

pub record Limits : Type 0 where
  pub max_steps : ℕ
  pub max_consecutive_failures : ℕ
  pub no_progress_repeat_limit : ℕ
  pub action_retry_limit : ℕ
  pub llm_max_retries : ℕ
  pub command_timeout_sec : ℕ
  pub wall_clock_timeout_sec : ℕ
  pub output_max_bytes : ℕ

abbrev pub default_limits : Limits
default_limits = record {
  max_steps = 25;
  max_consecutive_failures = 5;
  no_progress_repeat_limit = 3;
  action_retry_limit = 3;
  llm_max_retries = 3;
  command_timeout_sec = 30;
  wall_clock_timeout_sec = 300;
  output_max_bytes = 65536;
}

pub record DefaultDecisions : Type 0 where
  pub readonly : Decision
  pub write : Decision
  pub command : Decision

abbrev pub default_decisions : DefaultDecisions
default_decisions = record { readonly = allow; write = require_approval; command = deny }

abbrev pub command_rule : String → List String → Decision → CommandRule
command_rule argv0 args decision = record {
  argv0 = argv0;
  args_contain = args;
  decision = decision;
}

-- _DEFAULT_COMMAND_RULES
abbrev pub default_command_rules : List CommandRule
default_command_rules =
    command_rule "git" ("push" ∷ []) deny
    ∷ command_rule "git" ("reset" ∷ "--hard" ∷ []) deny
    ∷ command_rule "git" ("clean" ∷ []) deny
    ∷ command_rule "git" ("commit" ∷ []) require_approval
    ∷ command_rule "pip" ("install" ∷ []) require_approval
    ∷ command_rule "python" ("-c" ∷ []) deny
    ∷ command_rule "python" ("-m" ∷ []) deny
    ∷ []

pub record GovernanceConfig : Type 0 where
  pub command_allowlist : List String
  pub command_rules : List CommandRule
  pub sensitive_file_patterns : List String
  pub write_allowlist_dirs : List String
  pub decisions : DefaultDecisions

abbrev pub default_governance : GovernanceConfig
default_governance = record {
  command_allowlist = "python" ∷ "python3" ∷ "pip" ∷ "pytest" ∷ "ruff" ∷ "mypy" ∷ "git" ∷ [];
  command_rules = default_command_rules;
  sensitive_file_patterns = ".env" ∷ ".git/" ∷ "*.pem" ∷ "*.key" ∷ "*credentials*" ∷ [];
  write_allowlist_dirs = "src/" ∷ "tests/" ∷ [];
  decisions = default_decisions;
}

pub record Workspace : Type 0 where
  pub root : String
  pub allowed_base : Option String

abbrev pub default_workspace : Workspace
default_workspace = record { root = "/workspace"; allowed_base = none }

pub record ToolsConfig : Type 0 where
  pub enabled : List String
  pub write_max_bytes : ℕ

abbrev pub default_tools : ToolsConfig
default_tools = record {
  enabled =
      "list_files" ∷ "read_file" ∷ "search_text" ∷ "write_file" ∷ "run_tests" ∷ "run_command"
      ∷ "finish" ∷ [];
  write_max_bytes = 1048576;
}

pub record FeedbackConfig : Type 0 where
  pub test_command : String
  pub target_tests : String

abbrev pub default_feedback : FeedbackConfig
default_feedback = record { test_command = "pytest -q"; target_tests = "tests/" }

pub record MemoryConfig : Type 0 where
  pub retrieval_top_k : ℕ
  pub context_budget_chars : ℕ

abbrev pub default_memory : MemoryConfig
default_memory = record { retrieval_top_k = 8; context_budget_chars = 24000 }

pub record CredentialsConfig : Type 0 where
  pub allow_dotenv : Bool

pub record LlmConfig : Type 0 where
  pub provider : String
  pub model : String
  pub base_url : Option String

abbrev pub default_llm : LlmConfig
default_llm = record { provider = "openai"; model = "gpt-4o"; base_url = none }

pub record AegisConfig : Type 0 where
  pub workspace : Workspace
  pub limits : Limits
  pub tools : ToolsConfig
  pub feedback : FeedbackConfig
  pub governance : GovernanceConfig
  pub memory : MemoryConfig
  pub credentials : CredentialsConfig
  pub llm : LlmConfig

abbrev pub default_config : AegisConfig
default_config = record {
  workspace = default_workspace;
  limits = default_limits;
  tools = default_tools;
  feedback = default_feedback;
  governance = default_governance;
  memory = default_memory;
  credentials = record { allow_dotenv = false };
  llm = default_llm;
}
