-- ===== src/Service/Assembly/Samples.antt =====
-- The tools over a table of files, behind the dispatcher of the default configuration.
use aegis_code.Prelude.{
  ◌≡◌, ◌≢◌, refl, ◌⊎◌, String, [], ◌∷◌, List, Option, none, some, ok, true, false, if◌then◌else◌,
}
use aegis_code.Prelude.Text.{mem_text}
use aegis_code.Prelude.Text.Lines.{encode, splitlines}
use aegis_code.Tools.{Ctx, ToolResult, get_tool}
use aegis_code.Tools.Table.{Table, table_os, insert, decode_ascii}
use aegis_code.Tools.Files.{is_binary, hit_line, search_text, search_result}
use aegis_code.Tools.Files.Writes.{writing}
use aegis_code.Tools.Files.Search.{LineAt, HasLine, Listed, searching}
use aegis_code.Config.{default_config}
use aegis_code.Governance.Decision.{Action, Verdict, allow, allow_with_audit}
use aegis_code.Governance.Fence.{Files}
use aegis_code.Service.Assembly.{make_ctx}
use aegis_code.Service.Assembly.Gates.{
  assembled, search_action, Confined, assembled-Confined, assembled-discloses,
}

abbrev no_links : Table → Files
no_links w = record { realpath = λ p. p; exists = λ p. false; islink = λ p. false }

abbrev ctx : Ctx
ctx = make_ctx default_config "t1" "/w"

abbrev editing : Action
editing = record { tool = "write_file"; arguments = writing "src/a.py" "x = 1" }

writes_strict : default_config.governance.decisions.write ≢ allow
writes_strict e = cc

writes_audit : default_config.governance.decisions.write ≢ allow_with_audit
writes_audit e = cc

assembled-Confined_example :
    ((assembled table_os default_config no_links ctx [] editing).1 ≡ [])
    ⊎ Confined table_os default_config no_links ctx [] editing
assembled-Confined_example =
    assembled-Confined table_os default_config no_links ctx [] editing refl writes_strict
      writes_audit

-- a workspace with a secret
abbrev secret : Table
secret = (".env", encode "TOKEN=1") ∷ []

abbrev secret_hits : List String
secret_hits = ".env:1: TOKEN=1" ∷ []

secret_line : HasLine table_os "TOKEN" (ctx.resolve ".") secret ".env" "TOKEN=1" 1
unfolding is_binary splitlines encode decode_ascii aegis_code.Tools.Table.lookup
    aegis_code.Prelude.Text.contains
secret_line = record {
  raw = encode "TOKEN=1";
  readable = refl;
  is_text = refl;
  at = LineAt.here 1 [];
  holds = refl;
}

walks_env : Listed ".env" (table_os.walk (ctx.resolve ".") secret)
unfolding aegis_code.Prelude.Text.join_path mem_text
walks_env = Listed.here "" ".env" (".env" ∷ []) [] refl refl

secret_search :
    (search_text table_os (searching "TOKEN") ctx secret).0
    ≡ ok (search_result table_os secret_hits)
unfolding search_text aegis_code.Tools.Table.lookup aegis_code.Prelude.Text.join_path encode
    splitlines decode_ascii aegis_code.Prelude.Text.contains aegis_code.Prelude.Text.Repr.decimal
    aegis_code.Prelude.Text.Lines.strip
secret_search = refl

search_enabled : mem_text "search_text" default_config.tools.enabled ≡ true
unfolding mem_text
search_enabled = refl

assembled-discloses_example :
    (v : Verdict) × (hits : List String) × ((assembled table_os default_config no_links ctx secret
        (search_action "TOKEN")).0
      ≡ ok (v, some (search_result table_os hits)))
    × (mem_text (hit_line ".env" 1 "TOKEN=1") hits ≡ true)
assembled-discloses_example =
    assembled-discloses table_os default_config no_links ctx secret "TOKEN" ".env" "TOKEN=1" 1
      (search_result table_os secret_hits) search_enabled refl secret_line walks_env secret_search
