-- ===== src/Governance/CommandFence/Clears.antt =====
-- The arguments of a command that `_fence_command` of aegiscode/governance/dispatcher.py passes.
use aegis_code.Prelude.{
  ◌≡◌, refl, sym, ap, ◌∙◌, subst, String, Bool, true, false, List, [], ◌∷◌, none, Result, ok, err,
  arith, All, Bool-cases, inl, inr, ◌⊎◌,
}
use aegis_code.Prelude.Text.{is_empty}
use aegis_code.Json.{Json, str}
use aegis_code.Governance.Lexer.{LexResult, lex_command}
use aegis_code.Governance.Fence.{Files, PathVerdict, check_path}
use aegis_code.Governance.Fence.Allows.{Fenced, check_path-Fenced}
use aegis_code.Governance.Fence.Escapes.{InWorkspace, NoEscape, check_path-inside}
use aegis_code.Governance.CommandFence.{
  file_consuming, looks_like_path, candidate, is_escape, is_checked, token_reason, fence_token,
  fence_tokens, fence_argv, fence_command,
}

-- What the fence promises of one argument.
pub record Clear (files : Files) (consuming : Bool) (root : String) (patterns : List String)
    (token : String) : Type 0 where
  pub in_workspace :
      looks_like_path (candidate token) ≡ true → InWorkspace files (candidate token) root
  pub fenced :
      consuming ≡ true
      → is_checked (candidate token) patterns ≡ true
      → Fenced files (str (candidate token)) root patterns

looks_like_path-not_empty : (s : String) → looks_like_path s ≡ true → is_empty s ≡ false
unfolding looks_like_path
looks_like_path-not_empty String.[] h = cc
looks_like_path-not_empty (String.◌∷◌ c s) h = refl

is_escape-NoEscape : (reason : String) → is_escape reason ≡ false → NoEscape reason
unfolding is_escape
is_escape-NoEscape reason h =
    (λ e. cc (subst (λ r. is_escape r ≡ false) e h), λ e. cc (subst (λ r. is_escape r ≡ false) e h))

str_inj : {a b : String} → str a ≡ str b → a ≡ b
str_inj h = cc

module _ (files : Files) (consuming : Bool) (root : String) (patterns : List String) where
  allowed-Clear :
      (token : String) (pv : PathVerdict)
      → check_path files (str (candidate token)) root patterns ≡ ok pv
      → pv.allowed ≡ true
      → Clear files consuming root patterns token
  allowed-Clear token pv read allowed =
      let f = check_path-Fenced files (str (candidate token)) root patterns pv read allowed in
      record {
        in_workspace =
            λ p. subst (λ c. InWorkspace files c root) (sym (str_inj f.is_text)) f.inside;
        fenced = λ c p. f;
      }

  let_pass-Clear :
      (token : String) (pv : PathVerdict)
      → check_path files (str (candidate token)) root patterns ≡ ok pv
      → is_escape pv.reason ≡ false
      → consuming ≡ false
      → Clear files consuming root patterns token
  let_pass-Clear token pv read no_escape idle = record {
    in_workspace = λ p.
        check_path-inside files (candidate token) root patterns pv
          (looks_like_path-not_empty (candidate token) p) read
          (is_escape-NoEscape pv.reason no_escape);
    fenced = λ c p. ground arith;
  }

  -- a verdict that gives no reason
  token_reason-none :
      (pv : PathVerdict)
      → token_reason consuming pv ≡ none
      → (pv.allowed ≡ true) ⊎ (is_escape pv.reason ≡ false) × (consuming ≡ false)
  unfolding token_reason
  token_reason-none pv h = ground arith

  checked-Clear :
      (token : String) (r : Result PathVerdict)
      → check_path files (str (candidate token)) root patterns ≡ r
      → fence_token files consuming root patterns token ≡ ok none
      → is_checked (candidate token) patterns ≡ true
      → Clear files consuming root patterns token
  unfolding fence_token
  checked-Clear token (err e) read h checked = ground arith
  checked-Clear token (ok pv) read h checked = elim (token_reason-none pv (ground arith)) [
    | inl allowed ↦ allowed-Clear token pv read allowed
    | inr (no_escape, idle) ↦ let_pass-Clear token pv read no_escape idle
  ]

  fence_token-Clear :
      (token : String)
      → fence_token files consuming root patterns token ≡ ok none
      → Clear files consuming root patterns token
  fence_token-Clear token h = elim (Bool-cases (is_checked (candidate token) patterns)) [
    | inl checked ↦ checked-Clear token _ refl h checked
    | inr skipped ↦ record { in_workspace = λ p. ground arith; fenced = λ c p. ground arith }
  ]

  fence_tokens-Clear :
      (tokens : List String)
      → fence_tokens files consuming root patterns tokens ≡ ok none
      → All (Clear files consuming root patterns) tokens
  unfolding fence_tokens
  fence_tokens-Clear [] h = tt
  fence_tokens-Clear (t ∷ ts) h =
      (fence_token-Clear t (ground arith), fence_tokens-Clear ts (ground arith))

fence_argv-Clear :
    (files : Files) (root argv0 : String) (args patterns : List String)
    → fence_argv files root patterns (argv0 ∷ args) ≡ ok none
    → All (Clear files (file_consuming argv0) root patterns) args
unfolding fence_argv
fence_argv-Clear files root argv0 args patterns h =
    fence_tokens-Clear files (file_consuming argv0) root patterns args h

fence_command-argv :
    (files : Files) (command : Json) (root : String) (patterns : List String) (lr : LexResult)
    → lex_command command ≡ ok lr
    → lr.is_ok ≡ true
    → fence_command files command root patterns ≡ fence_argv files root patterns lr.argv
unfolding fence_command
fence_command-argv files command root patterns lr read good = rw (read, good) refl

-- In a command that is read and that the fence does not refuse, every argument that looks like a
-- path stands for a file in the workspace, whatever the program; and if the program reads files,
-- every argument that is a path or has a sensitive name passes the path fence whole.
pub fence_command-clears :
    (files : Files) (command : Json) (root : String) (patterns : List String) (lr : LexResult)
    (argv0 : String) (args : List String)
    → lex_command command ≡ ok lr
    → lr.is_ok ≡ true
    → lr.argv ≡ argv0 ∷ args
    → fence_command files command root patterns ≡ ok none
    → All (Clear files (file_consuming argv0) root patterns) args
fence_command-clears files command root patterns lr argv0 args read good argv h =
    fence_argv-Clear files root argv0 args patterns (
      ap (fence_argv files root patterns) (sym argv)
      ∙ sym (fence_command-argv files command root patterns lr read good)
      ∙ h)
