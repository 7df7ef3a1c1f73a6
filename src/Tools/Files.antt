-- ===== src/Tools/Files.antt =====
-- aegiscode/tools/file_tools.py over the operating system `os`. A context's `snapshot` does nothing.
pub mod Writes
pub mod Search
mod Samples
use aegis_code.Prelude.{
  ℕ, ◌+◌, String, Bool, true, false, List, [], ◌∷◌, ◌++◌, Option, none, some, Result, ok, err,
  Error, key_error, type_error, attribute_error, os_error, message, ◌>>=◌, any, length, nat_eq, ltb,
  if◌then◌else◌,
}
use aegis_code.Prelude.Text.{◌+s◌, contains, dirname, is_empty, join_path, join_with}
use aegis_code.Prelude.Text.Repr.{repr, decimal}
use aegis_code.Prelude.Text.Lines.{encode, sort, splitlines, strip}
use aegis_code.Json.{
  Json, null, bool, num, str, arr, obj, Fields, end, field, cons, nil, get, get_or, type_name,
}
use aegis_code.Tools.{success, error, tool_error, ToolResult, result, Ctx, Tool}
use aegis_code.Tools.Os.{Os}

-- arguments[key]
unfoldable pub argument : String → Fields → Result Json
unfolding get repr
argument key arguments = elim (get key arguments) [
  | none ↦ err (key_error (repr key))
  | some v ↦ ok v
]

-- ctx.resolve(path), which begins with os.path.isabs
pub resolve_json : Ctx → Json → Result String
unfolding type_name
resolve_json ctx (str path) = ok (ctx.resolve path)
resolve_json ctx v =
    err (type_error ("expected str, bytes or os.PathLike object, not " +s type_name v))

-- content.encode()
pub encode_json : Json → Result (List ℕ)
unfolding type_name
encode_json (str s) = ok (encode s)
encode_json v = err (attribute_error ("'" +s type_name v +s "' object has no attribute 'encode'"))

-- the text of an argument in a format string; one that gets here is a text
abbrev pub shown : Json → String
shown (str s) = s
shown _ = ""

-- _is_binary
unfoldable pub is_binary : List ℕ → Bool
is_binary bytes = any (λ b. nat_eq b 0) bytes

abbrev failed : String → String → ToolResult
failed tool summary = result tool error (some tool_error) summary

-- `except OSError as e`: a result that tells it; other errors are raised
pub caught {ℓ} :
    {A : Type ℓ} → String → String → (A → Result ToolResult) → Result A → Result ToolResult
caught tool what next (ok a) = next a
caught tool what next (err (os_error e)) = ok (failed tool (what +s ": " +s e))
caught tool what next (err e) = err e

-- what a read file tells
pub read_result : (List ℕ → String) → List ℕ → ToolResult
unfolding is_binary
read_result decode raw =
    let text = decode raw in
    if is_binary raw
    then result "read_file" success none "binary skipped"
    else record (result "read_file" success none
        ("read " +s decimal (length (splitlines text)) +s " lines")) { detail_for_llm = text }

pub list_result : List String → ToolResult
list_result entries =
    record (result "list_files" success none (decimal (length entries) +s " entries")) {
      detail_for_llm = join_with "\n" (sort entries);
    }

-- q in line
has_query : Json → String → Result Bool
unfolding type_name
has_query (str q) line = ok (contains q line)
has_query v line =
    err (type_error ("'in <string>' requires string as left operand, not " +s type_name v))

-- a line that is hit, as it is shown
unfoldable pub hit_line : String → ℕ → String → String
hit_line relative i line = relative +s ":" +s decimal i +s ": " +s strip line

-- the hits among the lines of a file, from line `i`
pub line_hits : Json → String → ℕ → List String → Result (List String)
unfolding has_query hit_line
line_hits q relative i [] = ok []
line_hits q relative i (line ∷ lines) =
    let rest = line_hits q relative (i + 1) lines in
    has_query q line >>= λ found.
    rest >>= λ hits. ok (if found then hit_line relative i line ∷ hits else hits)

module _ {W : Type 0} (os : Os W) where
  -- a file of the walk: one that cannot be read, or is binary, is passed over
  pub file_hits : Json → String → String → W → Result (List ℕ) → Result (List String)
  unfolding is_binary line_hits
  file_hits q base path w (err (os_error e)) = ok []
  file_hits q base path w (err e) = err e
  file_hits q base path w (ok raw) =
      if is_binary raw
      then ok []
      else line_hits q (os.relpath path base) 1 (splitlines (os.decode raw))

  pub dir_hits : Json → String → String → W → List String → Result (List String)
  unfolding file_hits
  dir_hits q base dp w [] = ok []
  dir_hits q base dp w (fn ∷ fs) =
      let path = join_path dp fn in
      let rest = dir_hits q base dp w fs in
      file_hits q base path w (os.read_bytes path w) >>= λ hits. rest >>= λ more. ok (hits ++ more)

  pub walk_hits : Json → String → W → List (String × List String) → Result (List String)
  unfolding dir_hits
  walk_hits q base w [] = ok []
  walk_hits q base w ((dp, fs) ∷ dirs) =
      let rest = walk_hits q base w dirs in
      dir_hits q base dp w fs >>= λ hits. rest >>= λ more. ok (hits ++ more)

  -- os.path.dirname(abspath) or "."
  abbrev pub parent_of : String → String
  unfolding dirname
  parent_of path = let parent = dirname path in if is_empty parent then "." else parent

  -- behind the making of the directory
  unfoldable pub then_write : String → List ℕ → Result (Unit {0}) × W → Result (Unit {0}) × W
  then_write abspath bytes (err e, w) = (err e, w)
  then_write abspath bytes (ok _, w) = os.write_bytes abspath bytes w

  -- the `try` of WriteFileTool: the directory, then the file
  unfoldable pub write_through : String → List ℕ → W → Result (Unit {0}) × W
  unfolding then_write
  write_through abspath bytes w = then_write abspath bytes (os.makedirs (parent_of abspath) w)

  pub wrote : String → ToolResult
  wrote path = record (result "write_file" success none ("wrote " +s path)) {
    artifacts = field "changed_files" (arr (cons (str path) nil)) end;
  }

  pub write_to : String → List ℕ → Result String → W → Result ToolResult × W
  unfolding write_through caught wrote
  write_to path bytes (err e) w = (err e, w)
  write_to path bytes (ok abspath) w =
      let (r, w') = write_through abspath bytes w in
      (caught "write_file" ("cannot write " +s path) (λ _. ok (wrote path)) r, w')

  -- behind the two lookups and the encoding
  pub write_checked : Ctx → Json → Result (List ℕ) → W → Result ToolResult × W
  unfolding write_to resolve_json
  write_checked ctx path (err e) w = (err e, w)
  write_checked ctx path (ok bytes) w =
      if ltb ctx.write_max_bytes (length bytes)
      then (ok (failed "write_file" "content exceeds write_max_bytes"), w)
      else write_to (shown path) bytes (resolve_json ctx path) w

  write_args : Ctx → Result Json → Result Json → W → Result ToolResult × W
  unfolding encode_json write_checked
  write_args ctx (err e) content w = (err e, w)
  write_args ctx (ok path) content w = write_checked ctx path (content >>= encode_json) w

  -- WriteFileTool.run
  pub write_file : Fields → Ctx → W → Result ToolResult × W
  unfolding argument write_args
  write_file arguments ctx w =
      write_args ctx (argument "path" arguments) (argument "content" arguments) w

  -- ReadFileTool.run
  unfoldable pub read_file : Fields → Ctx → W → Result ToolResult × W
  unfolding argument resolve_json caught read_result
  read_file arguments ctx w = (
    argument "path" arguments >>= λ path. resolve_json ctx path >>= λ abspath.
        caught "read_file" ("cannot read " +s shown path) (λ raw. ok (read_result os.decode raw))
          (os.read_bytes abspath w),
    w,
  )

  -- ListFilesTool.run
  unfoldable pub list_files : Fields → Ctx → W → Result ToolResult × W
  unfolding resolve_json caught list_result
  list_files arguments ctx w =
      let path = get_or "path" (str ".") arguments in
      (
        resolve_json ctx path >>= λ root.
            caught "list_files" ("cannot list " +s shown path) (λ entries. ok (list_result entries))
              (os.listdir root w),
        w,
      )

  unfoldable pub search_result : List String → ToolResult
  search_result hits =
      record (result "search_text" success none (decimal (length hits) +s " matches")) {
        detail_for_llm = join_with "\n" hits;
      }

  -- SearchTextTool.run
  unfoldable pub search_text : Fields → Ctx → W → Result ToolResult × W
  unfolding argument walk_hits search_result
  search_text arguments ctx w = (
    argument "query" arguments >>= λ q.
        walk_hits q (ctx.resolve ".") w (os.walk (ctx.resolve ".") w) >>= λ hits.
        ok (search_result hits),
    w,
  )

-- "type", "required" and "note" of a parameter
abbrev parameter : String → Bool → String → Json
parameter type required note =
    obj (field "type" (str type) (field "required" (bool required) (field "note" (str note) end)))

module _ {W : Type 0} (os : Os W) where
  abbrev pub write_file_tool : Tool W
  write_file_tool = record {
    name = "write_file";
    description =
        "Overwrite a text file in the workspace with the given content (full-content write).";
    parameters =
        field "path"
          (parameter "string" true "workspace-relative path; no traversal/absolute/sensitive files")
          (field "content"
            (parameter "string" true "full new file contents (text only; size-limited)") end);
    run = write_file os;
  }

  abbrev pub read_file_tool : Tool W
  read_file_tool = record {
    name = "read_file";
    description = "Read a text file from the workspace and return its contents.";
    parameters = field "path" (parameter "string" true "workspace-relative path") end;
    run = read_file os;
  }

  abbrev pub list_files_tool : Tool W
  list_files_tool = record {
    name = "list_files";
    description = "List entries of a workspace directory.";
    parameters =
        field "path" (parameter "string" false "workspace-relative dir; defaults to '.'") end;
    run = list_files os;
  }

  abbrev pub search_text_tool : Tool W
  search_text_tool = record {
    name = "search_text";
    description =
        "Search all text files under the workspace for a substring; returns file:line matches.";
    parameters = field "query" (parameter "string" true "substring to search for") end;
    run = search_text os;
  }
