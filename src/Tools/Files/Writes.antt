-- ===== src/Tools/Files/Writes.antt =====
-- What WriteFileTool of aegiscode/tools/file_tools.py does to the world, and what ReadFileTool finds.
use aegis_code.Prelude.{
  ◌≡◌, refl, ap, ◌⊎◌, inl, inr, ◌≤◌, ◌≢◌, ℕ, String, none, some, Option, List, Result, ok, err,
  os_error, length, if◌then◌else◌, arith, ltb, Bool-cases, ltb→le,
}
use aegis_code.Prelude.Text.{◌+s◌, has_char}
use aegis_code.Prelude.Text.Repr.{decimal}
use aegis_code.Prelude.Text.Lines.{encode, splitlines, zero-encode}
use aegis_code.Json.{Json, str, get, Fields, end, field}
use aegis_code.Tools.{success, ToolResult, result, Ctx}
use aegis_code.Tools.Os.{Os, IsLawful}
use aegis_code.Tools.Files.{
  argument, resolve_json, encode_json, is_binary, caught, read_result, write_through, then_write,
  wrote, write_to, write_args, write_checked, write_file, read_file,
}

abbrev pub writing : String → String → Fields
writing path content = field "path" (str path) (field "content" (str content) end)

abbrev pub reading : String → Fields
reading path = field "path" (str path) end

-- what reading a text file gives: its text, unless a NUL makes it binary
abbrev pub text_read : String → ToolResult
text_read content =
    if has_char 0 content
    then result "read_file" success none "binary skipped"
    else record (result "read_file" success none
        ("read " +s decimal (length (splitlines content)) +s " lines")) { detail_for_llm = content }

module _ {W : Type 0} (os : Os W) (ctx : Ctx) (w : W) where
  -- What a write that touches the world has been given, and what it did.
  pub record Written (arguments : Fields) : Type 0 where
    pub path : String
    pub content : String
    pub at_path : get "path" arguments ≡ some (str path)
    pub of_content : get "content" arguments ≡ some (str content)
    pub fits : length (encode content) ≤ ctx.write_max_bytes
    pub only :
        (write_file os arguments ctx w).1
        ≡ (write_through os (ctx.resolve path) (encode content) w).1

  text_args-Written :
      (arguments : Fields) (path content : String)
      → get "path" arguments ≡ some (str path)
      → get "content" arguments ≡ some (str content)
      → write_file os arguments ctx w ≡ write_checked os ctx (str path) (ok (encode content)) w
      → ((write_file os arguments ctx w).1 ≡ w) ⊎ Written arguments
  unfolding write_checked write_to resolve_json
  text_args-Written arguments path content p c run =
      elim (Bool-cases (ltb ctx.write_max_bytes (length (encode content)))) [
        | inl long ↦ inl (rw run (rw long))
        | inr fits ↦ inr (record {
          path = path;
          content = content;
          at_path = p;
          of_content = c;
          fits = ltb→le _ _ fits;
          only = rw run (rw fits);
        })
      ]

  no_text_path :
      (path : Json) (bytes : Result (List ℕ))
      → ((s : String) → path ≢ str s)
      → (write_checked os ctx path bytes w).1 ≡ w
  unfolding write_checked write_to resolve_json
  no_text_path (str s) bytes n = absurd (n s refl)
  no_text_path path (ok b) n = ground arith
  no_text_path path (err e) n = refl

  args-Written :
      (arguments : Fields) (path content : Option Json)
      → get "path" arguments ≡ path
      → get "content" arguments ≡ content
      → ((write_file os arguments ctx w).1 ≡ w) ⊎ Written arguments
  unfolding write_file argument write_args encode_json write_checked
  args-Written arguments none content p c = inl (ground arith)
  args-Written arguments (some path) none p c = inl (ground arith)
  args-Written arguments (some (str path)) (some (str content)) p c =
      text_args-Written arguments path content p c (ground arith)
  args-Written arguments (some (str path)) (some content) p c = inl (ground arith)
  args-Written arguments (some path) (some content) p c =
      inl (ground (arith, no_text_path path (encode_json content) (λ s e. cc)))

  -- A write_file leaves the world as it was, or its content has at most write_max_bytes bytes and
  -- what it did is to make the directory of the resolved path and to write the content there.
  pub write_file-Written :
      (arguments : Fields) → ((write_file os arguments ctx w).1 ≡ w) ⊎ Written arguments
  write_file-Written arguments = args-Written arguments _ _ refl refl

then_write-read :
    {W : Type 0} (os : Os W) (lawful : IsLawful os) (path : String) (bytes : List ℕ)
    (m : Result (Unit {0}) × W)
    → (then_write os path bytes m).0 ≡ ok tt
    → os.read_bytes path (then_write os path bytes m).1 ≡ ok bytes
unfolding then_write
then_write-read os lawful path bytes (ok u, w) h = lawful.read-write path bytes w h
then_write-read os lawful path bytes (err e, w) h = cc

module _ {W : Type 0} (os : Os W) (lawful : IsLawful os) where
  read_back :
      (content : String)
      → os.decode (encode content) ≡ content
      → read_result os.decode (encode content) ≡ text_read content
  unfolding read_result is_binary
  read_back content decoded = rw (decoded, zero-encode content)

  caught-success :
      (what path : String) (r : ToolResult) (done : Result (Unit {0}))
      → caught "write_file" what (λ _. ok (wrote os path)) done ≡ ok r
      → r.status ≡ success
      → done ≡ ok tt
  unfolding caught
  caught-success what path r (ok _) h s = refl
  caught-success what path r (err (os_error e)) h s = absurd (ground arith)
  caught-success what path r (err e) h s = absurd (ground arith)

  through-read :
      (path content : String) (ctx : Ctx) (w : W) (r : ToolResult)
      → caught "write_file"
          ("cannot write " +s path)
          (λ _. ok (wrote os path))
          (write_through os (ctx.resolve path) (encode content) w).0
        ≡ ok r
      → r.status ≡ success
      → os.read_bytes (ctx.resolve path) (write_through os (ctx.resolve path) (encode content) w).1
        ≡ ok (encode content)
  unfolding write_through
  through-read path content ctx w r h s =
      then_write-read os lawful (ctx.resolve path) (encode content) _
        (caught-success _ path r _ h s)

  -- Where decoding undoes encoding on the content, a file that write_file has written reads back as
  -- its content, or as binary if the content has a NUL.
  pub read_file-write_file :
      (path content : String) (ctx : Ctx) (w : W) (r : ToolResult)
      → os.decode (encode content) ≡ content
      → (write_file os (writing path content) ctx w).0 ≡ ok r
      → r.status ≡ success
      → (read_file os (reading path) ctx (write_file os (writing path content) ctx w).1).0
        ≡ ok (text_read content)
  unfolding write_file write_args write_checked write_to read_file encode_json resolve_json argument
  read_file-write_file path content ctx w r decoded h s =
      elim (Bool-cases (ltb ctx.write_max_bytes (length (encode content)))) [
        | inl long ↦ absurd (ground arith)
        | inr fits ↦
            let kept = through-read path content ctx w r (rw fits at h) s in
            rw (fits, kept) (ap ok (read_back content decoded))
      ]
