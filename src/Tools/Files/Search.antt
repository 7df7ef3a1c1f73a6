-- ===== src/Tools/Files/Search.antt =====
-- What SearchTextTool of aegiscode/tools/file_tools.py finds.
use aegis_code.Prelude.{
  ◌≡◌, refl, sym, ◌==◌, inl, inr, ◌+◌, ℕ, String, true, false, List, [], ◌∷◌, ◌++◌, Result, ok, err,
  ◌>>=◌, arith, eq_iff, Bool-cases, Result-cases,
}
use aegis_code.Prelude.Text.{contains, join_path, mem_text}
use aegis_code.Prelude.Text.Lines.{splitlines}
use aegis_code.Json.{str, Fields, field, end}
use aegis_code.Tools.{Ctx, ToolResult}
use aegis_code.Tools.Os.{Os}
use aegis_code.Tools.Files.{
  has_query, hit_line, line_hits, is_binary, file_hits, dir_hits, walk_hits, search_text,
  search_result, argument,
}

-- line `i` of the lines, counted from `start`
pub data LineAt (line : String) : ℕ → List String → ℕ → Type 0 where
  here : (start : ℕ) (lines : List String) → LineAt line start (line ∷ lines) start
  there :
      (start i : ℕ) (other : String) (lines : List String)
      → LineAt line (start + 1) lines i
      → LineAt line start (other ∷ lines) i

mem-append_left :
    (x : String) (xs ys : List String) → mem_text x xs ≡ true → mem_text x (xs ++ ys) ≡ true
unfolding mem_text
mem-append_left x [] ys h = absurd (ground arith)
mem-append_left x (y ∷ xs) ys h = ground (arith, mem-append_left x xs ys)

mem-append_right :
    (x : String) (xs ys : List String) → mem_text x ys ≡ true → mem_text x (xs ++ ys) ≡ true
unfolding mem_text
mem-append_right x [] ys h = h
mem-append_right x (y ∷ xs) ys h = ground (arith, mem-append_right x xs ys h)

-- the hits of a list of lines hold each line with the query, under its number
line_hits-here :
    (q relative line : String) (start i : ℕ) (lines hits : List String)
    → LineAt line start lines i
    → contains q line ≡ true
    → line_hits (str q) relative start lines ≡ ok hits
    → mem_text (hit_line relative i line) hits ≡ true
unfolding line_hits has_query mem_text
line_hits-here q relative line start i lines hits (here _ rest) c h =
    elim (Result-cases (line_hits (str q) relative (start + 1) rest)) [
      | inl (more, e) ↦
          ground (arith, eq_iff (hit_line relative start line) (hit_line relative start line))
      | inr (why, e) ↦ absurd (ground arith)
    ]
line_hits-here q relative line start i lines hits (there _ _ other rest at) c h =
    elim (Result-cases (line_hits (str q) relative (start + 1) rest)) [
      | inl (more, e) ↦
          let found = line_hits-here q relative line (start + 1) i rest more at c e in ground arith
      | inr (why, e) ↦ absurd (ground arith)
    ]

-- both parts of a search that went well
joined :
    (m n : Result (List String)) (hits : List String)
    → (m >>= λ a. n >>= λ b. ok (a ++ b)) ≡ ok hits
    → (a : List String) × (b : List String) × (m ≡ ok a) × (n ≡ ok b) × (hits ≡ a ++ b)
joined (ok a) (ok b) hits h = (a, b, refl, refl, cc)
joined (ok a) (err e) hits h = absurd (ground arith)
joined (err e) n hits h = absurd (ground arith)

module _ {W : Type 0} (os : Os W) (q base : String) (w : W) where
  -- A text file that can be read, and a line of it that holds the query.
  pub record HasLine (path line : String) (i : ℕ) : Type 0 where
    pub raw : List ℕ
    pub readable : os.read_bytes path w ≡ ok raw
    pub is_text : is_binary raw ≡ false
    pub at : LineAt line 1 (splitlines (os.decode raw)) i
    pub holds : contains q line ≡ true

  module _ (path line : String) (i : ℕ) (found : HasLine path line i) where
    abbrev hit : String
    hit = hit_line (os.relpath path base) i line

    file_hits-found :
        (hits : List String)
        → file_hits os (str q) base path w (os.read_bytes path w) ≡ ok hits
        → mem_text hit hits ≡ true
    unfolding file_hits
    file_hits-found hits h =
        line_hits-here q (os.relpath path base) line 1 i _ hits found.at found.holds
          (rw (found.readable, found.is_text) at h)

    dir_hits-found :
        (dp fn : String) (fs : List String)
        → path ≡ join_path dp fn
        → mem_text fn fs ≡ true
        → (hits : List String) → dir_hits os (str q) base dp w fs ≡ ok hits
        → mem_text hit hits ≡ true
    unfolding dir_hits mem_text
    dir_hits-found dp fn [] p m hits h = absurd (ground arith)
    dir_hits-found dp fn (other ∷ fs) p m hits h =
        let (a, b, first, rest, whole) = joined _ (dir_hits os (str q) base dp w fs) hits h in
        elim (Bool-cases (other == fn)) [
          | inl same ↦
              let mine = file_hits-found a (rw (p, sym ((eq_iff other fn).0 same)) first) in
              rw whole (mem-append_left hit a b mine)
          | inr differs ↦
              let mine = dir_hits-found dp fn fs p (ground arith) b rest in
              rw whole (mem-append_right hit a b mine)
        ]

-- A path that a walk lists: a file of one of its directories.
pub data Listed (path : String) : List (String × List String) → Type 0 where
  here :
      (dp fn : String) (fs : List String) (dirs : List (String × List String))
      → path ≡ join_path dp fn
      → mem_text fn fs ≡ true
      → Listed path ((dp, fs) ∷ dirs)
  there :
      (dir : String × List String) (dirs : List (String × List String))
      → Listed path dirs
      → Listed path (dir ∷ dirs)

abbrev pub searching : String → Fields
searching q = field "query" (str q) end

module _ {W : Type 0} (os : Os W) (q : String) (ctx : Ctx) (w : W) where
  walk_hits-found :
      (base path line : String) (i : ℕ)
      → HasLine os q base w path line i
      → (dirs : List (String × List String)) (hits : List String) → Listed path dirs
      → walk_hits os (str q) base w dirs ≡ ok hits
      → mem_text (hit_line (os.relpath path base) i line) hits ≡ true
  unfolding walk_hits
  walk_hits-found base path line i found [] hits l h = elim l [ ]
  walk_hits-found base path line i found ((dp, fs) ∷ dirs) hits (here _ fn _ _ p m) h =
      let (a, b, first, rest, whole) = joined _ (walk_hits os (str q) base w dirs) hits h in
      rw whole
        (mem-append_left _ a b (dir_hits-found os q base w path line i found dp fn fs p m a first))
  walk_hits-found base path line i found ((dp, fs) ∷ dirs) hits (there _ _ l) h =
      let (a, b, first, rest, whole) = joined _ (walk_hits os (str q) base w dirs) hits h in
      rw whole (mem-append_right _ a b (walk_hits-found base path line i found dirs b l rest))

  -- the lines that a search tells
  pub search_text-found :
      (path line : String) (i : ℕ) (r : ToolResult)
      → HasLine os q (ctx.resolve ".") w path line i
      → Listed path (os.walk (ctx.resolve ".") w)
      → (search_text os (searching q) ctx w).0 ≡ ok r
      → (hits : List String) × (r ≡ search_result os hits)
        × (mem_text (hit_line (os.relpath path (ctx.resolve ".")) i line) hits ≡ true)
  unfolding search_text argument
  search_text-found path line i r found l h =
      elim (Result-cases (walk_hits os (str q) (ctx.resolve ".") w (os.walk (ctx.resolve ".") w))) [
        | inl (hits, e) ↦
            (hits, (ground arith), walk_hits-found (ctx.resolve ".") path line i found _ hits l e)
        | inr (why, e) ↦ absurd (ground arith)
      ]
