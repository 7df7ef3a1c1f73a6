-- ===== src/Feedback/Window.antt =====
-- The history that the progress tracker of aegiscode/feedback/classifier.py answers from.
use mathlib.Core.List.{append-nil, append_assoc}
use native.Mathlib.Nat.{suc-add, zero-add, zero-sub}
use aegis_code.Prelude.{
  ℕ, zero, suc, ◌+◌, ◌-◌, ◌≤◌, ◌≡◌, refl, sym, ap, ◌∙◌, String, List, [], ◌∷◌, ◌++◌, arith, length,
  drop, length-append, length-drop,
}
use aegis_code.Prelude.Text.{mem_text}
use aegis_code.Feedback.{keep_last, seen}

-- The tracker after a history of fingerprints, the oldest first.
abbrev pub after : ℕ → List String → List String → List String
after window recent [] = recent
after window recent (fp ∷ fps) = after window (seen window fp recent).1 fps

drop-append : (n : ℕ) (xs ys : List String) → n ≤ length xs → drop n (xs ++ ys) ≡ drop n xs ++ ys
drop-append zero xs ys h = refl
drop-append (suc n) [] ys h = absurd (omega arith)
drop-append (suc n) (x ∷ xs) ys h = drop-append n xs ys (omega arith)

drop-drop : (m n : ℕ) (xs : List String) → drop m (drop n xs) ≡ drop (n + m) xs
drop-drop m zero xs = rw zero-add refl
drop-drop zero (suc n) [] = rw suc-add refl
drop-drop (suc m) (suc n) [] = rw suc-add refl
drop-drop m (suc n) (x ∷ xs) = rw suc-add (drop-drop m n xs)

keep_last-keep_last :
    (w : ℕ) (xs : List String) (fp : String)
    → keep_last w (keep_last w xs ++ fp ∷ []) ≡ keep_last w (xs ++ fp ∷ [])
keep_last-keep_last w xs fp =
    let a = length xs - w in
    rw (← drop-append a xs (fp ∷ []) (omega arith)) (
      drop-drop _ a (xs ++ fp ∷ [])
      ∙ ap (λ k. drop k (xs ++ fp ∷ []))
          (omega (arith, length-append xs (fp ∷ []), length-drop a (xs ++ fp ∷ []))))

after-keep_last :
    (w : ℕ) (xs fps : List String) → after w (keep_last w xs) fps ≡ keep_last w (xs ++ fps)
unfolding seen
after-keep_last w xs [] = rw append-nil refl
after-keep_last w xs (fp ∷ fps) =
    ap (λ r. after w r fps) (keep_last-keep_last w xs fp)
    ∙ after-keep_last w (xs ++ fp ∷ []) fps
    ∙ ap (keep_last w) (append_assoc xs (fp ∷ []) fps)

keep_last-nil : (w : ℕ) → keep_last {A = String} w [] ≡ []
keep_last-nil w = rw zero-sub refl

-- Whatever was proposed before, the tracker reports a repetition exactly if the fingerprint is among
-- the last `window` ones of the history.
pub seen-after :
    (window : ℕ) (history : List String) (fp : String)
    → (seen window fp (after window [] history)).0 ≡ mem_text fp (keep_last window history)
unfolding seen
seen-after window history fp = ap (mem_text fp) (
    ap (λ r. after window r history) (sym (keep_last-nil window))
    ∙ after-keep_last window [] history)
