-- ===== src/CodeCombin/TextLoads.antt =====
-- What `TextElement::loadFromFile` of common/codecombin.cpp reads is what `saveToFile` has written.
use ministudo_guibuilder.Prelude.{
  ℕ, zero, suc, ◌+◌, ◌*◌, ◌-◌, ◌≤◌, ◌≡◌, refl, sym, ap, ◌∙◌, true, false, none, some, List, [], ◌∷◌,
  ◌++◌, length, arith, ◌⊎◌, drop, All, length-append,
}
use mathlib.Core.List.{append_assoc, append-nil}
use ministudo_guibuilder.Prelude.Run.{done}
use ministudo_guibuilder.CodeCombin.Element.{Text, text, append_text}
use ministudo_guibuilder.CodeCombin.Save.{save, end_mark}
use ministudo_guibuilder.CodeCombin.Stream.{reading, ended, end_of_file}
use ministudo_guibuilder.CodeCombin.Load.{Loading, begin_mark, flush_full, load_text, empty_text}
use ministudo_guibuilder.CodeCombin.TextEnds.{load_text-end}
use ministudo_guibuilder.CodeCombin.Gathered.{Gathered-read, Gathered-rest, append_text-cons}
use ministudo_guibuilder.CodeCombin.LineLoads.{
  Plain, unlines, IsLine, At, beyond, beyond-eq, round-char, after_round, load_char, load_chars,
  load_line, load_mark,
}

length-drop : (n : ℕ) (w : Text) → length (drop n w) ≤ length w
length-drop zero w = omega arith
length-drop (suc n) [] = omega arith
length-drop (suc n) (c ∷ w) = omega (arith, length-drop n w)

load_lines :
    (ls : List Text) (fuel : ℕ) (mark : Text) (l : Loading) (acc cs : Text)
    → At l acc true
    → All IsLine ls
    → (mark ≡ begin_mark) ⊎ (mark ≡ end_mark)
    → 2 * length (unlines ls) + 1 ≤ fuel
    → load_text fuel l (reading (unlines ls ++ (mark ++ cs)))
      ≡ done (append_text none (acc ++ unlines ls), reading (mark ++ cs))
load_lines [] fuel mark l acc cs at h marks enough =
    let one : fuel ≡ suc (fuel - 1) = omega arith in
    ap (λ f. load_text f l (reading (mark ++ cs))) one
    ∙ load_mark (fuel - 1) mark l acc cs at marks
    ∙ ap (λ u. done (append_text none u, reading (mark ++ cs))) (sym (append-nil acc))
load_lines (w ∷ ls) fuel mark l acc cs at h marks enough =
    let less = length-drop 5 w in
    let spent = length (drop 5 w) in
    let size = length-append w (10 ∷ unlines ls) in
    let more = fuel - (suc (suc spent)) in
    let (l', at', go) = load_line more w l acc (unlines ls ++ (mark ++ cs)) at h.0 in
    let round : fuel ≡ suc (suc (beyond (drop 5 w) more)) =
      omega (arith, beyond-eq (drop 5 w) more) in
    ap (λ u. load_text fuel l (reading u)) (append_assoc w (10 ∷ unlines ls) (mark ++ cs))
    ∙ ap (λ f. load_text f l (reading (w ++ 10 ∷ (unlines ls ++ (mark ++ cs))))) round
    ∙ go
    ∙ load_lines ls more mark l' (acc ++ (w ++ 10 ∷ [])) cs at' h.1 marks (omega arith)
    ∙ ap (λ u. done (append_text none u, reading (mark ++ cs))) (whole acc w (unlines ls))
  where
    whole : (acc w u : Text) → (acc ++ (w ++ 10 ∷ [])) ++ u ≡ acc ++ (w ++ 10 ∷ u)
    whole acc w u = simp append_assoc

-- A text that stands before a mark and ends with a line is loaded as it was saved, whatever its length,
-- and the mark is left in the file: if no line but the first begins with a mark, no line has a carriage
-- return, no byte of the text is 0 or 255, and there are two units of fuel for each byte and one more.
pub load_text-save :
    (w : Text) (ls : List Text) (fuel : ℕ) (mark cs : Text)
    → All Plain w
    → All IsLine ls
    → (mark ≡ begin_mark) ⊎ (mark ≡ end_mark)
    → 2 * length (unlines (w ∷ ls)) + 1 ≤ fuel
    → load_text fuel empty_text (reading (save (text (some (unlines (w ∷ ls)))) ++ (mark ++ cs)))
      ≡ done (some (unlines (w ∷ ls)), reading (mark ++ cs))
unfolding save
load_text-save w ls fuel mark cs h hs marks enough =
    let size = length-append w (10 ∷ unlines ls) in
    let spent = length w in
    let more = fuel - (suc spent) in
    let (l', at', go) =
      load_chars more w empty_text [] (unlines ls ++ (mark ++ cs))
        (record { bytes = tt; so_far = refl }, refl) h in
    let round : fuel ≡ suc (beyond w more) = omega (arith, beyond-eq w more) in
    ap (λ u. load_text fuel empty_text (reading u)) (append_assoc w (10 ∷ unlines ls) (mark ++ cs))
    ∙ ap (λ f. load_text f empty_text (reading (w ++ 10 ∷ (unlines ls ++ (mark ++ cs))))) round
    ∙ go
    ∙ load_lines ls more mark l' (w ++ 10 ∷ []) cs at' hs marks (omega arith)
    ∙ ap (λ t. done (t, reading (mark ++ cs))) (some_text w)
  where
    some_text :
        (w : Text) → append_text none ((w ++ 10 ∷ []) ++ unlines ls) ≡ some (w ++ 10 ∷ unlines ls)
    some_text [] = append_text-cons 10 (unlines ls)
    some_text (c ∷ w) =
        append_text-cons c ((w ++ 10 ∷ []) ++ unlines ls)
        ∙ ap (λ u. some (c ∷ u)) (append_assoc w (10 ∷ []) (unlines ls))

load_last :
    (fuel : ℕ) (w : Text) (l : Loading) (acc : Text)
    → At l acc false
    → All Plain w
    → load_text (suc (beyond w (suc fuel))) l (reading w)
      ≡ done (append_text none (acc ++ (w ++ end_of_file ∷ [])), ended)
load_last fuel [] l acc at h =
    let next : Loading = record l { newline = false; buffer = l.buffer ++ end_of_file ∷ [] } in
    after_round (suc fuel) l (reading []) (flush_full next) ended refl
      (round-char l (reading []) at.1)
    ∙ load_text-end fuel (flush_full next) ended refl
    ∙ ap (λ t. done (t, ended))
        (Gathered-rest (flush_full next) (acc ++ end_of_file ∷ [])
          (Gathered-read l acc (end_of_file ∷ []) false at.0 (refl, tt)))
load_last fuel (c ∷ w) l acc at h =
    let (l', at', go) = load_char (suc (beyond w (suc fuel))) l acc c w at h.0.0 in
    go
    ∙ load_last fuel w l' (acc ++ c ∷ []) (at'.0, at'.1 ∙ h.0.2) h.1
    ∙ ap (λ u. done (append_text none u, ended)) (append_assoc acc (c ∷ []) (w ++ end_of_file ∷ []))

-- A text that is one line at the end of a file, with no newline behind it, is loaded with a byte 255 at
-- its end: the end of the file is stored like a character.
pub load_text_last :
    (w : Text) (fuel : ℕ)
    → All Plain w
    → length w + 2 ≤ fuel
    → load_text fuel empty_text (reading w) ≡ done (some (w ++ end_of_file ∷ []), ended)
load_text_last w fuel h enough =
    let more = fuel - (length w + 2) in
    let rounds : fuel ≡ suc (beyond w (suc more)) = omega (arith, beyond-eq w (suc more)) in
    ap (λ f. load_text f empty_text (reading w)) rounds
    ∙ load_last more w empty_text [] (record { bytes = tt; so_far = nothing }, refl) h
    ∙ ap (λ t. done (t, ended)) (some_text w)
  where
    nothing : append_text none [] ≡ append_text none []
    nothing = refl

    some_text : (w : Text) → append_text none (w ++ end_of_file ∷ []) ≡ some (w ++ end_of_file ∷ [])
    some_text [] = append_text-cons end_of_file []
    some_text (c ∷ w) = append_text-cons c (w ++ end_of_file ∷ [])
