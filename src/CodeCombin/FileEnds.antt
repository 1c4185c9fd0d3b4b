-- ===== src/CodeCombin/FileEnds.antt =====
-- Loading and combining files in common/codecombin.cpp comes to its end.
use ministudo_guibuilder.Prelude.{
  ℕ, zero, suc, ◌+◌, ◌*◌, ◌≤◌, ◌<◌, ◌≡◌, ◌≢◌, refl, ap, ◌∙◌, Bool, true, false, Option, none, some,
  List, [], ◌∷◌, ◌++◌, if◌then◌else◌, length, arith, Bool-cases, inl, inr,
}
use ministudo_guibuilder.Prelude.Run.{done, out_of_fuel, then_run}
use ministudo_guibuilder.Prelude.Access.{Access, ok, fault}
use ministudo_guibuilder.CodeCombin.Element.{Text, Element, Kind, text, compound, same_text}
use ministudo_guibuilder.CodeCombin.Save.{end_mark}
use ministudo_guibuilder.CodeCombin.Combine.{combin}
use ministudo_guibuilder.CodeCombin.Stream.{Stream, reading, fgetnstr, fungetnstr, fgetword}
use ministudo_guibuilder.CodeCombin.Load.{
  begin_mark, load_text, empty_text, load_name, word_stops, Next, ending, unknown, text_next, child,
  next_of_word, next_child, load_children, with_child, Loaded, document, load_file, children,
  with_children, combine_loaded, code_combin_files,
}
use ministudo_guibuilder.CodeCombin.Lengths.{
  left, size, size-le, size-unread, fgetnstr-length, fungetnstr-length, fgetword-le, load_name-size,
}
use ministudo_guibuilder.CodeCombin.Lookup.{same_text-eq}
use ministudo_guibuilder.CodeCombin.TextEnds.{load_text-ends}

-- What `next_child` leaves of the file.
abbrev Less : Stream → Next × Stream → Type 0
Less s (n, s') = (left s' ≤ left s) × ((k : Kind) → n ≡ child k → left s' < left s)

same_text-length : (a b : Text) → same_text a b ≡ true → length a ≡ length b
same_text-length a b h = ap length (same_text-eq a b h)

marked :
    (s : Stream) (mark : Text) (s' : Stream)
    → length mark + left s' ≤ left s
    → Less s (
        if same_text mark end_mark
        then (ending, s')
        else if same_text mark begin_mark
        then next_of_word (fgetword word_stops 255 s')
        else (text_next, fungetnstr mark s'))
marked s mark s' h = elim (Bool-cases (same_text mark end_mark)) [
  | inl last ↦ rw last (omega arith, λ k e. cc e)
  | inr more ↦ elim (Bool-cases (same_text mark begin_mark)) [
    | inl part ↦
        let word = fgetword-le word_stops 255 s' in
        let five = same_text-length mark begin_mark part in
        rw (more, part) (omega arith, λ k e. omega arith)
    | inr plain ↦ rw (more, plain) (omega (arith, fungetnstr-length mark s'), λ k e. cc e)
  ]
]

next_child-Less : (s : Stream) → Less s (next_child s)
unfolding next_child
next_child-Less s = marked s (fgetnstr 5 s).0 (fgetnstr 5 s).1 (fgetnstr-length 5 s)

size-end : (s : Stream) → s.at_end ≡ true → size s ≡ 0
size-end s over = ap (λ (b : Bool). if b then 0 else suc (left s)) over

abbrev Ends : ℕ → List Element → Stream → Type 0
Ends fuel es s = (r : Loaded) × (load_children fuel es s ≡ done r) × (size r.2 ≤ size s)

module _ (fuel : ℕ) (es : List Element) (s : Stream) (unread : s.at_end ≡ false) where
  load_children-text :
      (r : Option Text × Stream)
      → (next_child s).0 ≡ text_next
      → load_text fuel empty_text (next_child s).1 ≡ done r
      → load_children (suc fuel) es s ≡ load_children fuel (es ++ text r.0 ∷ []) r.1
  unfolding load_children
  load_children-text r e ends = rw (e, ends, unread) refl

  load_children-child :
      (k : Kind) (r : Loaded)
      → (next_child s).0 ≡ child k
      → load_children fuel [] (load_name (next_child s).1).1 ≡ done r
      → load_children (suc fuel) es s
        ≡ load_children fuel (with_child k (load_name (next_child s).1).0 es r) r.2
  unfolding load_children
  load_children-child k r e ends = rw (e, ends, unread) refl

-- With fuel for three rounds a character `CompoundElement::loadFromFile` ends.
load_children-Ends :
    (fuel : ℕ) (es : List Element) (s : Stream) → 3 * size s < fuel → Ends fuel es s
unfolding load_children
load_children-Ends zero es s h = elim h [ ]
load_children-Ends (suc fuel) es s h = elim (Bool-cases s.at_end) [
  | inl at_end ↦ ((true, es, s), rw at_end refl, omega arith)
  | inr unread ↦
      by_next (next_child s).0 refl unread (next_child-Less s)
        (λ es' s' fits. load_children-Ends fuel es' s' fits)
]
  where
    le : s.at_end ≡ false → left (next_child s).1 ≤ left s → size (next_child s).1 ≤ size s
    le unread less = omega (arith, size-unread s unread, size-le (next_child s).1)

    by_next :
        (n : Next)
        → (next_child s).0 ≡ n
        → s.at_end ≡ false
        → Less s (n, (next_child s).1)
        → ((es' : List Element) (s' : Stream) → 3 * size s' < fuel → Ends fuel es' s')
        → Ends (suc fuel) es s
    by_next ending e unread less rest =
        ((true, es, (next_child s).1), rw (e, unread) refl, le unread less.0)
    by_next unknown e unread less rest =
        ((false, es, (next_child s).1), rw (e, unread) refl, le unread less.0)
    by_next text_next e unread less rest =
        let s' = (next_child s).1 in
        let size_s = size-unread s unread in
        let shorter = le unread less.0 in
        let (r, ends, at_most, below) = load_text-ends fuel empty_text s' (omega arith) in
        let progress : size r.1 < size s = elim (Bool-cases s'.at_end) [
          | inl over ↦ omega (arith, size-end s' over)
          | inr more ↦ omega (arith, below refl more)
        ] in
        let (r', ends', at_most') = rest (es ++ text r.0 ∷ []) r.1 (omega arith) in
        (r', load_children-text fuel es s unread r e ends ∙ ends', omega arith)
    by_next (child k) e unread less rest =
        let s' = (next_child s).1 in
        let size_s = size-unread s unread in
        let shorter = less.1 k refl in
        let inner = load_name-size s' in
        let small = size-le s' in
        let (r, ends, at_most) = rest [] (load_name s').1 (omega arith) in
        let (r', ends', at_most') = rest (with_child k (load_name s').0 es r) r.2 (omega arith) in
        (r', load_children-child fuel es s unread k r e ends ∙ ends', omega arith)

-- With fuel for three rounds a byte, `LoadFromFile` ends.
load_file-ends :
    (fuel : ℕ) (bytes : Text)
    → 3 * suc (length bytes) < fuel
    → (e : Option Element) × (load_file fuel (some bytes) ≡ done e)
unfolding load_file
load_file-ends fuel bytes h =
    let (name, s) = load_name (reading bytes) in
    let (r, ends, at_most) =
      load_children-Ends fuel [] s (omega (arith, load_name-size (reading bytes))) in
    (document name r, rw ends refl)

abbrev pub file_size : Option Text → ℕ
file_size none = 0
file_size (some bytes) = length bytes

loaded :
    (fuel : ℕ) (file : Option Text)
    → 3 * suc (file_size file) < fuel
    → (e : Option Element) × (load_file fuel file ≡ done e)
loaded fuel none h = (none, unfold load_file in refl)
loaded fuel (some bytes) h = load_file-ends fuel bytes h

combine_loaded-ends : (from to : Option Element) → combine_loaded from to ≢ out_of_fuel
combine_loaded-ends none to e = cc e
combine_loaded-ends (some from) none e = cc e
combine_loaded-ends (some from) (some to) e = written to (combin (children to) (children from)) e
  where
    written :
        (to : Element) (r : Access (List Element))
        → then_run (with_children to r) (λ bytes. done (some bytes)) ≢ out_of_fuel
    written to fault e = cc e
    written (text t) (ok es) e = cc e
    written (compound k name old) (ok es) e = cc e

-- With fuel for three rounds a byte of each file, CodeCombinFiles comes to an end, be it a crash.
pub code_combin_files-ends :
    (fuel : ℕ) (from to : Option Text)
    → 3 * suc (file_size from) < fuel
    → 3 * suc (file_size to) < fuel
    → code_combin_files fuel from to ≢ out_of_fuel
unfolding code_combin_files
code_combin_files-ends fuel from to h h' e =
    let (f, read_f) = loaded fuel from h in
    let (t, read_t) = loaded fuel to h' in combine_loaded-ends f t (rw (read_f, read_t) at e)
