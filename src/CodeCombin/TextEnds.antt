-- ===== src/CodeCombin/TextEnds.antt =====
-- `TextElement::loadFromFile` of common/codecombin.cpp comes to its end: each round leaves less of the
-- file.
use ministudo_guibuilder.Prelude.{
  ℕ, zero, suc, ◌+◌, ◌*◌, ◌≤◌, ◌<◌, ◌≡◌, refl, sym, ap, ◌∙◌, Bool, true, false, Option, none, some,
  [], ◌∷◌, ◌++◌, leb, if◌then◌else◌, length, arith, Bool-cases, inl, inr, some-inj,
}
use ministudo_guibuilder.Prelude.Run.{done}
use ministudo_guibuilder.CodeCombin.Element.{Text}
use ministudo_guibuilder.CodeCombin.Stream.{Stream, fgetnstr, fungetnstr}
use ministudo_guibuilder.CodeCombin.Load.{
  Loading, is_mark, flush_full, at_line, in_line, next_char, text_round, load_text, flush_rest,
}
use ministudo_guibuilder.CodeCombin.Lengths.{
  left, size, size-le, fgetnstr-length, fungetnstr-length,
}

-- A round at the start of a line keeps all that it gives back, and the next round is within the line.
abbrev After : Stream → Option Loading × Stream → Type 0
After s (o, s') = (size s' ≤ size s) × ((l : Loading) → o ≡ some l → l.newline ≡ false)

pub flush_full-newline : (l : Loading) → (flush_full l).newline ≡ l.newline
flush_full-newline l = elim (Bool-cases (leb 4090 (length l.buffer))) [
  | inl full ↦ rw full refl
  | inr room ↦ rw room refl
]

at_line-After :
    (l : Loading) (s : Stream) (r : Text × Stream)
    → s.at_end ≡ false
    → length r.0 + left r.1 ≤ left s
    → After s (at_line l r)
at_line-After l s (w, s') unread h = elim (Bool-cases (is_mark w)) [
  | inl mark ↦
      rw (mark, unread)
        (omega (arith, size-le (fungetnstr w s'), fungetnstr-length w s'), λ l' e. cc e)
  | inr other ↦
      rw (other, unread)
        (
          omega (arith, size-le s'),
          λ l' e.
              ap (λ (m : Loading). m.newline) (sym (some-inj e))
              ∙ flush_full-newline (record l { newline = false; buffer = l.buffer ++ w }),
        )
]

text_round-line :
    (l : Loading) (s : Stream) → s.at_end ≡ false → l.newline ≡ true → After s (text_round l s)
unfolding text_round
text_round-line l s unread newline =
    rw newline (at_line-After l s (fgetnstr 5 s) unread (fgetnstr-length 5 s))

text_round-char :
    (l : Loading) (s : Stream)
    → s.at_end ≡ false
    → l.newline ≡ false
    → (l' : Loading) × ((text_round l s).0 ≡ some l') × size (text_round l s).1 < size s
unfolding text_round
text_round-char l s unread inside = rw (inside, unread) (by_rest s.rest)
  where
    by_rest :
        (cs : Text)
        → (l' : Loading) × ((in_line (next_char l cs)).0 ≡ some l')
          × size (in_line (next_char l cs)).1 < suc (length cs)
    by_rest [] = (_, refl, omega arith)
    by_rest (c ∷ cs) = (_, refl, omega arith)

abbrev pub rounds : Loading → Stream → ℕ
rounds l s = 2 * size s + (if l.newline then 1 else 0)

rounds-line : (l : Loading) (s : Stream) → l.newline ≡ true → rounds l s ≡ 2 * size s + 1
rounds-line l s newline = ap (λ (b : Bool). 2 * size s + (if b then 1 else 0)) newline

rounds-char : (l : Loading) (s : Stream) → l.newline ≡ false → rounds l s ≡ 2 * size s
rounds-char l s inside = ap (λ (b : Bool). 2 * size s + (if b then 1 else 0)) inside ∙ omega arith

rounds-le : (l : Loading) (s : Stream) → rounds l s ≤ 2 * size s + 1
rounds-le l s = elim (Bool-cases l.newline) [
  | inl newline ↦ omega (arith, rounds-line l s newline)
  | inr inside ↦ omega (arith, rounds-char l s inside)
]

pub load_text-next :
    (fuel : ℕ) (l : Loading) (s : Stream) (l' : Loading)
    → s.at_end ≡ false
    → (text_round l s).0 ≡ some l'
    → load_text (suc fuel) l s ≡ load_text fuel l' (text_round l s).1
unfolding load_text
load_text-next fuel l s l' unread e = rw (e, unread) refl

pub load_text-break :
    (fuel : ℕ) (l : Loading) (s : Stream)
    → s.at_end ≡ false
    → (text_round l s).0 ≡ none
    → load_text (suc fuel) l s ≡ done (flush_rest l, (text_round l s).1)
unfolding load_text
load_text-break fuel l s unread e = rw (e, unread) refl

pub load_text-end :
    (fuel : ℕ) (l : Loading) (s : Stream)
    → s.at_end ≡ true
    → load_text (suc fuel) l s ≡ done (flush_rest l, s)
unfolding load_text
load_text-end fuel l s at_end = rw at_end refl

-- With fuel for two rounds a character `TextElement::loadFromFile` ends, and it reads a character
-- unless it starts at a line.
pub load_text-ends :
    (fuel : ℕ) (l : Loading) (s : Stream)
    → rounds l s < fuel
    → (r : Option Text × Stream) × (load_text fuel l s ≡ done r)
      × (size r.1 ≤ size s)
      × (l.newline ≡ false → s.at_end ≡ false → size r.1 < size s)
load_text-ends zero l s h = elim h [ ]
load_text-ends (suc fuel) l s h = elim (Bool-cases s.at_end) [
  | inl at_end ↦
      ((flush_rest l, s), load_text-end fuel l s at_end, omega arith, λ a b. cc (at_end, b))
  | inr unread ↦ elim (Bool-cases l.newline) [
    | inl newline ↦
        at_line_start unread newline (text_round l s).0 refl (text_round-line l s unread newline)
          (λ l' fits. load_text-ends fuel l' (text_round l s).1 fits)
    | inr inside ↦
        let (l', e, shorter) = text_round-char l s unread inside in
        let (r, ends, le, lt) =
          load_text-ends fuel l' (text_round l s).1
            (omega (arith, rounds-le l' (text_round l s).1, rounds-char l s inside)) in
        (r, load_text-next fuel l s l' unread e ∙ ends, omega arith, λ a b. omega arith)
  ]
]
  where
    at_line_start :
        s.at_end ≡ false
        → l.newline ≡ true
        → (o : Option Loading) → (text_round l s).0 ≡ o
        → After s (o, (text_round l s).1)
        → ((l' : Loading)
            → rounds l' (text_round l s).1 < fuel
            → (r : Option Text × Stream) × (load_text fuel l' (text_round l s).1 ≡ done r)
              × (size r.1 ≤ size (text_round l s).1)
              × (l'.newline ≡ false
                  → (text_round l s).1.at_end ≡ false
                  → size r.1 < size (text_round l s).1))
        → (r : Option Text × Stream) × (load_text (suc fuel) l s ≡ done r)
          × (size r.1 ≤ size s)
          × (l.newline ≡ false → s.at_end ≡ false → size r.1 < size s)
    at_line_start unread newline none e after rest = (
      (flush_rest l, (text_round l s).1),
      load_text-break fuel l s unread e,
      after.0,
      λ a b. cc (newline, a),
    )
    at_line_start unread newline (some l') e after rest =
        let (r, ends, le, lt) = rest l' (
          omega (
            arith,
            rounds-char l' (text_round l s).1 (after.1 l' refl),
            rounds-line l s newline,
            after.0,
          )) in
        (
          r,
          load_text-next fuel l s l' unread e ∙ ends,
          omega (arith, after.0),
          λ a b. cc (newline, a),
        )
