-- ===== src/CodeCombin/LineLoads.antt =====
-- The rounds of `TextElement::loadFromFile` in common/codecombin.cpp: a character, a line, a mark.
use ministudo_guibuilder.Prelude.{
  ℕ, zero, suc, ◌+◌, ◌≡◌, refl, ap, ◌∙◌, Bool, true, false, Option, none, some, List, [], ◌∷◌, ◌++◌,
  ◌==◌, if◌then◌else◌, length, arith, inl, inr, ◌⊎◌, take, drop, All,
}
use mathlib.Core.Path.{subst}
use mathlib.Core.List.{append_assoc}
use ministudo_guibuilder.Prelude.Run.{done}
use ministudo_guibuilder.CodeCombin.Element.{Text, append_text}
use ministudo_guibuilder.CodeCombin.Save.{end_mark}
use ministudo_guibuilder.CodeCombin.Stream.{
  Stream, reading, end_of_file, is_newline, also, read_word, fgetnstr, fungetnstr,
}
use ministudo_guibuilder.CodeCombin.Load.{
  Loading, is_mark, begin_mark, flush_full, flush_rest, text_round, at_line, in_line, next_char,
  load_text,
}
use ministudo_guibuilder.CodeCombin.TextEnds.{load_text-next, load_text-break, flush_full-newline}
use ministudo_guibuilder.CodeCombin.Gathered.{Gathered, Gathered-read, Gathered-rest, IsByte}

-- A character within a line: not NUL, not 255, no newline.
abbrev pub Plain : ℕ → Type 0
Plain c = IsByte c × ((c == end_of_file) ≡ false) × (is_newline c ≡ false)

abbrev pub unlines : List Text → Text
unlines [] = []
unlines (l ∷ ls) = l ++ 10 ∷ unlines ls

-- A line that can be told from a mark.
abbrev pub IsLine : Text → Type 0
IsLine l = All Plain l × (is_mark (take 5 l) ≡ false)

pub Plain-bytes : (w : Text) → All Plain w → All IsByte w
Plain-bytes [] h = tt
Plain-bytes (c ∷ w) h = (h.0.0, Plain-bytes w h.1)

Plain-take : (n : ℕ) (w : Text) → All Plain w → All Plain (take n w)
Plain-take zero w h = tt
Plain-take (suc n) [] h = tt
Plain-take (suc n) (c ∷ w) h = (h.0, Plain-take n w h.1)

Plain-drop : (n : ℕ) (w : Text) → All Plain w → All Plain (drop n w)
Plain-drop zero w h = h
Plain-drop (suc n) [] h = tt
Plain-drop (suc n) (c ∷ w) h = Plain-drop n w h.1

take-append-drop : (n : ℕ) (w : Text) → take n w ++ drop n w ≡ w
take-append-drop zero w = refl
take-append-drop (suc n) [] = refl
take-append-drop (suc n) (c ∷ w) = ap (λ u. c ∷ u) (take-append-drop n w)

-- `fgetnstr` stays within the line.
fgetnstr-line :
    (n : ℕ) (l cs : Text)
    → All Plain l
    → fgetnstr n (reading (l ++ 10 ∷ cs)) ≡ (take n l, reading (drop n l ++ 10 ∷ cs))
unfolding fgetnstr read_word
fgetnstr-line n l cs h = by_length n l h
  where
    by_length :
        (n : ℕ) (l : Text)
        → All Plain l
        → read_word [] n (l ++ 10 ∷ cs) ≡ (take n l, reading (drop n l ++ 10 ∷ cs))
    by_length zero l h = refl
    by_length (suc n) [] h = refl
    by_length (suc n) (c ∷ l) h = rw (h.0.1, h.0.2) (ap (also c) (by_length n l h.1))

round-line :
    (l : Loading) (s : Stream) → l.newline ≡ true → text_round l s ≡ at_line l (fgetnstr 5 s)
unfolding text_round
round-line l s newline =
    ap (λ (b : Bool). if b then at_line l (fgetnstr 5 s) else in_line (next_char l s.rest)) newline

pub round-char :
    (l : Loading) (s : Stream) → l.newline ≡ false → text_round l s ≡ in_line (next_char l s.rest)
unfolding text_round
round-char l s inside =
    ap (λ (b : Bool). if b then at_line l (fgetnstr 5 s) else in_line (next_char l s.rest)) inside

pub after_round :
    (fuel : ℕ) (l : Loading) (s : Stream) (l' : Loading) (s' : Stream)
    → s.at_end ≡ false
    → text_round l s ≡ (some l', s')
    → load_text (suc fuel) l s ≡ load_text fuel l' s'
after_round fuel l s l' s' unread round =
    load_text-next fuel l s l' unread (ap (λ (r : Option Loading × Stream). r.0) round)
    ∙ ap (λ (r : Option Loading × Stream). load_text fuel l' r.1) round

at_line-text :
    (l : Loading) (v : Text) (s : Stream)
    → is_mark v ≡ false
    → at_line l (v, s)
      ≡ (some (flush_full (record l { newline = false; buffer = l.buffer ++ v })), s)
at_line-text l v s plain =
    ap
      (λ (b : Bool).
        if b
        then (none, fungetnstr v s)
        else (some (flush_full (record l { newline = false; buffer = l.buffer ++ v })), s))
      plain

-- What a state of the loop has read, and whether it stands at the start of a line.
abbrev pub At : Loading → Text → Bool → Type 0
At l acc newline = Gathered l acc × (l.newline ≡ newline)

-- The loop goes on from a state that has read more.
abbrev pub GoesOn : ℕ → Loading → Text → ℕ → Text → Bool → Text → Type 0
GoesOn fuel l cs fuel' acc newline cs' =
    (l' : Loading) × At l' acc newline
    × (load_text fuel l (reading cs) ≡ load_text fuel' l' (reading cs'))

pub load_char :
    (fuel : ℕ) (l : Loading) (acc : Text) (c : ℕ) (cs : Text)
    → At l acc false
    → IsByte c
    → GoesOn (suc fuel) l (c ∷ cs) fuel (acc ++ c ∷ []) (is_newline c) cs
load_char fuel l acc c cs at byte =
    let next : Loading = record l { newline = is_newline c; buffer = l.buffer ++ c ∷ [] } in
    (
      flush_full next,
      (Gathered-read l acc (c ∷ []) (is_newline c) at.0 (byte, tt), flush_full-newline next),
      after_round fuel l (reading (c ∷ cs)) (flush_full next) (reading cs) refl
          (round-char l (reading (c ∷ cs)) at.1),
    )

-- Fuel for the characters, and more.
abbrev pub beyond : Text → ℕ → ℕ
beyond [] fuel = fuel
beyond (c ∷ w) fuel = suc (beyond w fuel)

pub beyond-eq : (w : Text) (fuel : ℕ) → beyond w fuel ≡ length w + fuel
beyond-eq [] fuel = omega arith
beyond-eq (c ∷ w) fuel = omega (arith, beyond-eq w fuel)

-- The characters of a line, and its end.
pub load_chars :
    (fuel : ℕ) (w : Text) (l : Loading) (acc cs : Text)
    → At l acc false
    → All Plain w
    → GoesOn (suc (beyond w fuel)) l (w ++ 10 ∷ cs) fuel (acc ++ (w ++ 10 ∷ [])) true cs
load_chars fuel [] l acc cs at h = load_char fuel l acc 10 cs at refl
load_chars fuel (c ∷ w) l acc cs at h =
    let (l', at', go) = load_char (suc (beyond w fuel)) l acc c (w ++ 10 ∷ cs) at h.0.0 in
    let (l'', at'', go') = load_chars fuel w l' (acc ++ c ∷ []) cs (at'.0, at'.1 ∙ h.0.2) h.1 in
    (
      l'',
      (subst (Gathered l'') (append_assoc acc (c ∷ []) (w ++ 10 ∷ [])) at''.0, at''.1),
      go ∙ go',
    )

-- A line that is no mark.
pub load_line :
    (fuel : ℕ) (w : Text) (l : Loading) (acc cs : Text)
    → At l acc true
    → IsLine w
    → GoesOn
        (suc (suc (beyond (drop 5 w) fuel)))
        l
        (w ++ 10 ∷ cs)
        fuel
        (acc ++ (w ++ 10 ∷ []))
        true
        cs
load_line fuel w l acc cs at h =
    let next : Loading = record l { newline = false; buffer = l.buffer ++ take 5 w } in
    let bytes =
      Gathered-read l acc (take 5 w) false at.0 (Plain-bytes (take 5 w) (Plain-take 5 w h.0)) in
    let round : text_round l (reading (w ++ 10 ∷ cs))
        ≡ (some (flush_full next), reading (drop 5 w ++ 10 ∷ cs)) =
      round-line l (reading (w ++ 10 ∷ cs)) at.1
      ∙ ap (at_line l) (fgetnstr-line 5 w cs h.0)
      ∙ at_line-text l (take 5 w) (reading (drop 5 w ++ 10 ∷ cs)) h.1 in
    let (l', at', go) =
      load_chars fuel (drop 5 w) (flush_full next) (acc ++ take 5 w) cs
        (bytes, flush_full-newline next) (Plain-drop 5 w h.0) in
    (
      l',
      (
        subst (Gathered l')
            (whole acc (take 5 w) (drop 5 w)
              ∙ ap (λ u. acc ++ (u ++ 10 ∷ [])) (take-append-drop 5 w))
            at'.0,
        at'.1,
      ),
      after_round (suc (beyond (drop 5 w) fuel)) l (reading (w ++ 10 ∷ cs)) (flush_full next)
            (reading (drop 5 w ++ 10 ∷ cs)) refl round
          ∙ go,
    )
  where
    whole : (acc v u : Text) → (acc ++ v) ++ (u ++ 10 ∷ []) ≡ acc ++ ((v ++ u) ++ 10 ∷ [])
    whole acc v u = simp append_assoc

-- The mark behind the last line.
pub load_mark :
    (fuel : ℕ) (mark : Text) (l : Loading) (acc cs : Text)
    → At l acc true
    → (mark ≡ begin_mark) ⊎ (mark ≡ end_mark)
    → load_text (suc fuel) l (reading (mark ++ cs))
      ≡ done (append_text none acc, reading (mark ++ cs))
load_mark fuel mark l acc cs at h =
    load_text-break fuel l (reading (mark ++ cs)) refl
      (ap (λ (r : Option Loading × Stream). r.0) round)
    ∙ ap (λ (r : Option Loading × Stream). done (flush_rest l, r.1)) round
    ∙ ap (λ t. done (t, reading (mark ++ cs))) (Gathered-rest l acc at.0)
  where
    given_back : at_line l (fgetnstr 5 (reading (mark ++ cs))) ≡ (none, reading (mark ++ cs))
    given_back = elim h [
      | inl begins ↦ rw begins (unfold fgetnstr read_word fungetnstr in refl)
      | inr ends ↦ rw ends (unfold fgetnstr read_word fungetnstr in refl)
    ]

    round : text_round l (reading (mark ++ cs)) ≡ (none, reading (mark ++ cs))
    round = round-line l (reading (mark ++ cs)) at.1 ∙ given_back
