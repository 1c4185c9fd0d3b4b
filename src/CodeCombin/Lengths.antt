-- ===== src/CodeCombin/Lengths.antt =====
-- What the functions of common/codecombin.cpp that read a file leave of it.
use ministudo_guibuilder.Prelude.{
  ℕ, zero, suc, ◌+◌, ◌≤◌, ◌≡◌, ap, Bool, true, false, none, [], ◌∷◌, ◌==◌, if◌then◌else◌, length,
  arith, Bool-cases, inl, inr,
}
use ministudo_guibuilder.CodeCombin.Element.{Text, same_text}
use ministudo_guibuilder.CodeCombin.Stream.{
  Stream, reading, ungetc, end_of_file, is_newline, is_blank, contains, also, if_open, read_word,
  fgetnstr, fungetnstr, fgetword, skip_blanks,
}
use ministudo_guibuilder.CodeCombin.Load.{
  c_string, read_name, read_quoted, is_quote, quoted, identified, load_name, id_stops, id_word,
}

abbrev pub left : Stream → ℕ
left s = length s.rest

-- What can still be read, where the end of the file counts as one.
abbrev pub size : Stream → ℕ
size s = if s.at_end then 0 else suc (left s)

also-length :
    (c : ℕ) (r : Text × Stream) (n : ℕ)
    → length r.0 + left r.1 ≤ n
    → length (also c r).0 + left (also c r).1 ≤ suc n
also-length c (w, s) n h = omega arith

pub read_word-length :
    (stops : Text) (n : ℕ) (cs : Text)
    → length (read_word stops n cs).0 + left (read_word stops n cs).1 ≤ length cs
unfolding read_word
read_word-length stops zero cs = omega arith
read_word-length stops (suc n) [] = omega arith
read_word-length stops (suc n) (c ∷ cs) =
    let more = also-length c (read_word stops n cs) (length cs) (read_word-length stops n cs) in
    elim (Bool-cases (c == end_of_file)) [
      | inl eof ↦ rw eof (omega arith)
      | inr char ↦ elim (Bool-cases (is_newline c)) [
        | inl newline ↦ rw (char, newline) (omega arith)
        | inr inside ↦ elim (Bool-cases (contains stops c)) [
          | inl stop ↦ rw (char, inside, stop) (omega arith)
          | inr other ↦ rw (char, inside, other) more
        ]
      ]
    ]

if_open-length :
    (stops : Text) (n : ℕ) (s : Stream)
    → length (if_open s (read_word stops n)).0 + left (if_open s (read_word stops n)).1 ≤ left s
if_open-length stops n s = elim (Bool-cases s.at_end) [
  | inl at_end ↦ rw at_end (omega arith)
  | inr more_left ↦ rw more_left (read_word-length stops n s.rest)
]

pub fgetnstr-length :
    (n : ℕ) (s : Stream) → length (fgetnstr n s).0 + left (fgetnstr n s).1 ≤ left s
unfolding fgetnstr
fgetnstr-length n s = if_open-length [] n s

ungetc-length : (c : ℕ) (s : Stream) → left (ungetc c s) ≤ suc (left s)
ungetc-length c s = ground arith

pub fungetnstr-length : (w : Text) (s : Stream) → left (fungetnstr w s) ≤ length w + left s
unfolding fungetnstr
fungetnstr-length [] s = omega arith
fungetnstr-length (c ∷ cs) s =
    omega (arith, ungetc-length c (fungetnstr cs s), fungetnstr-length cs s)

pub skip_blanks-length : (cs : Text) → left (skip_blanks cs) ≤ length cs
unfolding skip_blanks
skip_blanks-length [] = omega arith
skip_blanks-length (c ∷ cs) =
    let rest = skip_blanks-length cs in
    let here = ungetc-length c (reading cs) in
    elim (Bool-cases (is_blank c)) [ inl blank ↦ rw blank (omega arith) | inr char ↦ rw char here ]

pub fgetword-length :
    (stops : Text) (n : ℕ) (s : Stream)
    → s.at_end ≡ false
    → length (fgetword stops n s).0 + left (fgetword stops n s).1 ≤ left s
unfolding fgetword
fgetword-length stops n s more_left =
    rw more_left
      (omega (arith, if_open-length stops n (skip_blanks s.rest), skip_blanks-length s.rest))

-- Whatever is left of the file.
pub fgetword-le :
    (stops : Text) (n : ℕ) (s : Stream)
    → length (fgetword stops n s).0 + left (fgetword stops n s).1 ≤ suc (left s)
unfolding fgetword
fgetword-le stops n s = elim (Bool-cases s.at_end) [
  | inl at_end ↦ rw at_end (if_open-length stops n (ungetc 0 s))
  | inr more_left ↦
      rw more_left
        (omega (arith, if_open-length stops n (skip_blanks s.rest), skip_blanks-length s.rest))
]

pub size-le : (s : Stream) → size s ≤ suc (left s)
size-le s = ground arith

read_name-length : (end n : ℕ) (cs : Text) → left (read_name end n cs).1 ≤ length cs
unfolding read_name
read_name-length end zero cs = omega arith
read_name-length end (suc n) [] = omega arith
read_name-length end (suc n) (c ∷ cs) =
    let more = read_name-length end n cs in
    elim (Bool-cases (c == end)) [
      | inl closes ↦ rw closes (omega arith)
      | inr char ↦ rw char (omega arith)
    ]

read_quoted-length : (cs : Text) → left (read_quoted cs).1 ≤ length cs
unfolding read_quoted
read_quoted-length [] = omega arith
read_quoted-length (c ∷ cs) =
    let more = read_quoted-length cs in
    let name = read_name-length c 255 cs in
    elim (Bool-cases (is_quote c)) [
      | inl quote ↦ rw quote (omega arith)
      | inr char ↦ rw char (omega arith)
    ]

quoted-length : (s : Stream) → left (quoted s).1 ≤ left s
quoted-length s = elim (Bool-cases s.at_end) [
  | inl at_end ↦ rw at_end (omega arith)
  | inr more_left ↦ rw more_left (read_quoted-length s.rest)
]

identified-length : (w : Text) (s : Stream) → left (identified (w, s)).1 ≤ length w + left s
identified-length w s = elim (Bool-cases (same_text (c_string w) id_word)) [
  | inl id ↦ rw id (omega (arith, quoted-length s))
  | inr other ↦ rw other (fungetnstr-length w s)
]

pub size-unread : (s : Stream) → s.at_end ≡ false → size s ≡ suc (left s)
size-unread s unread = ap (λ (b : Bool). if b then 0 else suc (left s)) unread

load_name-word :
    (s : Stream) → s.at_end ≡ false → load_name s ≡ identified (fgetword id_stops 255 s)
unfolding load_name
load_name-word s unread =
    ap (λ (b : Bool). if b then (none, s) else identified (fgetword id_stops 255 s)) unread

load_name-end : (s : Stream) → s.at_end ≡ true → load_name s ≡ (none, s)
unfolding load_name
load_name-end s at_end =
    ap (λ (b : Bool). if b then (none, s) else identified (fgetword id_stops 255 s)) at_end

-- Reading the name of an element.
pub load_name-size : (s : Stream) → size (load_name s).1 ≤ size s
load_name-size s = elim (Bool-cases s.at_end) [
  | inl at_end ↦ rw (load_name-end s at_end) (omega arith)
  | inr unread ↦
      let r = fgetword id_stops 255 s in
      rw (load_name-word s unread) (
        omega (
          arith,
          size-unread s unread,
          size-le (identified r).1,
          identified-length r.0 r.1,
          fgetword-length id_stops 255 s unread,
        ))
]
