-- ===== src/CodeCombin/Stream.antt =====
-- Reading a file in common/codecombin.cpp: fgetc and ungetc as it uses them, fgetnstr, fungetnstr and
-- fgetword. What is read is stored as a signed char, so that the byte 255 and the end of the file look
-- the same, and ungetc refuses to give that byte back.
use ministudo_guibuilder.Prelude.{
  ℕ, zero, suc, Bool, true, false, ◌||◌, [], ◌∷◌, ◌==◌, if◌then◌else◌,
}
use ministudo_guibuilder.CodeCombin.Element.{Text}

-- What is left of a file, with what was given back, and whether `feof` holds.
pub record Stream : Type 0 where
  pub rest : Text
  pub at_end : Bool

abbrev pub end_of_file : ℕ
end_of_file = 255

abbrev pub reading : Text → Stream
reading cs = record { rest = cs; at_end = false }

abbrev pub ended : Stream
ended = record { rest = []; at_end = true }

abbrev pub ungetc : ℕ → Stream → Stream
ungetc c s = if c == end_of_file then s else reading (c ∷ s.rest)

abbrev pub is_newline : ℕ → Bool
is_newline c = c == 10 || c == 13

abbrev pub is_blank : ℕ → Bool
is_blank c = c == 32 || c == 9

abbrev pub contains : Text → ℕ → Bool
contains [] c = false
contains (d ∷ ds) c = d == c || contains ds c

abbrev pub also : ℕ → Text × Stream → Text × Stream
also c (word, s) = (c ∷ word, s)

-- The common loop of `fgetnstr` and `fgetword`: at most `n` characters, up to a newline, which is
-- given back, or one of `stops`, which is not.
unfoldable pub read_word : Text → ℕ → Text → Text × Stream
read_word stops zero cs = ([], reading cs)
read_word stops (suc n) [] = ([], ended)
read_word stops (suc n) (c ∷ cs) =
    let more = also c (read_word stops n cs) in
    if c == end_of_file
    then ([], reading cs)
    else if is_newline c
    then ([], reading (c ∷ cs))
    else if contains stops c
    then ([], reading cs)
    else more

abbrev pub if_open : Stream → (Text → Text × Stream) → Text × Stream
if_open s f = if s.at_end then ([], s) else f s.rest

unfoldable pub fgetnstr : ℕ → Stream → Text × Stream
fgetnstr n s = if_open s (read_word [] n)

-- `fungetnstr`, for the characters that `fgetnstr` or `fgetword` has returned.
unfoldable pub fungetnstr : Text → Stream → Stream
fungetnstr [] s = s
fungetnstr (c ∷ cs) s = ungetc c (fungetnstr cs s)

unfoldable pub skip_blanks : Text → Stream
skip_blanks [] = ended
skip_blanks (c ∷ cs) =
    let more = skip_blanks cs in if is_blank c then more else ungetc c (reading cs)

-- At the end of the file `ch` is still 0, and it is given back.
unfoldable pub fgetword : Text → ℕ → Stream → Text × Stream
fgetword stops n s =
    let s' : Stream = if s.at_end then ungetc 0 s else skip_blanks s.rest in
    if_open s' (read_word stops n)
