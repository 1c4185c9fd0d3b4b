-- ===== src/CodeCombin/Load.antt =====
-- `loadFromFile` of common/codecombin.cpp, and CodeCombinFiles.
use ministudo_guibuilder.Prelude.{
  ℕ, zero, suc, Bool, true, false, ◌||◌, Option, none, some, List, [], ◌∷◌, ◌++◌, leb, ◌==◌,
  if◌then◌else◌, length,
}
use ministudo_guibuilder.Prelude.Access.{Access, ok, fault}
use ministudo_guibuilder.Prelude.Run.{Run, done, crash, out_of_fuel, then_run}
use ministudo_guibuilder.CodeCombin.Element.{
  Text, Element, text, compound, Kind, user, auto_gen, doc, same_text, to_list, from_list,
  append_text,
}
use ministudo_guibuilder.CodeCombin.Combine.{combin}
use ministudo_guibuilder.CodeCombin.Save.{end_mark, save}
use ministudo_guibuilder.CodeCombin.Stream.{
  Stream, reading, ended, end_of_file, is_newline, also, fgetnstr, fungetnstr, fgetword,
}

-- The C string that a buffer holds.
abbrev pub c_string : Text → Text
c_string [] = []
c_string (c ∷ cs) = if c == 0 then [] else c ∷ c_string cs

-- "//<[[".
abbrev pub begin_mark : Text
begin_mark = 47 ∷ 47 ∷ 60 ∷ 91 ∷ 91 ∷ []

abbrev pub is_mark : Text → Bool
is_mark word = same_text word begin_mark || same_text word end_mark

-- `max`.
abbrev pub buffer_max : ℕ
buffer_max = 4090

-- The variables of `TextElement::loadFromFile`: whether `stat` is 1, the buffer, the text.
pub record Loading : Type 0 where
  pub newline : Bool
  pub buffer : Text
  pub loaded : Option Text

abbrev pub flushed : Loading → Loading
flushed l = record l { buffer = []; loaded = append_text l.loaded (c_string l.buffer) }

abbrev pub flush_full : Loading → Loading
flush_full l = if leb buffer_max (length l.buffer) then flushed l else l

abbrev pub flush_rest : Loading → Option Text
flush_rest l =
    if leb 1 (length l.buffer) then append_text l.loaded (c_string l.buffer) else l.loaded

abbrev pub next_char : Loading → Text → Loading × Stream
next_char l [] = (record l { newline = false; buffer = l.buffer ++ end_of_file ∷ [] }, ended)
next_char l (c ∷ cs) =
    (record l { newline = is_newline c; buffer = l.buffer ++ c ∷ [] }, reading cs)

-- A round of its loop at the start of a line, where `none` is the `break` at a mark, and elsewhere.
abbrev pub at_line : Loading → Text × Stream → Option Loading × Stream
at_line l (word, s) =
    if is_mark word
    then (none, fungetnstr word s)
    else (some (flush_full (record l { newline = false; buffer = l.buffer ++ word })), s)

abbrev pub in_line : Loading × Stream → Option Loading × Stream
in_line (l, s) = (some (flush_full l), s)

unfoldable pub text_round : Loading → Stream → Option Loading × Stream
text_round l s = if l.newline then at_line l (fgetnstr 5 s) else in_line (next_char l s.rest)

-- `TextElement::loadFromFile`.
unfoldable pub load_text : ℕ → Loading → Stream → Run (Option Text × Stream)
load_text zero l s = out_of_fuel
load_text (suc fuel) l s =
    let round = text_round l s in
    let go : Run (Option Text × Stream) = elim round.0 [
      | none ↦ done (flush_rest l, round.1)
      | some l' ↦ load_text fuel l' round.1
    ] in
    if s.at_end then done (flush_rest l, s) else go

abbrev pub empty_text : Loading
empty_text = record { newline = false; buffer = []; loaded = none }

abbrev pub is_quote : ℕ → Bool
is_quote c = c == 34 || c == 39

-- The two loops that read a name. `end` is the quote that opens it.
unfoldable pub read_name : ℕ → ℕ → Text → Text × Stream
read_name end zero cs = ([], reading cs)
read_name end (suc n) [] = (end_of_file ∷ [], ended)
read_name end (suc n) (c ∷ cs) =
    let more = also c (read_name end n cs) in if c == end then ([], reading cs) else more

unfoldable pub read_quoted : Text → Text × Stream
read_quoted [] = ([], ended)
read_quoted (c ∷ cs) = let more = read_quoted cs in if is_quote c then read_name c 255 cs else more

-- `if(idx>0)`.
abbrev pub name_of : Text → Option Text
name_of [] = none
name_of (c ∷ cs) = some (c_string (c ∷ cs))

abbrev pub named : Text × Stream → Option Text × Stream
named (word, s) = (name_of word, s)

abbrev pub quoted : Stream → Text × Stream
quoted s = if s.at_end then ([], s) else read_quoted s.rest

-- "= \t\n\r" and " \t\r\n,;", and "id".
abbrev pub id_stops : Text
id_stops = 61 ∷ 32 ∷ 9 ∷ 10 ∷ 13 ∷ []

abbrev pub word_stops : Text
word_stops = 32 ∷ 9 ∷ 13 ∷ 10 ∷ 44 ∷ 59 ∷ []

abbrev pub id_word : Text
id_word = 105 ∷ 100 ∷ []

abbrev pub identified : Text × Stream → Option Text × Stream
identified (word, s) =
    if same_text (c_string word) id_word then named (quoted s) else (none, fungetnstr word s)

-- The first part of `CompoundElement::loadFromFile`.
unfoldable pub load_name : Stream → Option Text × Stream
load_name s = if s.at_end then (none, s) else identified (fgetword id_stops 255 s)

-- "AutoGenCode" and "UserCode".
abbrev pub auto_gen_word : Text
auto_gen_word = 65 ∷ 117 ∷ 116 ∷ 111 ∷ 71 ∷ 101 ∷ 110 ∷ 67 ∷ 111 ∷ 100 ∷ 101 ∷ []

abbrev pub user_word : Text
user_word = 85 ∷ 115 ∷ 101 ∷ 114 ∷ 67 ∷ 111 ∷ 100 ∷ 101 ∷ []

-- What comes next among the children.
pub data Next : Type 0 where
  ending unknown text_next : Next
  child : Kind → Next

abbrev pub next_word : Text → Next
next_word [] = ending
next_word (c ∷ cs) =
    let word = c_string (c ∷ cs) in
    if same_text word auto_gen_word
    then child auto_gen
    else if same_text word user_word
    then child user
    else unknown

abbrev pub next_of_word : Text × Stream → Next × Stream
next_of_word (word, s) = (next_word word, s)

unfoldable pub next_child : Stream → Next × Stream
next_child s =
    let (mark, s') = fgetnstr 5 s in
    if same_text mark end_mark
    then (ending, s')
    else if same_text mark begin_mark
    then next_of_word (fgetword word_stops 255 s')
    else (text_next, fungetnstr mark s')

-- The result of `loadFromFile`, the children, and what is left of the file.
abbrev pub Loaded : Type 0
Loaded = Bool × List Element × Stream

abbrev pub with_child : Kind → Option Text → List Element → Loaded → List Element
with_child k name before (good, es, s) =
    if good then before ++ compound k name (from_list es) ∷ [] else before

-- The loop of `CompoundElement::loadFromFile`.
unfoldable pub load_children : ℕ → List Element → Stream → Run Loaded
load_children zero es s = out_of_fuel
load_children (suc fuel) es s =
    let next = next_child s in
    let (name, inner) = load_name next.1 in
    let go : Run Loaded = elim next.0 [
      | ending ↦ done (true, es, next.1)
      | unknown ↦ done (false, es, next.1)
      | text_next ↦
          then_run (load_text fuel empty_text next.1)
            (λ r. load_children fuel (es ++ text r.0 ∷ []) r.1)
      | child k ↦
          then_run (load_children fuel [] inner)
            (λ r. load_children fuel (with_child k name es r) r.2)
    ] in
    if s.at_end then done (true, es, s) else go

abbrev pub document : Option Text → Loaded → Option Element
document name (good, es, s) = if good then some (compound doc name (from_list es)) else none

-- `LoadFromFile`, of a file with these bytes or of one that cannot be opened.
unfoldable pub load_file : ℕ → Option Text → Run (Option Element)
load_file fuel none = done none
load_file fuel (some bytes) =
    let (name, s) = load_name (reading bytes) in
    then_run (load_children fuel [] s) (λ r. done (document name r))

abbrev pub children : Element → List Element
children (text t) = []
children (compound k name es) = to_list es

abbrev pub with_children : Element → Access (List Element) → Run Text
with_children e fault = crash
with_children (text t) (ok es) = done (save (text t))
with_children (compound k name old) (ok es) = done (save (compound k name (from_list es)))

abbrev pub combine_loaded : Option Element → Option Element → Run (Option Text)
combine_loaded none to = done none
combine_loaded (some from) none = done (some (save from))
combine_loaded (some from) (some to) =
    then_run (with_children to (combin (children to) (children from))) (λ bytes. done (some bytes))

-- `CodeCombinFiles`: what is written to the second file, or nothing if it fails. The file can be
-- opened for writing.
unfoldable pub code_combin_files : ℕ → Option Text → Option Text → Run (Option Text)
code_combin_files fuel from to =
    then_run (load_file fuel from) (λ f. then_run (load_file fuel to) (λ t. combine_loaded f t))
