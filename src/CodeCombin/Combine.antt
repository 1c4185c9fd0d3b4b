-- ===== src/CodeCombin/Combine.antt =====
-- `CompoundElement::combin` of common/codecombin.cpp: the children of a document, combined with those
-- of the generated one.
use ministudo_guibuilder.Prelude.{
  ℕ, suc, ◌+◌, Bool, true, false, Option, none, some, List, [], ◌∷◌, ◌==◌, if◌then◌else◌, modify,
  map, drop,
}
use ministudo_guibuilder.Prelude.Access.{Access, ok, ◌>>=◌}
use ministudo_guibuilder.CodeCombin.Element.{
  Text, Element, text, compound, user, auto_gen, doc, type_of_kind, get_type, get_child,
  insert_child, clone,
}
use ministudo_guibuilder.CodeCombin.Parts.{replace_auto_gen_part, disable_code}

abbrev pub et_auto : ℕ
et_auto = type_of_kind auto_gen

-- The name of a generated part; an element of another type has none here.
abbrev pub part_name : Element → Option Text
part_name (text t) = none
part_name (compound auto_gen name es) = name
part_name (compound user name es) = none
part_name (compound doc name es) = none

unfoldable pub find_part : Text → List Element → Option ℕ
find_part name es = get_child (some et_auto) (some name) es

-- How many elements stand before the next generated part.
abbrev pub others_before : List Element → ℕ
others_before [] = 0
others_before (e ∷ es) = if get_type e == et_auto then 0 else suc (others_before es)

-- `while(elast && elast->next && elast->next->getType() != ET_AUTO)`.
abbrev pub stride : List Element → Option ℕ → Option ℕ
stride es none = none
stride es (some i) = some (i + others_before (drop (suc i) es))

-- The place of `elast`, and the children.
abbrev pub State : Type 0
State = Option ℕ × List Element

abbrev pub striding : State → State
striding (last, es) = (stride es last, es)

abbrev pub added : Option ℕ → List Element → Element → State
added last es e = let (i, es') = insert_child e last false es in (some i, es')

-- The part of that name is replaced, or a copy is inserted behind the last one.
unfoldable pub put_part : Element → Option ℕ → State → Access State
put_part e (some i) (last, es) = ok (some i, modify es i (λ own. replace_auto_gen_part own e))
put_part e none (last, es) = clone e >>= λ e'. ok (added last es e')

abbrev pub put_named : Element → Option Text → State → Access State
put_named e none s = ok s
put_named e (some name) s = put_part e (find_part name s.1) s

-- The first loop.
unfoldable pub put_parts : List Element → State → Access State
put_parts [] s = ok s
put_parts (e ∷ es) s = put_named e (part_name e) s >>= λ s'. put_parts es (striding s')

-- `getChild(ET_AUTO, NULL)`, and what follows.
abbrev pub from_first_part : List Element → List Element
from_first_part [] = []
from_first_part (e ∷ es) = if get_type e == et_auto then e ∷ es else from_first_part es

abbrev pub is_missing : Text → List Element → Bool
is_missing name es = elim (find_part name es) [ none ↦ true | some i ↦ false ]

abbrev pub disable_named : List Element → Element → Option Text → Element
disable_named generated e none = e
disable_named generated e (some name) = if is_missing name generated then disable_code e else e

-- The second loop, at one element.
unfoldable pub disable_obsolete : List Element → Element → Element
disable_obsolete generated e = disable_named generated e (part_name e)

unfoldable pub combin : List Element → List Element → Access (List Element)
combin own generated = put_parts (from_first_part generated) (none, own) >>= λ s.
    ok (map (disable_obsolete generated) s.1)
