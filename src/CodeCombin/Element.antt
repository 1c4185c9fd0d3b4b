-- ===== src/CodeCombin/Element.antt =====
-- The elements of a source file, `Element`, `TextElement` and `CompoundElement` of
-- include/codecombin.h and common/codecombin.cpp. A C string is a list of bytes, and `none` is NULL.
use ministudo_guibuilder.Prelude.{
  ℕ, zero, suc, Bool, true, false, ◌&&◌, Option, none, some, List, [], ◌∷◌, ◌++◌, ltb, ◌==◌,
  if◌then◌else◌, length, take, drop,
}
use ministudo_guibuilder.Prelude.Int.{ℤ, pos, negsuc}
use ministudo_guibuilder.Prelude.Access.{Access, ok, fault, ◌>>=◌}

abbrev pub Text : Type 0
Text = List ℕ

-- What a compound element is: `ET_USER`, `ET_AUTO`, `ET_DOC`.
pub data Kind : Type 0 where
  user auto_gen doc : Kind

-- `ET_TEXT` is the fourth type.
abbrev pub et_text : ℕ
et_text = 3

abbrev pub type_of_kind : Kind → ℕ
type_of_kind user = 0
type_of_kind auto_gen = 1
type_of_kind doc = 2

-- The children of an element, which its field `next` links.
mutual
  pub data Element : Type 0 where
    text : Option Text → Element
    compound : Kind → Option Text → Elements → Element

  pub data Elements : Type 0 where
    nil : Elements
    cons : Element → Elements → Elements

abbrev pub to_list : Elements → List Element
to_list nil = []
to_list (cons e es) = e ∷ to_list es

abbrev pub from_list : List Element → Elements
from_list [] = nil
from_list (e ∷ es) = cons e (from_list es)

abbrev pub get_type : Element → ℕ
get_type (text t) = et_text
get_type (compound k name es) = type_of_kind k

-- `strcmp(a, b) == 0`.
abbrev pub same_text : Text → Text → Bool
same_text [] [] = true
same_text [] (d ∷ ds) = false
same_text (c ∷ cs) [] = false
same_text (c ∷ cs) (d ∷ ds) = c == d && same_text cs ds

-- Where `insertText` inserts: behind the text for an index that is negative or too large.
abbrev pub place : Text → ℤ → ℕ
place cs (negsuc n) = length cs
place cs (pos at) = if ltb (length cs) at then length cs else at

abbrev pub inserted : Option Text → Text → ℤ → Option Text
inserted none str at = some str
inserted (some cs) str at = some (take (place cs at) cs ++ (str ++ drop (place cs at) cs))

-- `TextElement::insertText`, on the field `text`.
unfoldable pub insert_text : Option Text → Text → ℤ → Option Text
insert_text old [] at = old
insert_text old (c ∷ cs) at = inserted old (c ∷ cs) at

unfoldable pub append_text : Option Text → Text → Option Text
append_text old str = insert_text old str (negsuc 0)

-- `TextElement::setText`.
abbrev pub set_text : Option Text → Option Text → Option Text
set_text old none = old
set_text old (some str) = some str

-- Whether the type is the one that `getChild` looks for; `none` is -1.
abbrev pub has_type : Option ℕ → Element → Bool
has_type none e = true
has_type (some t) e = t == get_type e

abbrev pub is_called : Text → Option Text → Bool
is_called name none = false
is_called name (some own) = same_text own name

-- Whether the name is the one that `getChild` looks for; NULL is any.
abbrev pub has_name : Option Text → Element → Bool
has_name none e = true
has_name (some name) (text t) = false
has_name (some name) (compound k own es) = is_called name own

abbrev pub later : Option ℕ → Option ℕ
later none = none
later (some i) = some (suc i)

-- `CompoundElement::getChild`: the index of the child.
unfoldable pub get_child : Option ℕ → Option Text → List Element → Option ℕ
get_child type name [] = none
get_child type name (e ∷ es) =
    if has_type type e && has_name name e then some 0 else later (get_child type name es)

abbrev pub insert_at : ℕ → Element → List Element → List Element
insert_at zero e es = e ∷ es
insert_at (suc i) e [] = e ∷ []
insert_at (suc i) e (x ∷ xs) = x ∷ insert_at i e xs

-- `CompoundElement::insertChild`: where the new child stands, and the children. The child `at` is
-- given by its index, and none is NULL.
unfoldable pub insert_child : Element → Option ℕ → Bool → List Element → ℕ × List Element
insert_child e at before [] = (0, e ∷ [])
insert_child e none before (x ∷ xs) = (length (x ∷ xs), (x ∷ xs) ++ e ∷ [])
insert_child e (some i) true (x ∷ xs) = (i, insert_at i e (x ∷ xs))
insert_child e (some i) false (x ∷ xs) = (suc i, insert_at (suc i) e (x ∷ xs))

-- The copy constructors. That of a compound element ends with `mye->next = NULL`, where `mye` is NULL
-- if there are no children.
unfoldable mutual
  pub clone : Element → Access Element
  clone (text t) = ok (text t)
  clone (compound k name nil) = fault
  clone (compound k name (cons e es)) =
      clone e >>= λ e'. clone_all es >>= λ es'. ok (compound k name (cons e' es'))

  pub clone_all : Elements → Access Elements
  clone_all nil = ok nil
  clone_all (cons e es) = clone e >>= λ e'. clone_all es >>= λ es'. ok (cons e' es')
