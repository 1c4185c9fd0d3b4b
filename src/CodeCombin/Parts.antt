-- ===== src/CodeCombin/Parts.antt =====
-- `AutoGenElement` of common/codecombin.cpp: replacing the text of a generated part, and disabling it.
use ministudo_guibuilder.Prelude.{
  Bool, true, false, Option, none, some, List, [], ◌∷◌, if◌then◌else◌,
}
use ministudo_guibuilder.Prelude.Int.{pos}
use ministudo_guibuilder.CodeCombin.Element.{
  Text, Element, text, compound, to_list, from_list, same_text, set_text, insert_text, append_text,
}

-- The text elements among the children, from the first one on.
abbrev pub texts : List Element → List (Option Text)
texts [] = []
texts (text t ∷ es) = t ∷ texts es
texts (compound k name cs ∷ es) = texts es

-- The loop of `replaceAutoGenPart`.
unfoldable pub replace_texts : List Element → List (Option Text) → List Element
replace_texts [] ts = []
replace_texts (e ∷ es) [] = e ∷ es
replace_texts (text old ∷ es) (t ∷ ts) = text (set_text old t) ∷ replace_texts es ts
replace_texts (compound k name cs ∷ es) (t ∷ ts) = compound k name cs ∷ replace_texts es (t ∷ ts)

-- Two elements have different strings as names, so that the pointers are equal only if both are NULL.
abbrev pub same_name : Option Text → Option Text → Bool
same_name none none = true
same_name none (some b) = false
same_name (some a) none = false
same_name (some a) (some b) = same_text a b

-- `replaceAutoGenPart`; its argument `page` comes last.
unfoldable pub replace_auto_gen_part : Element → Element → Element
replace_auto_gen_part (text t) page = text t
replace_auto_gen_part (compound k name es) (text t) = compound k name es
replace_auto_gen_part (compound k name es) (compound k' name' ps) =
    if same_name name name'
    then compound k name (from_list (replace_texts (to_list es) (texts (to_list ps))))
    else compound k name es

-- "\n#if 0 //" and "\n#endif\n".
abbrev pub if_zero : Text
if_zero = 10 ∷ 35 ∷ 105 ∷ 102 ∷ 32 ∷ 48 ∷ 32 ∷ 47 ∷ 47 ∷ []

abbrev pub end_if : Text
end_if = 10 ∷ 35 ∷ 101 ∷ 110 ∷ 100 ∷ 105 ∷ 102 ∷ 10 ∷ []

unfoldable pub open_front : List Element → List Element
open_front [] = text (insert_text none if_zero (pos 0)) ∷ []
open_front (text t ∷ es) = text (insert_text t if_zero (pos 0)) ∷ es
open_front (compound k name cs ∷ es) =
    text (insert_text none if_zero (pos 0)) ∷ compound k name cs ∷ es

-- The list is not empty: `open_front` has seen to that.
unfoldable pub close_back : List Element → List Element
close_back [] = []
close_back (text t ∷ []) = text (append_text t end_if) ∷ []
close_back (compound k name cs ∷ []) = compound k name cs ∷ text (append_text none end_if) ∷ []
close_back (e ∷ e' ∷ es) = e ∷ close_back (e' ∷ es)

-- `disableCode`.
unfoldable pub disable_code : Element → Element
disable_code (text t) = text t
disable_code (compound k name es) =
    compound k name (from_list (close_back (open_front (to_list es))))
