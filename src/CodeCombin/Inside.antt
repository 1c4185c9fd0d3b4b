-- ===== src/CodeCombin/Inside.antt =====
-- The inside of a part that `replaceAutoGenPart` of common/codecombin.cpp has given its new text.
use ministudo_guibuilder.Prelude.{◌≡◌, refl, sym, ap, true, Option, List, [], ◌∷◌}
use ministudo_guibuilder.CodeCombin.Element.{
  Text, Element, text, compound, Kind, to_list, from_list, set_text,
}
use ministudo_guibuilder.CodeCombin.Parts.{texts, replace_texts, same_name, replace_auto_gen_part}
use ministudo_guibuilder.CodeCombin.Save.{to_from_list}
use ministudo_guibuilder.CodeCombin.Load.{children}

-- The children that are no texts: the user's code in a generated part.
abbrev pub compounds : List Element → List Element
compounds [] = []
compounds (text t ∷ es) = compounds es
compounds (compound k name cs ∷ es) = compound k name cs ∷ compounds es

-- Texts written over others, one by one; what is left over stays.
abbrev pub written_over : List (Option Text) → List (Option Text) → List (Option Text)
written_over [] ts = []
written_over (old ∷ olds) [] = old ∷ olds
written_over (old ∷ olds) (t ∷ ts) = set_text old t ∷ written_over olds ts

replace_texts-compounds :
    (es : List Element) (ts : List (Option Text)) → compounds (replace_texts es ts) ≡ compounds es
unfolding replace_texts
replace_texts-compounds [] ts = refl
replace_texts-compounds (text old ∷ es) [] = refl
replace_texts-compounds (compound k name cs ∷ es) [] = refl
replace_texts-compounds (text old ∷ es) (t ∷ ts) = replace_texts-compounds es ts
replace_texts-compounds (compound k name cs ∷ es) (t ∷ ts) =
    ap (λ u. compound k name cs ∷ u) (replace_texts-compounds es (t ∷ ts))

written_over-nil : (olds : List (Option Text)) → written_over olds [] ≡ olds
written_over-nil [] = refl
written_over-nil (old ∷ olds) = refl

replace_texts-texts :
    (es : List Element) (ts : List (Option Text))
    → texts (replace_texts es ts) ≡ written_over (texts es) ts
unfolding replace_texts
replace_texts-texts [] ts = refl
replace_texts-texts (text old ∷ es) [] = refl
replace_texts-texts (compound k name cs ∷ es) [] = sym (written_over-nil (texts es))
replace_texts-texts (text old ∷ es) (t ∷ ts) =
    ap (λ u. set_text old t ∷ u) (replace_texts-texts es ts)
replace_texts-texts (compound k name cs ∷ es) (t ∷ ts) = replace_texts-texts es (t ∷ ts)

-- In a part that takes over the text of the generated part of its name, the user's code stays as it
-- was and in the same order, and the texts between are written over one by one with the generated
-- ones; those that are left over stay.
pub replace_auto_gen_part-inside :
    (k k' : Kind) (name name' : Option Text) (es ps : List Element)
    → same_name name name' ≡ true
    → (compounds (
          children (
            replace_auto_gen_part
              (compound k name (from_list es))
              (compound k' name' (from_list ps))))
        ≡ compounds es)
      × (texts (
            children (
              replace_auto_gen_part
                (compound k name (from_list es))
                (compound k' name' (from_list ps))))
          ≡ written_over (texts es) (texts ps))
unfolding replace_auto_gen_part
replace_auto_gen_part-inside k k' name name' es ps same =
    let list = to_from_list in
    rw
      (
        same,
        list (replace_texts (to_list (from_list es)) (texts (to_list (from_list ps)))),
        list es,
        list ps,
      )
      (replace_texts-compounds es (texts ps), replace_texts-texts es (texts ps))
