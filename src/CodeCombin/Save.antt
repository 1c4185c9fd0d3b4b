-- ===== src/CodeCombin/Save.antt =====
-- `saveToFile` of common/codecombin.cpp, and what disabling a part does to the file.
use ministudo_guibuilder.Prelude.{
  ◌≡◌, ◌≢◌, refl, sym, ap, ◌∙◌, Option, none, some, List, [], ◌∷◌, ◌++◌, take, drop, length, arith,
}
use mathlib.Core.List.{append_assoc, append-nil}
use ministudo_guibuilder.Prelude.Int.{pos}
use ministudo_guibuilder.CodeCombin.Element.{
  Text, Element, Elements, text, compound, nil, cons, Kind, user, auto_gen, doc, to_list, from_list,
  insert_text, append_text, place,
}
use ministudo_guibuilder.CodeCombin.Parts.{if_zero, end_if, open_front, close_back, disable_code}

-- "//<[[AutoGenCode " and "//<[[UserCode ".
abbrev pub opening : Kind → Text
opening auto_gen =
    47 ∷ 47 ∷ 60 ∷ 91 ∷ 91 ∷ 65 ∷ 117 ∷ 116 ∷ 111 ∷ 71 ∷ 101 ∷ 110 ∷ 67 ∷ 111 ∷ 100 ∷ 101 ∷ 32 ∷ []
opening user = 47 ∷ 47 ∷ 60 ∷ 91 ∷ 91 ∷ 85 ∷ 115 ∷ 101 ∷ 114 ∷ 67 ∷ 111 ∷ 100 ∷ 101 ∷ 32 ∷ []
opening doc = []

-- "//]]>".
abbrev pub end_mark : Text
end_mark = 47 ∷ 47 ∷ 93 ∷ 93 ∷ 62 ∷ []

abbrev pub closing : Kind → Text
closing auto_gen = end_mark
closing user = end_mark
closing doc = []

-- `id="%s" `.
abbrev pub identification : Option Text → Text
identification none = []
identification (some name) = 105 ∷ 100 ∷ 61 ∷ 34 ∷ (name ++ 34 ∷ 32 ∷ [])

abbrev pub text_bytes : Option Text → Text
text_bytes none = []
text_bytes (some t) = t

-- What the two `saveToFile` print.
unfoldable mutual
  pub save : Element → Text
  save (text t) = text_bytes t
  save (compound k name es) = opening k ++ (identification name ++ (save_all es ++ closing k))

  pub save_all : Elements → Text
  save_all nil = []
  save_all (cons e es) = save e ++ save_all es

abbrev save_list : List Element → Text
save_list es = save_all (from_list es)

pub take-length : (t : Text) → take (length t) t ≡ t
take-length [] = refl
take-length (c ∷ cs) = ap (λ u. c ∷ u) (take-length cs)

pub drop-length : (t : Text) → drop (length t) t ≡ []
drop-length [] = refl
drop-length (c ∷ cs) = drop-length cs

place-front : (t : Text) → place t (pos 0) ≡ 0
place-front t = ground arith

insert_front :
    (t : Option Text) → text_bytes (insert_text t if_zero (pos 0)) ≡ if_zero ++ text_bytes t
unfolding insert_text
insert_front none = refl
insert_front (some t) = rw (place-front t) refl

append_back : (t : Option Text) → text_bytes (append_text t end_if) ≡ text_bytes t ++ end_if
unfolding append_text insert_text
append_back none = refl
append_back (some t) = rw (take-length t, drop-length t) refl

open_front-save : (es : List Element) → save_list (open_front es) ≡ if_zero ++ save_list es
unfolding save open_front insert_text
open_front-save [] = refl
open_front-save (text t ∷ es) = ap (λ u. u ++ save_list es) (insert_front t)
open_front-save (compound k name cs ∷ es) = refl

open_front-ne : (es : List Element) → open_front es ≢ []
unfolding open_front
open_front-ne [] h = cc h
open_front-ne (text t ∷ es) h = cc h
open_front-ne (compound k name cs ∷ es) h = cc h

close_back-save :
    (e : Element) (es : List Element)
    → save_list (close_back (e ∷ es)) ≡ save_list (e ∷ es) ++ end_if
unfolding save close_back append_text insert_text
close_back-save (text t) [] =
    rw (append-nil (text_bytes (append_text t end_if)), append-nil (text_bytes t)) (append_back t)
close_back-save (compound k name cs) [] =
    ap (λ u. u ++ end_if) (sym (append-nil (save (compound k name cs))))
close_back-save (text t) (e' ∷ es) =
    ap (λ u. text_bytes t ++ u) (close_back-save e' es) ∙ sym (append_assoc (text_bytes t) _ _)
close_back-save (compound k name cs) (e' ∷ es) =
    ap (λ u. save (compound k name cs) ++ u) (close_back-save e' es)
    ∙ sym (append_assoc (save (compound k name cs)) _ _)

pub to_from_list : (es : List Element) → to_list (from_list es) ≡ es
to_from_list [] = refl
to_from_list (e ∷ es) = ap (λ u. e ∷ u) (to_from_list es)

from_to_list : (es : Elements) → from_list (to_list es) ≡ es
from_to_list nil = refl
from_to_list (cons e es) = ap (cons e) (from_to_list es)

-- Between its marks a disabled part is written as the two lines that disable it, the one before and
-- the other behind everything that was written there.
pub disable_code-save :
    (k : Kind) (name : Option Text) (es : Elements)
    → save (disable_code (compound k name es))
      ≡ opening k ++ (identification name ++ (((if_zero ++ save_all es) ++ end_if) ++ closing k))
unfolding save disable_code
disable_code-save k name es =
    ap (λ u. opening k ++ (identification name ++ (u ++ closing k)))
      (closed (open_front (to_list es)) (open_front-ne (to_list es))
        ∙ ap (λ u. u ++ end_if)
            (open_front-save (to_list es) ∙ ap (λ cs. if_zero ++ save_all cs) (from_to_list es)))
  where
    closed : (xs : List Element) → xs ≢ [] → save_list (close_back xs) ≡ save_list xs ++ end_if
    closed [] ne = absurd (ne refl)
    closed (x ∷ xs) ne = close_back-save x xs
