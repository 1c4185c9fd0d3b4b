-- ===== src/CodeCombin/Copies.antt =====
-- Copies of elements, and the names of parts that common/codecombin.cpp changes: they stay.
use ministudo_guibuilder.Prelude.{◌≡◌, refl, inl, inr, Option, none, some, List, Bool-cases}
use ministudo_guibuilder.Prelude.Access.{Access, ok, fault, ◌>>=◌}
use ministudo_guibuilder.CodeCombin.Element.{
  Text, Element, Elements, text, compound, nil, cons, Kind, user, auto_gen, doc, clone, clone_all,
}
use ministudo_guibuilder.CodeCombin.Parts.{replace_auto_gen_part, disable_code, same_name}
use ministudo_guibuilder.CodeCombin.Combine.{part_name, is_missing, disable_obsolete, disable_named}

copied :
    (k : Kind) (name : Option Text) (e : Element) (es : Elements) (a : Access Element)
    (b : Access Elements) {r : Element}
    → ((x : Element) → a ≡ ok x → x ≡ e)
    → ((x : Elements) → b ≡ ok x → x ≡ es)
    → (a >>= λ e'. b >>= λ es'. ok (compound k name (cons e' es'))) ≡ ok r
    → r ≡ compound k name (cons e es)
copied k name e es (ok x) (ok y) p q h = cc (p x refl, q y refl)
copied k name e es (ok x) fault p q h = cc h
copied k name e es fault b p q h = cc h

copied_all :
    (e : Element) (es : Elements) (a : Access Element) (b : Access Elements) {r : Elements}
    → ((x : Element) → a ≡ ok x → x ≡ e)
    → ((x : Elements) → b ≡ ok x → x ≡ es)
    → (a >>= λ e'. b >>= λ es'. ok (cons e' es')) ≡ ok r
    → r ≡ cons e es
copied_all e es (ok x) (ok y) p q h = cc (p x refl, q y refl)
copied_all e es (ok x) fault p q h = cc h
copied_all e es fault b p q h = cc h

-- A copy that is made is equal.
mutual
  unfolding clone

  pub clone-eq : (e : Element) {e' : Element} → clone e ≡ ok e' → e' ≡ e
  clone-eq (text t) h = cc
  clone-eq (compound k name nil) h = cc h
  clone-eq (compound k name (cons e es)) h =
      copied k name e es (clone e) (clone_all es) (λ x. clone-eq e {e' = x})
        (λ x. clone_all-eq es {es' = x}) h

  pub clone_all-eq : (es : Elements) {es' : Elements} → clone_all es ≡ ok es' → es' ≡ es
  clone_all-eq nil h = cc
  clone_all-eq (cons e es) h =
      copied_all e es (clone e) (clone_all es) (λ x. clone-eq e {e' = x})
        (λ x. clone_all-eq es {es' = x}) h

pub replace_auto_gen_part-name :
    (e page : Element) → part_name (replace_auto_gen_part e page) ≡ part_name e
unfolding replace_auto_gen_part
replace_auto_gen_part-name (text t) page = refl
replace_auto_gen_part-name (compound k name es) (text t) = refl
replace_auto_gen_part-name (compound k name es) (compound k' name' ps) =
    elim (Bool-cases (same_name name name')) [
      | inl same ↦ rw same (by_kind k _ _)
      | inr differ ↦ rw differ refl
    ]
  where
    by_kind :
        (k : Kind) (cs ds : Elements)
        → part_name (compound k name cs) ≡ part_name (compound k name ds)
    by_kind user cs ds = refl
    by_kind auto_gen cs ds = refl
    by_kind doc cs ds = refl

pub disable_code-name : (e : Element) → part_name (disable_code e) ≡ part_name e
unfolding disable_code
disable_code-name (text t) = refl
disable_code-name (compound user name es) = refl
disable_code-name (compound auto_gen name es) = refl
disable_code-name (compound doc name es) = refl

pub disable_obsolete-name :
    (generated : List Element) (e : Element)
    → part_name (disable_obsolete generated e) ≡ part_name e
unfolding disable_obsolete
disable_obsolete-name generated e = by_name (part_name e)
  where
    by_name : (o : Option Text) → part_name (disable_named generated e o) ≡ part_name e
    by_name none = refl
    by_name (some name) = elim (Bool-cases (is_missing name generated)) [
      | inl missing ↦ rw missing (disable_code-name e)
      | inr there ↦ rw there refl
    ]
