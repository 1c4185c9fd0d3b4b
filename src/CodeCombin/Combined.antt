-- ===== src/CodeCombin/Combined.antt =====
-- The generated parts after `combin` of common/codecombin.cpp, name by name.
use ministudo_guibuilder.Prelude.{
  ◌≡◌, refl, sym, ap, ◌∙◌, inl, inr, Bool, Option, none, some, List, [], ◌∷◌, if◌then◌else◌, map,
  Bool-cases, some-inj,
}
use mathlib.Core.Option
use mathlib.Core.Path.{subst}
use ministudo_guibuilder.Prelude.Access.{Access, ok, fault, ◌>>=◌}
use ministudo_guibuilder.CodeCombin.Element.{Text, Element, text, compound, user, auto_gen, doc}
use ministudo_guibuilder.CodeCombin.Parts.{replace_auto_gen_part, disable_code}
use ministudo_guibuilder.CodeCombin.Combine.{
  part_name, put_parts, State, from_first_part, disable_obsolete, disable_named, combin,
}
use ministudo_guibuilder.CodeCombin.Lookup.{
  is_part, lookup_part, is_none, is_missing-lookup, lookup_part-map, is_called-some,
}
use ministudo_guibuilder.CodeCombin.Copies.{replace_auto_gen_part-name, disable_obsolete-name}
use ministudo_guibuilder.CodeCombin.Merge.{Distinct, replaced, put_parts-lookup, ok-inj}
use ministudo_guibuilder.CodeCombin.Names.{Distinct-map, put_parts-Distinct}

-- A part of the user's file takes over the generated text, and is disabled if it is no longer
-- generated; a new part is copied.
abbrev pub combined : Option Element → Option Element → Option Element
combined none new = new
combined (some old) none = some (disable_code old)
combined (some old) (some new) = some (replace_auto_gen_part old new)

pub lookup_part-from_first :
    (n : Text) (es : List Element) → lookup_part n (from_first_part es) ≡ lookup_part n es
lookup_part-from_first n [] = refl
lookup_part-from_first n (text t ∷ es) = lookup_part-from_first n es
lookup_part-from_first n (compound user name cs ∷ es) = lookup_part-from_first n es
lookup_part-from_first n (compound auto_gen name cs ∷ es) = refl
lookup_part-from_first n (compound doc name cs ∷ es) = lookup_part-from_first n es

Distinct-from_first : (es : List Element) → Distinct es → Distinct (from_first_part es)
Distinct-from_first [] d = d
Distinct-from_first (text t ∷ es) d = Distinct-from_first es d.1
Distinct-from_first (compound user name cs ∷ es) d = Distinct-from_first es d.1
Distinct-from_first (compound auto_gen name cs ∷ es) d = d
Distinct-from_first (compound doc name cs ∷ es) d = Distinct-from_first es d.1

lookup_part-name :
    (n : Text) (es : List Element) {e : Element} → lookup_part n es ≡ some e → part_name e ≡ some n
lookup_part-name n [] h = cc h
lookup_part-name n (x ∷ xs) {e} h = elim (Bool-cases (is_part n x)) [
  | inl here ↦ ap part_name (sym (some-inj (rw here at h))) ∙ is_called-some n (part_name x) here
  | inr pass ↦ lookup_part-name n xs (rw pass at h)
]

disable_obsolete-named :
    (generated : List Element) (e : Element) (n : Text)
    → part_name e ≡ some n
    → disable_obsolete generated e
      ≡ (if is_none (lookup_part n generated) then disable_code e else e)
unfolding disable_obsolete
disable_obsolete-named generated e n name =
    ap (disable_named generated e) name
    ∙ ap (λ (b : Bool). if b then disable_code e else e) (is_missing-lookup n generated)

-- The second loop, after the first.
disabled :
    (generated : List Element) (n : Text) (old new : Option Element)
    → lookup_part n generated ≡ new
    → ((e : Element) → old ≡ some e → part_name e ≡ some n)
    → Option.map (disable_obsolete generated) (replaced old new) ≡ combined old new
disabled generated n none none found names = refl
disabled generated n none (some new) found names = ap some (
    disable_obsolete-named generated new n (lookup_part-name n generated found)
    ∙ ap (λ o. if is_none o then disable_code new else new) found)
disabled generated n (some old) none found names = ap some (
    disable_obsolete-named generated old n (names old refl)
    ∙ ap (λ o. if is_none o then disable_code old else old) found)
disabled generated n (some old) (some new) found names =
    let both = replace_auto_gen_part old new in
    ap some (
      disable_obsolete-named generated both n (replace_auto_gen_part-name old new ∙ names old refl)
      ∙ ap (λ o. if is_none o then disable_code both else both) found)

lookup_part-combin :
    (own generated : List Element) (n : Text) {es : List Element}
    → Distinct generated
    → combin own generated ≡ ok es
    → lookup_part n es ≡ combined (lookup_part n own) (lookup_part n generated)
unfolding combin
lookup_part-combin own generated n {es} distinct h =
    after (put_parts (from_first_part generated) (none, own))
      (λ s.
        put_parts-lookup n (from_first_part generated) none own {s = s}
          (Distinct-from_first generated distinct))
      h
  where
    after :
        (r : Access State)
        → ((s : State)
            → r ≡ ok s
            → lookup_part n s.1
              ≡ replaced (lookup_part n own) (lookup_part n (from_first_part generated)))
        → (r >>= λ s. ok (map (disable_obsolete generated) s.1)) ≡ ok es
        → lookup_part n es ≡ combined (lookup_part n own) (lookup_part n generated)
    after fault placed h = cc h
    after (ok s) placed h =
        ap (lookup_part n) (sym (ok-inj h))
        ∙ lookup_part-map (disable_obsolete generated) (disable_obsolete-name generated) n s.1
        ∙ ap (Option.map (disable_obsolete generated))
            (placed s refl ∙ ap (replaced (lookup_part n own)) (lookup_part-from_first n generated))
        ∙ disabled generated n (lookup_part n own) (lookup_part n generated) refl
            (λ e found. lookup_part-name n own found)

combin-Distinct :
    (own generated : List Element) {es : List Element}
    → Distinct own
    → combin own generated ≡ ok es
    → Distinct es
unfolding combin
combin-Distinct own generated {es} distinct h =
    after (put_parts (from_first_part generated) (none, own))
      (λ s. put_parts-Distinct (from_first_part generated) none own {s = s} distinct) h
  where
    after :
        (r : Access State)
        → ((s : State) → r ≡ ok s → Distinct s.1)
        → (r >>= λ s. ok (map (disable_obsolete generated) s.1)) ≡ ok es
        → Distinct es
    after fault kept h = cc h
    after (ok s) kept h = subst Distinct (ok-inj h) (
        Distinct-map (disable_obsolete generated) (disable_obsolete-name generated) s.1
          (kept s refl))

-- If the parts of the user's file have different names, and so have the generated parts, and `combin`
-- comes to its end, then for each name: the part of the user's file takes over the generated text, and
-- is disabled if no part of its name is generated; a generated part that the user's file does not have
-- is there as it was generated; and no two parts of the result have the same name.
pub combin-lookup :
    (own generated : List Element) (n : Text) {es : List Element}
    → Distinct own
    → Distinct generated
    → combin own generated ≡ ok es
    → (lookup_part n es ≡ combined (lookup_part n own) (lookup_part n generated)) × Distinct es
combin-lookup own generated n distinct_own distinct h =
    (lookup_part-combin own generated n distinct h, combin-Distinct own generated distinct_own h)
