-- ===== src/CodeCombin/Kept.antt =====
-- What the user wrote outside the generated parts is kept by `combin` of common/codecombin.cpp.
use ministudo_guibuilder.Prelude.{
  ℕ, zero, suc, ◌≡◌, refl, sym, ap, ◌∙◌, inl, inr, Bool, true, false, Option, none, some, List, [],
  ◌∷◌, ◌++◌, modify, map, Bool-cases, some-inj,
}
use ministudo_guibuilder.Prelude.Access.{Access, ok, fault, ◌>>=◌}
use ministudo_guibuilder.CodeCombin.Element.{Text, Element, clone, insert_child, insert_at}
use ministudo_guibuilder.CodeCombin.Parts.{replace_auto_gen_part}
use ministudo_guibuilder.CodeCombin.Combine.{
  part_name, find_part, put_part, put_named, put_parts, State, striding, added, from_first_part,
  disable_obsolete, combin,
}
use ministudo_guibuilder.CodeCombin.Lookup.{
  is_part, is_called-some, find_part-nil, find_part-cons, later-some,
}
use ministudo_guibuilder.CodeCombin.Copies.{
  clone-eq, replace_auto_gen_part-name, disable_obsolete-name,
}
use ministudo_guibuilder.CodeCombin.Merge.{ok-inj}

abbrev other : Option Text → Element → List Element → List Element
other none e es = e ∷ es
other (some name) e es = es

-- What is not a generated part with a name.
abbrev pub others : List Element → List Element
others [] = []
others (e ∷ es) = other (part_name e) e (others es)

others-modify :
    (m : Text) (f : Element → Element) (es : List Element) (i : ℕ)
    → ((e : Element) → part_name (f e) ≡ part_name e)
    → find_part m es ≡ some i
    → others (modify es i f) ≡ others es
others-modify m f [] i names h = cc (h, find_part-nil m)
others-modify m f (e ∷ es) i names h = elim (Bool-cases (is_part m e)) [
  | inl found ↦
      let first : 0 ≡ i = some-inj (rw (find_part-cons m e es, found) at h) in
      let name = is_called-some m (part_name e) found in rw (← first, names e, name) refl
  | inr pass ↦
      let (j, there, behind) =
        later-some (find_part m es) (rw (find_part-cons m e es, pass) at h) in
      rw behind (ap (other (part_name e) e) (others-modify m f es j names there))
]

others-insert_at :
    (e : Element) (i : ℕ) (es : List Element) {m : Text}
    → part_name e ≡ some m
    → others (insert_at i e es) ≡ others es
others-insert_at e zero es name = rw name refl
others-insert_at e (suc i) [] name = rw name refl
others-insert_at e (suc i) (x ∷ xs) name = ap (other (part_name x) x) (others-insert_at e i xs name)

others-append_one :
    (e : Element) (es : List Element) {m : Text}
    → part_name e ≡ some m
    → others (es ++ e ∷ []) ≡ others es
others-append_one e [] name = rw name refl
others-append_one e (x ∷ xs) name = ap (other (part_name x) x) (others-append_one e xs name)

others-insert_child :
    (e : Element) (at : Option ℕ) (before : Bool) (es : List Element) {m : Text}
    → part_name e ≡ some m
    → others (insert_child e at before es).1 ≡ others es
unfolding insert_child
others-insert_child e at before [] name = rw name refl
others-insert_child e none before (x ∷ xs) name = others-append_one e (x ∷ xs) name
others-insert_child e (some i) true (x ∷ xs) name = others-insert_at e i (x ∷ xs) name
others-insert_child e (some i) false (x ∷ xs) name = others-insert_at e (suc i) (x ∷ xs) name

disable_obsolete-unnamed :
    (generated : List Element) (e : Element) → part_name e ≡ none → disable_obsolete generated e ≡ e
unfolding disable_obsolete
disable_obsolete-unnamed generated e name = rw name refl

others-disable :
    (generated es : List Element) → others (map (disable_obsolete generated) es) ≡ others es
others-disable generated [] = refl
others-disable generated (e ∷ es) =
    rw (disable_obsolete-name generated e, others-disable generated es) (by_name (part_name e) refl)
  where
    by_name :
        (o : Option Text)
        → part_name e ≡ o
        → other o (disable_obsolete generated e) (others es) ≡ other o e (others es)
    by_name none name = ap (λ x. x ∷ others es) (disable_obsolete-unnamed generated e name)
    by_name (some m) name = refl

put_part-others :
    (e : Element) (m : Text) (o : Option ℕ) (last : Option ℕ) (es : List Element) {s : State}
    → part_name e ≡ some m
    → find_part m es ≡ o
    → put_part e o (last, es) ≡ ok s
    → others s.1 ≡ others es
unfolding put_part
put_part-others e m none last es {s} name found h = inserted (clone e) (λ x. clone-eq e {e' = x}) h
  where
    inserted :
        (c : Access Element)
        → ((x : Element) → c ≡ ok x → x ≡ e)
        → (c >>= λ e'. ok (added last es e')) ≡ ok s
        → others s.1 ≡ others es
    inserted fault copy h = cc h
    inserted (ok x) copy h =
        ap (λ (t : State). others t.1) (sym (ok-inj h))
        ∙ others-insert_child x last false es (ap part_name (copy x refl) ∙ name)
put_part-others e m (some i) last es {s} name found h =
    ap (λ (t : State). others t.1) (sym (ok-inj h))
    ∙ others-modify m (λ own. replace_auto_gen_part own e) es i
        (λ own. replace_auto_gen_part-name own e) found

put_parts-others :
    (news : List Element) (last : Option ℕ) (es : List Element) {s : State}
    → put_parts news (last, es) ≡ ok s
    → others s.1 ≡ others es
unfolding put_parts
put_parts-others [] last es h = ap (λ (t : State). others t.1) (sym (ok-inj h))
put_parts-others (e ∷ news) last es {s} h =
    by_name (part_name e) refl (λ last' es' rest. put_parts-others news last' es' rest) h
  where
    Rest : Type 0
    Rest =
        (last' : Option ℕ) (es' : List Element)
        → put_parts news (last', es') ≡ ok s
        → others s.1 ≡ others es'

    by_name :
        (o : Option Text)
        → part_name e ≡ o
        → Rest
        → (put_named e o (last, es) >>= λ s'. put_parts news (striding s')) ≡ ok s
        → others s.1 ≡ others es
    by_name none name rest h = rest _ es h
    by_name (some m) name rest h =
        after (put_part e (find_part m es) (last, es))
          (λ s'. put_part-others e m (find_part m es) last es {s = s'} name refl) h
      where
        after :
            (r : Access State)
            → ((s' : State) → r ≡ ok s' → others s'.1 ≡ others es)
            → (r >>= λ s'. put_parts news (striding s')) ≡ ok s
            → others s.1 ≡ others es
        after fault kept h = cc h
        after (ok (last', es')) kept h = rest _ es' h ∙ kept (last', es') refl

-- What the user wrote outside the generated parts that have names, be it text, user code or a
-- generated part without a name, is there after `combin` as it was and in the same order.
pub combin-others :
    (own generated : List Element) {es : List Element}
    → combin own generated ≡ ok es
    → others es ≡ others own
unfolding combin
combin-others own generated {es} h =
    after (put_parts (from_first_part generated) (none, own))
      (λ s. put_parts-others (from_first_part generated) none own {s = s}) h
  where
    after :
        (r : Access State)
        → ((s : State) → r ≡ ok s → others s.1 ≡ others own)
        → (r >>= λ s. ok (map (disable_obsolete generated) s.1)) ≡ ok es
        → others es ≡ others own
    after fault kept h = cc h
    after (ok s) kept h = ap others (sym (ok-inj h)) ∙ others-disable generated s.1 ∙ kept s refl
