-- ===== src/CodeCombin/Merge.antt =====
-- What `combin` of common/codecombin.cpp makes of the part of each name.
use ministudo_guibuilder.Prelude.{
  ℕ, ◌≡◌, refl, sym, ap, ◌∙◌, inl, inr, Bool, true, false, Option, none, some, List, [], ◌∷◌,
  if◌then◌else◌, Bool-cases,
}
use ministudo_guibuilder.Prelude.Access.{Access, ok, fault, ◌>>=◌}
use ministudo_guibuilder.CodeCombin.Element.{Text, Element, same_text, clone}
use ministudo_guibuilder.CodeCombin.Parts.{replace_auto_gen_part}
use ministudo_guibuilder.CodeCombin.Combine.{
  part_name, find_part, put_part, put_named, put_parts, striding, added, State,
}
use ministudo_guibuilder.CodeCombin.Lookup.{
  is_part-eq, lookup_part, is_none, find_part-lookup, lookup_part-modify, lookup_part-insert_child,
  same_text-eq,
}
use ministudo_guibuilder.CodeCombin.Copies.{clone-eq, replace_auto_gen_part-name}

abbrev pub Fresh : Option Text → List Element → Type 0
Fresh none es = Unit
Fresh (some m) es = lookup_part m es ≡ none

-- No two generated parts have the same name.
abbrev pub Distinct : List Element → Type 0
Distinct [] = Unit
Distinct (e ∷ es) = Fresh (part_name e) es × Distinct es

-- After the first loop: a part of the user's file, with the generated one of its name.
abbrev pub replaced : Option Element → Option Element → Option Element
replaced none new = new
replaced (some old) none = some old
replaced (some old) (some new) = some (replace_auto_gen_part old new)

abbrev pub put : Text → Text → Element → List Element → Option Element
put m n e es = if same_text m n then replaced (lookup_part n es) (some e) else lookup_part n es

pub ok-inj {ℓ} : {A : Type ℓ} {x y : A} → ok x ≡ ok y → x ≡ y
ok-inj h = cc

pub find_part-missing :
    (m : Text) (es : List Element) → find_part m es ≡ none → lookup_part m es ≡ none
find_part-missing m es h = nothing (lookup_part m es) (sym (find_part-lookup m es) ∙ ap is_none h)
  where
    nothing : (o : Option Element) → is_none o ≡ true → o ≡ none
    nothing none h = refl
    nothing (some e) h = cc h

find_part-there :
    (m : Text) (es : List Element) {i : ℕ}
    → find_part m es ≡ some i
    → (e : Element) × (lookup_part m es ≡ some e)
find_part-there m es h = something (lookup_part m es) (sym (find_part-lookup m es) ∙ ap is_none h)
  where
    something : (o : Option Element) → is_none o ≡ false → (e : Element) × (o ≡ some e)
    something none h = cc h
    something (some e) h = (e, refl)

pub put_part-lookup :
    (n : Text) (e : Element) (m : Text) (o : Option ℕ) (last : Option ℕ) (es : List Element)
    {s : State}
    → part_name e ≡ some m
    → find_part m es ≡ o
    → put_part e o (last, es) ≡ ok s
    → lookup_part n s.1 ≡ put m n e es
unfolding put_part
put_part-lookup n e m none last es {s} name found h =
    inserted (clone e) (λ x. clone-eq e {e' = x}) h
  where
    absent : lookup_part m es ≡ none
    absent = find_part-missing m es found

    inserted :
        (c : Access Element)
        → ((x : Element) → c ≡ ok x → x ≡ e)
        → (c >>= λ e'. ok (added last es e')) ≡ ok s
        → lookup_part n s.1 ≡ put m n e es
    inserted fault copy h = cc h
    inserted (ok x) copy h =
        ap (λ (t : State). lookup_part n t.1) (sym (ok-inj h))
        ∙ ap (λ (y : Element). lookup_part n (added last es y).1) (copy x refl)
        ∙ lookup_part-insert_child n e last false es name absent
        ∙ elim (Bool-cases (same_text m n)) [
          | inl same ↦
              let gone : lookup_part n es ≡ none =
                ap (λ (t : Text). lookup_part t es) (sym (same_text-eq m n same)) ∙ absent in
              rw (same, gone) refl
          | inr differ ↦ rw differ refl
        ]
put_part-lookup n e m (some i) last es {s} name found h =
    ap (λ (t : State). lookup_part n t.1) (sym (ok-inj h))
    ∙ lookup_part-modify (λ own. replace_auto_gen_part own e)
        (λ own. replace_auto_gen_part-name own e) m n es i found
    ∙ elim (Bool-cases (same_text m n)) [
      | inl same ↦
          let (old, there) = find_part-there m es found in
          let here : lookup_part n es ≡ some old =
            ap (λ (t : Text). lookup_part t es) (sym (same_text-eq m n same)) ∙ there in
          rw (same, here) refl
      | inr differ ↦ rw differ refl
    ]

-- What the first loop makes of the part of a name.
pub put_parts-lookup :
    (n : Text) (news : List Element) (last : Option ℕ) (es : List Element) {s : State}
    → Distinct news
    → put_parts news (last, es) ≡ ok s
    → lookup_part n s.1 ≡ replaced (lookup_part n es) (lookup_part n news)
unfolding put_parts
put_parts-lookup n [] last es distinct h =
    ap (λ (t : State). lookup_part n t.1) (sym (ok-inj h)) ∙ kept (lookup_part n es)
  where
    kept : (o : Option Element) → o ≡ replaced o none
    kept none = refl
    kept (some old) = refl
put_parts-lookup n (e ∷ news) last es {s} distinct h =
    by_name (part_name e) refl distinct.0
      (λ last' es' rest. put_parts-lookup n news last' es' distinct.1 rest) h
  where
    Rest : Type 0
    Rest =
        (last' : Option ℕ) (es' : List Element)
        → put_parts news (last', es') ≡ ok s
        → lookup_part n s.1 ≡ replaced (lookup_part n es') (lookup_part n news)

    both :
        (m : Text)
        → Fresh (some m) news
        → replaced (put m n e es) (lookup_part n news)
          ≡ replaced (lookup_part n es) (if same_text m n then some e else lookup_part n news)
    both m fresh = elim (Bool-cases (same_text m n)) [
      | inl same ↦
          let none_left : lookup_part n news ≡ none =
            ap (λ (t : Text). lookup_part t news) (sym (same_text-eq m n same)) ∙ fresh in
          rw (same, none_left) (alone (replaced (lookup_part n es) (some e)))
      | inr differ ↦ rw differ refl
    ]
      where
        alone : (o : Option Element) → replaced o none ≡ o
        alone none = refl
        alone (some old) = refl

    by_name :
        (o : Option Text)
        → part_name e ≡ o
        → Fresh o news
        → Rest
        → (put_named e o (last, es) >>= λ s'. put_parts news (striding s')) ≡ ok s
        → lookup_part n s.1 ≡ replaced (lookup_part n es) (lookup_part n (e ∷ news))
    by_name none name fresh rest h = rw name (rest _ es h)
    by_name (some m) name fresh rest h =
        after (put_part e (find_part m es) (last, es))
          (λ s'. put_part-lookup n e m (find_part m es) last es {s = s'} name refl) h
      where
        after :
            (r : Access State)
            → ((s' : State) → r ≡ ok s' → lookup_part n s'.1 ≡ put m n e es)
            → (r >>= λ s'. put_parts news (striding s')) ≡ ok s
            → lookup_part n s.1 ≡ replaced (lookup_part n es) (lookup_part n (e ∷ news))
        after fault placed h = cc h
        after (ok (last', es')) placed h =
            rest _ es' h
            ∙ ap (λ o. replaced o (lookup_part n news)) (placed (last', es') refl)
            ∙ both m fresh
            ∙ ap
                (λ (b : Bool).
                  replaced (lookup_part n es) (if b then some e else lookup_part n news))
                (sym (is_part-eq n e name))
