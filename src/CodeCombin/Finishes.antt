-- ===== src/CodeCombin/Finishes.antt =====
-- Whether `combin` of common/codecombin.cpp comes to its end: the copies of elements without children.
use ministudo_guibuilder.Prelude.{
  ℕ, ◌≡◌, refl, sym, ap, ◌∙◌, inl, inr, true, false, Option, none, some, List, [], ◌∷◌, ◌++◌, map,
  Bool-cases, All,
}
use ministudo_guibuilder.Prelude.Access.{Access, ok, fault, ◌>>=◌}
use ministudo_guibuilder.CodeCombin.Element.{
  Text, Element, Elements, text, compound, nil, cons, user, auto_gen, doc, same_text, clone,
  clone_all,
}
use ministudo_guibuilder.CodeCombin.Combine.{
  part_name, find_part, put_part, put_named, put_parts, State, striding, added, from_first_part,
  disable_obsolete, combin,
}
use ministudo_guibuilder.CodeCombin.Lookup.{
  is_part, is_part-eq, lookup_part, is_none, find_part-lookup,
}
use ministudo_guibuilder.CodeCombin.Merge.{put, put_part-lookup}
use ministudo_guibuilder.CodeCombin.Combined.{lookup_part-from_first}

-- Every compound element has a child.
unfoldable mutual
  pub Filled : Element → Type 0
  Filled (text t) = Unit
  Filled (compound k name nil) = ⊥
  Filled (compound k name (cons e es)) = Filled e × FilledAll es

  pub FilledAll : Elements → Type 0
  FilledAll nil = Unit
  FilledAll (cons e es) = Filled e × FilledAll es

mutual
  unfolding clone Filled

  clone-Filled : (e : Element) → Filled e → clone e ≡ ok e
  clone-Filled (text t) h = refl
  clone-Filled (compound k name nil) h = elim h [ ]
  clone-Filled (compound k name (cons e es)) h =
      rw (clone-Filled e h.0, clone_all-Filled es h.1) refl

  clone_all-Filled : (es : Elements) → FilledAll es → clone_all es ≡ ok es
  clone_all-Filled nil h = refl
  clone_all-Filled (cons e es) h = rw (clone-Filled e h.0, clone_all-Filled es h.1) refl

put_part-returns :
    (e : Element) (o : Option ℕ) (s : State) → Filled e → (s' : State) × (put_part e o s ≡ ok s')
unfolding put_part
put_part-returns e none (last, es) h = (added last es e, rw (clone-Filled e h) refl)
put_part-returns e (some i) (last, es) h = (_, refl)

put_parts-returns :
    (news : List Element) (s : State) → All Filled news → (s' : State) × (put_parts news s ≡ ok s')
unfolding put_parts
put_parts-returns [] s h = (s, refl)
put_parts-returns (e ∷ news) s h = by_name (part_name e) (λ t. put_parts-returns news t h.1)
  where
    by_name :
        (o : Option Text)
        → ((t : State) → (s' : State) × (put_parts news t ≡ ok s'))
        → (s' : State) × ((put_named e o s >>= λ t. put_parts news (striding t)) ≡ ok s')
    by_name none rest = rest (striding s)
    by_name (some m) rest =
        let (t, placed) = put_part-returns e (find_part m s.1) s h.0 in
        let (s', e') = rest (striding t) in (s', rw placed e')

All-from_first : (es : List Element) → All Filled es → All Filled (from_first_part es)
All-from_first [] h = h
All-from_first (text t ∷ es) h = All-from_first es h.1
All-from_first (compound user name cs ∷ es) h = All-from_first es h.1
All-from_first (compound auto_gen name cs ∷ es) h = h
All-from_first (compound doc name cs ∷ es) h = All-from_first es h.1

-- If every compound element of the generated document has a child, `combin` comes to its end.
pub combin-returns :
    (own generated : List Element)
    → All Filled generated
    → (es : List Element) × (combin own generated ≡ ok es)
unfolding combin
combin-returns own generated h =
    let (s, e) =
      put_parts-returns (from_first_part generated) (none, own) (All-from_first generated h) in
    (map (disable_obsolete generated) s.1, rw e refl)

module _ (m : Text) (after : List Element) where
  -- A generated part that is empty.
  abbrev pub empty_part : Element
  empty_part = compound auto_gen (some m) nil

  put_parts_empty :
      (before : List Element) (last : Option ℕ) (es : List Element)
      → lookup_part m es ≡ none
      → lookup_part m before ≡ none
      → put_parts (before ++ empty_part ∷ after) (last, es) ≡ fault
  unfolding put_parts
  put_parts_empty [] last es new first =
      by_place (find_part m es) (find_part-lookup m es ∙ ap is_none new)
    where
      by_place :
          (o : Option ℕ)
          → is_none o ≡ true
          → (put_part empty_part o (last, es) >>= λ t. put_parts after (striding t)) ≡ fault
      by_place none h = unfold put_part clone in refl
      by_place (some i) h = cc h
  put_parts_empty (e ∷ before) last es new first = elim (Bool-cases (is_part m e)) [
    | inl found ↦ cc (rw found at first)
    | inr pass ↦
        by_name (part_name e) refl pass
          (λ last' es' gone. put_parts_empty before last' es' gone (rw pass at first))
  ]
    where
      Rest : Type 0
      Rest =
          (last' : Option ℕ) (es' : List Element)
          → lookup_part m es' ≡ none
          → put_parts (before ++ empty_part ∷ after) (last', es') ≡ fault

      by_name :
          (o : Option Text)
          → part_name e ≡ o
          → is_part m e ≡ false
          → Rest
          → (put_named e o (last, es) >>= λ t.
              put_parts (before ++ empty_part ∷ after) (striding t))
            ≡ fault
      by_name none name pass rest = rest _ es new
      by_name (some n) name pass rest =
          step (put_part e (find_part n es) (last, es))
            (λ s'. put_part-lookup m e n (find_part n es) last es {s = s'} name refl)
        where
          differ : same_text n m ≡ false
          differ = sym (is_part-eq m e name) ∙ pass

          step :
              (r : Access State)
              → ((s' : State) → r ≡ ok s' → lookup_part m s'.1 ≡ put n m e es)
              → (r >>= λ t. put_parts (before ++ empty_part ∷ after) (striding t)) ≡ fault
          step fault placed = refl
          step (ok (last', es')) placed = rest _ es' (rw differ at (placed (last', es') refl) ∙ new)

  from_first-append :
      (before : List Element)
      → from_first_part (before ++ empty_part ∷ after)
        ≡ from_first_part before ++ empty_part ∷ after
  from_first-append [] = refl
  from_first-append (text t ∷ es) = from_first-append es
  from_first-append (compound user name cs ∷ es) = from_first-append es
  from_first-append (compound auto_gen name cs ∷ es) = refl
  from_first-append (compound doc name cs ∷ es) = from_first-append es

  -- A generated part that is empty and new to the user's file is copied through a null pointer.
  pub combin_empty :
      (own before : List Element)
      → lookup_part m own ≡ none
      → lookup_part m before ≡ none
      → combin own (before ++ empty_part ∷ after) ≡ fault
  unfolding combin
  combin_empty own before new first =
      rw
        (
          from_first-append before,
          put_parts_empty (from_first_part before) none own new
              (lookup_part-from_first m before ∙ first),
        )
        refl
