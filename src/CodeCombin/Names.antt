-- ===== src/CodeCombin/Names.antt =====
-- `combin` of common/codecombin.cpp makes no second part of a name.
use ministudo_guibuilder.Prelude.{
  ℕ, zero, suc, ◌≡◌, refl, sym, ap, ◌∙◌, inl, inr, false, Option, none, some, List, [], ◌∷◌, ◌++◌,
  modify, map, Bool-cases,
}
use mathlib.Core.Path.{subst}
use ministudo_guibuilder.Prelude.Access.{Access, ok, fault, ◌>>=◌}
use ministudo_guibuilder.CodeCombin.Element.{
  Text, Element, same_text, insert_at, insert_child, clone,
}
use ministudo_guibuilder.CodeCombin.Parts.{replace_auto_gen_part}
use ministudo_guibuilder.CodeCombin.Combine.{
  part_name, find_part, put_part, put_named, put_parts, striding, added, State,
}
use ministudo_guibuilder.CodeCombin.Lookup.{
  is_part, lookup_part, lookup_part-append_one, lookup_part-insert_at, same_text-eq, is_part_self,
}
use ministudo_guibuilder.CodeCombin.Copies.{clone-eq, replace_auto_gen_part-name}
use ministudo_guibuilder.CodeCombin.Merge.{Fresh, Distinct, ok-inj, find_part-missing}

-- Whether a name is free depends on the names alone.
module _ (f : Element → Element) (f-name : (e : Element) → part_name (f e) ≡ part_name e) where
  absent-modify :
      (n : Text) (es : List Element) (i : ℕ)
      → lookup_part n es ≡ none
      → lookup_part n (modify es i f) ≡ none
  absent-modify n [] i h = h
  absent-modify n (e ∷ es) zero h = elim (Bool-cases (is_part n e)) [
    | inl here ↦ cc (rw here at h)
    | inr pass ↦ rw (f-name e, pass) (rw pass at h)
  ]
  absent-modify n (e ∷ es) (suc i) h = elim (Bool-cases (is_part n e)) [
    | inl here ↦ cc (rw here at h)
    | inr pass ↦ rw pass (absent-modify n es i (rw pass at h))
  ]

  Fresh-modify :
      (o : Option Text) (es : List Element) (i : ℕ) → Fresh o es → Fresh o (modify es i f)
  Fresh-modify none es i h = tt
  Fresh-modify (some n) es i h = absent-modify n es i h

  Distinct-modify : (es : List Element) (i : ℕ) → Distinct es → Distinct (modify es i f)
  Distinct-modify [] i d = tt
  Distinct-modify (e ∷ es) zero (new, d) = (subst (λ o. Fresh o es) (sym (f-name e)) new, d)
  Distinct-modify (e ∷ es) (suc i) (new, d) =
      (Fresh-modify (part_name e) es i new, Distinct-modify es i d)

  absent-map :
      (n : Text) (es : List Element) → lookup_part n es ≡ none → lookup_part n (map f es) ≡ none
  absent-map n [] h = h
  absent-map n (e ∷ es) h = elim (Bool-cases (is_part n e)) [
    | inl here ↦ cc (rw here at h)
    | inr pass ↦ rw (f-name e, pass) (absent-map n es (rw pass at h))
  ]

  Fresh-map : (o : Option Text) (es : List Element) → Fresh o es → Fresh o (map f es)
  Fresh-map none es h = tt
  Fresh-map (some n) es h = absent-map n es h

  pub Distinct-map : (es : List Element) → Distinct es → Distinct (map f es)
  Distinct-map [] d = tt
  Distinct-map (e ∷ es) (new, d) = (
    subst (λ o. Fresh o (map f es)) (sym (f-name e)) (Fresh-map (part_name e) es new),
    Distinct-map es d,
  )

-- A part whose name is free may be inserted anywhere.
module _ (e : Element) (m : Text) (name : part_name e ≡ some m) where
  differ :
      (x : Element) (n : Text) → part_name x ≡ some n → is_part m x ≡ false → same_text m n ≡ false
  differ x n is other = elim (Bool-cases (same_text m n)) [
    | inl same ↦ cc (other, is_part_self m x (is ∙ ap some (sym (same_text-eq m n same))))
    | inr apart ↦ apart
  ]

  Fresh-insert_at :
      (x : Element) (o : Option Text) (i : ℕ) (es : List Element)
      → part_name x ≡ o
      → is_part m x ≡ false
      → lookup_part m es ≡ none
      → Fresh o es
      → Fresh o (insert_at i e es)
  Fresh-insert_at x none i es is other free new = tt
  Fresh-insert_at x (some n) i es is other free new =
      lookup_part-insert_at n e i es name free ∙ rw (differ x n is other) new

  Fresh-append_one :
      (x : Element) (o : Option Text) (es : List Element)
      → part_name x ≡ o
      → is_part m x ≡ false
      → lookup_part m es ≡ none
      → Fresh o es
      → Fresh o (es ++ e ∷ [])
  Fresh-append_one x none es is other free new = tt
  Fresh-append_one x (some n) es is other free new =
      lookup_part-append_one n e es name free ∙ rw (differ x n is other) new

  Distinct-insert_at :
      (i : ℕ) (es : List Element)
      → lookup_part m es ≡ none
      → Distinct es
      → Distinct (insert_at i e es)
  Distinct-insert_at zero es free d = (subst (λ o. Fresh o es) (sym name) free, d)
  Distinct-insert_at (suc i) [] free d = (subst (λ o. Fresh o []) (sym name) refl, tt)
  Distinct-insert_at (suc i) (x ∷ xs) free (new, d) = elim (Bool-cases (is_part m x)) [
    | inl here ↦ cc (rw here at free)
    | inr other ↦
        let free' = rw other at free in
        (Fresh-insert_at x (part_name x) i xs refl other free' new, Distinct-insert_at i xs free' d)
  ]

  Distinct-append_one :
      (es : List Element) → lookup_part m es ≡ none → Distinct es → Distinct (es ++ e ∷ [])
  Distinct-append_one [] free d = (subst (λ o. Fresh o []) (sym name) refl, tt)
  Distinct-append_one (x ∷ xs) free (new, d) = elim (Bool-cases (is_part m x)) [
    | inl here ↦ cc (rw here at free)
    | inr other ↦
        let free' = rw other at free in
        (Fresh-append_one x (part_name x) xs refl other free' new, Distinct-append_one xs free' d)
  ]

  Distinct-insert_child :
      (at : Option ℕ) (es : List Element)
      → lookup_part m es ≡ none
      → Distinct es
      → Distinct (insert_child e at false es).1
  unfolding insert_child
  Distinct-insert_child at [] free d = (subst (λ o. Fresh o []) (sym name) refl, tt)
  Distinct-insert_child none (x ∷ xs) free d = Distinct-append_one (x ∷ xs) free d
  Distinct-insert_child (some i) (x ∷ xs) free d = Distinct-insert_at (suc i) (x ∷ xs) free d

  put_part-Distinct :
      (o : Option ℕ) (last : Option ℕ) (es : List Element) {s : State}
      → find_part m es ≡ o
      → Distinct es
      → put_part e o (last, es) ≡ ok s
      → Distinct s.1
  unfolding put_part
  put_part-Distinct none last es {s} found d h = inserted (clone e) (λ x. clone-eq e {e' = x}) h
    where
      inserted :
          (c : Access Element)
          → ((x : Element) → c ≡ ok x → x ≡ e)
          → (c >>= λ e'. ok (added last es e')) ≡ ok s
          → Distinct s.1
      inserted fault copy h = cc h
      inserted (ok x) copy h =
          subst (λ (t : State). Distinct t.1) (ok-inj h)
            (subst (λ (y : Element). Distinct (added last es y).1) (sym (copy x refl))
              (Distinct-insert_child last es (find_part-missing m es found) d))
  put_part-Distinct (some i) last es found d h =
      subst (λ (t : State). Distinct t.1) (ok-inj h)
        (Distinct-modify (λ own. replace_auto_gen_part own e)
          (λ own. replace_auto_gen_part-name own e) es i d)

-- The first loop makes no second part of a name.
pub put_parts-Distinct :
    (news : List Element) (last : Option ℕ) (es : List Element) {s : State}
    → Distinct es
    → put_parts news (last, es) ≡ ok s
    → Distinct s.1
unfolding put_parts
put_parts-Distinct [] last es d h = subst (λ (t : State). Distinct t.1) (ok-inj h) d
put_parts-Distinct (e ∷ news) last es {s} d h =
    by_name (part_name e) refl (λ last' es' d' rest. put_parts-Distinct news last' es' d' rest) h
  where
    Rest : Type 0
    Rest =
        (last' : Option ℕ) (es' : List Element)
        → Distinct es'
        → put_parts news (last', es') ≡ ok s
        → Distinct s.1

    by_name :
        (o : Option Text)
        → part_name e ≡ o
        → Rest
        → (put_named e o (last, es) >>= λ s'. put_parts news (striding s')) ≡ ok s
        → Distinct s.1
    by_name none name rest h = rest _ es d h
    by_name (some m) name rest h =
        after (put_part e (find_part m es) (last, es))
          (λ s'. put_part-Distinct e m name (find_part m es) last es {s = s'} refl d) h
      where
        after :
            (r : Access State)
            → ((s' : State) → r ≡ ok s' → Distinct s'.1)
            → (r >>= λ s'. put_parts news (striding s')) ≡ ok s
            → Distinct s.1
        after fault placed h = cc h
        after (ok (last', es')) placed h = rest _ es' (placed (last', es') refl) h
