-- ===== src/CodeCombin/Lookup.antt =====
-- The generated parts of a document by their names, common/codecombin.cpp.
use ministudo_guibuilder.Prelude.{
  ℕ, zero, suc, ◌≡◌, refl, sym, ap, ◌∙◌, inl, inr, Bool, true, false, Option, none, some, List, [],
  ◌∷◌, ◌++◌, arith, if◌then◌else◌, modify, map, Bool-cases, some-inj,
}
use mathlib.Core.Option
use ministudo_guibuilder.CodeCombin.Element.{
  Text, Element, text, compound, user, auto_gen, doc, same_text, is_called, get_child, insert_at,
  insert_child, later,
}
use ministudo_guibuilder.CodeCombin.Combine.{part_name, find_part, is_missing}

pub same_text_refl : (a : Text) → same_text a a ≡ true
same_text_refl [] = refl
same_text_refl (c ∷ cs) = ground (arith, same_text_refl cs)

pub same_text-eq : (a b : Text) → same_text a b ≡ true → a ≡ b
same_text-eq [] [] h = refl
same_text-eq [] (d ∷ ds) h = cc h
same_text-eq (c ∷ cs) [] h = cc h
same_text-eq (c ∷ cs) (d ∷ ds) h = ground (arith, same_text-eq cs ds)

abbrev pub is_part : Text → Element → Bool
is_part name e = is_called name (part_name e)

-- The first generated part of a name.
abbrev pub lookup_part : Text → List Element → Option Element
lookup_part name [] = none
lookup_part name (e ∷ es) = if is_part name e then some e else lookup_part name es

pub is_part-eq :
    (name : Text) (e : Element) {own : Text}
    → part_name e ≡ some own
    → is_part name e ≡ same_text own name
is_part-eq name e h = ap (is_called name) h

differs :
    (e : Element) (m n : Text) → is_part m e ≡ false → is_part n e ≡ true → same_text m n ≡ false
differs e m n other here = elim (Bool-cases (same_text m n)) [
  | inl same ↦ cc (other, here, ap (λ (t : Text). is_part t e) (same_text-eq m n same))
  | inr apart ↦ apart
]

pub find_part-nil : (name : Text) → find_part name [] ≡ none
unfolding find_part get_child
find_part-nil name = refl

-- What `getChild` tests.
pub find_part-cons :
    (name : Text) (e : Element) (es : List Element)
    → find_part name (e ∷ es) ≡ (if is_part name e then some 0 else later (find_part name es))
unfolding find_part get_child
find_part-cons name (text t) es = refl
find_part-cons name (compound user own cs) es = refl
find_part-cons name (compound auto_gen none cs) es = refl
find_part-cons name (compound auto_gen (some own) cs) es = refl
find_part-cons name (compound doc own cs) es = refl

pub later-some : (o : Option ℕ) {i : ℕ} → later o ≡ some i → (j : ℕ) × (o ≡ some j) × (i ≡ suc j)
later-some none h = cc h
later-some (some j) h = (j, refl, sym (some-inj h))

pub is_called-some : (name : Text) (o : Option Text) → is_called name o ≡ true → o ≡ some name
is_called-some name none h = cc h
is_called-some name (some own) h = ap some (same_text-eq own name h)

pub is_part_self : (name : Text) (e : Element) → part_name e ≡ some name → is_part name e ≡ true
is_part_self name e h = rw h (same_text_refl name)

abbrev pub is_none {ℓ} : {A : Type ℓ} → Option A → Bool
is_none none = true
is_none (some a) = false

later-is_none : (o : Option ℕ) → is_none (later o) ≡ is_none o
later-is_none none = refl
later-is_none (some i) = refl

pub find_part-lookup :
    (name : Text) (es : List Element) → is_none (find_part name es) ≡ is_none (lookup_part name es)
find_part-lookup name [] = unfold find_part get_child in refl
find_part-lookup name (e ∷ es) = rw (find_part-cons name e es) (elim (Bool-cases (is_part name e)) [
  | inl found ↦ rw found refl
  | inr other ↦ rw other (later-is_none (find_part name es) ∙ find_part-lookup name es)
])

-- Nothing is found exactly where there is no part of the name.
pub is_missing-lookup :
    (name : Text) (es : List Element) → is_missing name es ≡ is_none (lookup_part name es)
is_missing-lookup name es = as_none (find_part name es) ∙ find_part-lookup name es
  where
    as_none : (o : Option ℕ) → (elim o [ none ↦ true | some i ↦ false ]) ≡ is_none o
    as_none none = refl
    as_none (some i) = refl

module _ (f : Element → Element) (f-name : (e : Element) → part_name (f e) ≡ part_name e) where
  is_part-f : (n : Text) (e : Element) → is_part n (f e) ≡ is_part n e
  is_part-f n e = ap (is_called n) (f-name e)

  -- The first part of one name has been changed.
  pub lookup_part-modify :
      (m n : Text) (es : List Element) (i : ℕ)
      → find_part m es ≡ some i
      → lookup_part n (modify es i f)
        ≡ (if same_text m n then Option.map f (lookup_part n es) else lookup_part n es)
  lookup_part-modify m n [] i h = cc (h, find_part-nil m)
  lookup_part-modify m n (e ∷ es) i h = elim (Bool-cases (is_part m e)) [
    | inl found ↦
        let first : 0 ≡ i = some-inj (rw (find_part-cons m e es, found) at h) in
        let name = is_part-eq n e (is_called-some m (part_name e) found) in
        rw (← first, is_part-f n e, name)
          (elim (Bool-cases (same_text m n)) [
            | inl same ↦ rw same refl
            | inr differ ↦ rw differ refl
          ])
    | inr other ↦
        let (j, found, behind) =
          later-some (find_part m es) (rw (find_part-cons m e es, other) at h) in
        let rest = lookup_part-modify m n es j found in
        rw (behind, rest)
          (elim (Bool-cases (is_part n e)) [
            | inr pass ↦ rw pass refl
            | inl here ↦ rw (here, differs e m n other here) refl
          ])
  ]

  pub lookup_part-map :
      (n : Text) (es : List Element) → lookup_part n (map f es) ≡ Option.map f (lookup_part n es)
  lookup_part-map n [] = refl
  lookup_part-map n (e ∷ es) =
      rw (is_part-f n e, lookup_part-map n es)
        (elim (Bool-cases (is_part n e)) [ inl here ↦ rw here refl | inr pass ↦ rw pass refl ])

-- A part has been inserted whose name was not there.
pub lookup_part-insert_at :
    (n : Text) (e : Element) (i : ℕ) (es : List Element) {m : Text}
    → part_name e ≡ some m
    → lookup_part m es ≡ none
    → lookup_part n (insert_at i e es) ≡ (if same_text m n then some e else lookup_part n es)
lookup_part-insert_at n e zero es name new = rw (is_part-eq n e name) refl
lookup_part-insert_at n e (suc i) [] name new = rw (is_part-eq n e name) refl
lookup_part-insert_at n e (suc i) (x ∷ xs) {m} name new = elim (Bool-cases (is_part m x)) [
  | inl found ↦ cc (rw found at new)
  | inr other ↦
      let rest = lookup_part-insert_at n e i xs name (rw other at new) in
      rw rest (elim (Bool-cases (is_part n x)) [
        | inr pass ↦ rw pass refl
        | inl here ↦ rw (here, differs x m n other here) refl
      ])
]

pub lookup_part-append_one :
    (n : Text) (e : Element) (es : List Element) {m : Text}
    → part_name e ≡ some m
    → lookup_part m es ≡ none
    → lookup_part n (es ++ e ∷ []) ≡ (if same_text m n then some e else lookup_part n es)
lookup_part-append_one n e [] name new = rw (is_part-eq n e name) refl
lookup_part-append_one n e (x ∷ xs) {m} name new = elim (Bool-cases (is_part m x)) [
  | inl found ↦ cc (rw found at new)
  | inr other ↦
      let rest = lookup_part-append_one n e xs name (rw other at new) in
      rw rest (elim (Bool-cases (is_part n x)) [
        | inr pass ↦ rw pass refl
        | inl here ↦ rw (here, differs x m n other here) refl
      ])
]

pub lookup_part-insert_child :
    (n : Text) (e : Element) (at : Option ℕ) (before : Bool) (es : List Element) {m : Text}
    → part_name e ≡ some m
    → lookup_part m es ≡ none
    → lookup_part n (insert_child e at before es).1
      ≡ (if same_text m n then some e else lookup_part n es)
unfolding insert_child
lookup_part-insert_child n e at before [] name new = rw (is_part-eq n e name) refl
lookup_part-insert_child n e none before (x ∷ xs) name new =
    lookup_part-append_one n e (x ∷ xs) name new
lookup_part-insert_child n e (some i) true (x ∷ xs) name new =
    lookup_part-insert_at n e i (x ∷ xs) name new
lookup_part-insert_child n e (some i) false (x ∷ xs) name new =
    lookup_part-insert_at n e (suc i) (x ∷ xs) name new
