-- ===== src/Trans/Bisect.antt =====
-- The search by halves of trans/gettext.cpp finds what a search from the first message on finds.
use ministudo_guibuilder.Prelude.{
  ℕ, zero, suc, ◌+◌, ◌-◌, ◌/◌, ◌≤◌, ◌<◌, ◌≡◌, ◌≢◌, refl, sym, ap, ◌∙◌, inl, inr, Bool, false, some,
  List, [], ◌∷◌, ltb, ltb→lt, if◌then◌else◌, get_elem?, get_elem?-some, get_elem?-lt, length, arith,
  Bool-cases, All-get_elem?, some-inj,
}
use Prim.Native.Nat.{Ordering}
use ministudo_guibuilder.Prelude.Run.{Run, done}
use ministudo_guibuilder.Trans.Gettext.{
  Bytes, Message, MessageList, strcmp, bisect, search_table, search_with, msd_gettext,
}
use ministudo_guibuilder.Trans.Found.{strcmp-eq}
use ministudo_guibuilder.Trans.Order.{
  strcmp_flip, strcmp_flip_lt, strcmp_trans, Before, IsSorted, IsSorted-lt,
}

abbrev chosen : Ordering → Bytes → Bytes → Bytes
chosen Ordering.eq msgstr rest = msgstr
chosen Ordering.lt msgstr rest = rest
chosen Ordering.gt msgstr rest = rest

-- The translation of a message, or the message itself.
abbrev pub translation_of : Bytes → List Message → Bytes
translation_of msgid [] = msgid
translation_of msgid (it ∷ its) =
    chosen (strcmp msgid it.msgid) it.msgstr (translation_of msgid its)

chosen-ne : (o : Ordering) (a b : Bytes) → o ≢ Ordering.eq → chosen o a b ≡ b
chosen-ne Ordering.eq a b ne = absurd (ne refl)
chosen-ne Ordering.lt a b ne = refl
chosen-ne Ordering.gt a b ne = refl

untranslated :
    (msgid : Bytes) (its : List Message)
    → ((i : ℕ) (x : Message) → get_elem? its i ≡ some x → strcmp msgid x.msgid ≢ Ordering.eq)
    → translation_of msgid its ≡ msgid
untranslated msgid [] h = refl
untranslated msgid (it ∷ its) h =
    chosen-ne (strcmp msgid it.msgid) it.msgstr _ (h 0 it refl)
    ∙ untranslated msgid its (λ i x e. h (suc i) x e)

translated :
    (msgid : Bytes) (its : List Message) (i : ℕ) (x : Message)
    → IsSorted its
    → get_elem? its i ≡ some x
    → strcmp msgid x.msgid ≡ Ordering.eq
    → translation_of msgid its ≡ x.msgstr
translated msgid [] i x s e h = cc e
translated msgid (it ∷ its) zero x s e h =
    let same : it ≡ x = some-inj e in
    ap (λ o. chosen o it.msgstr (translation_of msgid its))
      (ap (λ (m : Message). strcmp msgid m.msgid) same ∙ h)
    ∙ ap (λ (m : Message). m.msgstr) same
translated msgid (it ∷ its) (suc i) x s e h =
    let before : strcmp it.msgid msgid ≡ Ordering.lt =
      ap (strcmp it.msgid) (strcmp-eq msgid x.msgid h)
      ∙ All-get_elem? (Before it.msgid) its i s.0 e in
    let behind = strcmp_flip_lt it.msgid msgid before in
    chosen-ne (strcmp msgid it.msgid) it.msgstr _ (λ eq. cc (eq, behind))
    ∙ translated msgid its i x s.1 e h

module _ (l : MessageList) (msgid : Bytes) (sorted : IsSorted l.item) where
  -- The messages below `bottom` and from `top` on are not the one.
  abbrev Outside : ℕ → ℕ → Type 0
  Outside bottom top =
      ((i : ℕ) (x : Message)
        → i < bottom
        → get_elem? l.item i ≡ some x
        → strcmp msgid x.msgid ≡ Ordering.gt)
      × ((i : ℕ) (x : Message)
          → top ≤ i
          → get_elem? l.item i ≡ some x
          → strcmp msgid x.msgid ≡ Ordering.lt)

  module _ (act : ℕ) (it : Message) (e : get_elem? l.item act ≡ some it) where
    one : (i : ℕ) (x : Message) → i ≡ act → get_elem? l.item i ≡ some x → it ≡ x
    one i x same g = some-inj (sym e ∙ ap (get_elem? l.item) (sym same) ∙ g)

    from_there :
        strcmp msgid it.msgid ≡ Ordering.lt
        → (i : ℕ) (x : Message) → act ≤ i
        → get_elem? l.item i ≡ some x
        → strcmp msgid x.msgid ≡ Ordering.lt
    from_there c i x high g = elim (Bool-cases (ltb act i)) [
      | inl behind ↦
          strcmp_trans msgid it.msgid x.msgid c
            (IsSorted-lt l.item act i sorted (ltb→lt act i behind) e g)
      | inr same ↦ ap (λ (m : Message). strcmp msgid m.msgid) (sym (one i x (ground arith) g)) ∙ c
    ]

    up_to :
        strcmp msgid it.msgid ≡ Ordering.gt
        → (i : ℕ) (x : Message) → i ≤ act
        → get_elem? l.item i ≡ some x
        → strcmp msgid x.msgid ≡ Ordering.gt
    up_to c i x low g = elim (Bool-cases (ltb i act)) [
      | inl before ↦ strcmp_flip_lt x.msgid msgid (
          strcmp_trans x.msgid it.msgid msgid
            (IsSorted-lt l.item i act sorted (ltb→lt i act before) g e)
            (strcmp_flip msgid it.msgid c))
      | inr same ↦ ap (λ (m : Message). strcmp msgid m.msgid) (sym (one i x (ground arith) g)) ∙ c
    ]

  bisect-translation :
      (fuel bottom top : ℕ)
      → bottom ≤ top
      → top ≤ length l.item
      → top - bottom < fuel
      → Outside bottom top
      → bisect fuel l msgid bottom top ≡ done (translation_of msgid l.item)
  unfolding bisect
  bisect-translation zero bottom top le in_range enough out = elim enough [ ]
  bisect-translation (suc fuel) bottom top le in_range enough out =
      elim (Bool-cases (ltb bottom top)) [
        | inr over ↦
            let met : top ≤ bottom = ground arith in
            rw over (
              ap done (
                sym (
                  untranslated msgid l.item (λ i x e eq. elim (Bool-cases (ltb i bottom)) [
                    | inl low ↦ cc (out.0 i x (ground arith) e, eq)
                    | inr high ↦ cc (out.1 i x (ground arith) e, eq)
                  ]))))
        | inl more ↦
            let apart : bottom < top = ground arith in
            let act = (bottom + top) / 2 in
            let (it, e) = get_elem?-some l.item act (omega arith) in
            rw (more, e)
              (by_order it e (strcmp msgid it.msgid) refl
                (λ o.
                  bisect-translation fuel bottom act (omega arith) (omega arith) (omega arith) o)
                (λ o.
                  bisect-translation fuel (act + 1) top (omega arith) (omega arith) (omega arith)
                    o))
      ]
    where
      by_order :
          (it : Message)
          → get_elem? l.item ((bottom + top) / 2) ≡ some it
          → (o : Ordering) → strcmp msgid it.msgid ≡ o
          → (Outside bottom ((bottom + top) / 2)
              → bisect fuel l msgid bottom ((bottom + top) / 2)
                ≡ done (translation_of msgid l.item))
          → (Outside ((bottom + top) / 2 + 1) top
              → bisect fuel l msgid ((bottom + top) / 2 + 1) top
                ≡ done (translation_of msgid l.item))
          → (elim o as (λ _. Run Bytes) [
            | Ordering.lt ↦ bisect fuel l msgid bottom ((bottom + top) / 2)
            | Ordering.gt ↦ bisect fuel l msgid ((bottom + top) / 2 + 1) top
            | Ordering.eq ↦ done it.msgstr
          ])
            ≡ done (translation_of msgid l.item)
      by_order it e Ordering.eq c p q = ap done (sym (translated msgid l.item _ it sorted e c))
      by_order it e Ordering.lt c p q = p (out.0, from_there ((bottom + top) / 2) it e c)
      by_order it e Ordering.gt c p q =
          q ((λ i x low g. up_to ((bottom + top) / 2) it e c i x (omega arith) g), out.1)

-- With a table of two entries at most, messages in order, and fuel for their number, `msd_gettext` of a
-- message that is not empty comes to its end, and returns the translation that a search from the first
-- message on finds, or the message itself if there is none.
pub msd_gettext-translation :
    (fuel : ℕ) (l : MessageList) (tab : List ℕ) (c : ℕ) (cs : Bytes)
    → l.hash_tab ≡ some tab
    → l.hash_size ≤ 2
    → l.nitems ≡ length l.item
    → IsSorted l.item
    → l.nitems < fuel
    → msd_gettext fuel l (c ∷ cs) ≡ done (translation_of (c ∷ cs) l.item)
unfolding msd_gettext
msd_gettext-translation fuel l tab c cs table small number sorted enough =
    let test : ltb 2 l.hash_size ≡ false = ground arith in
    ap (λ t. search_with fuel l t (c ∷ cs)) table
    ∙ ap
        (λ (b : Bool).
          if b then search_table fuel l tab (c ∷ cs) else bisect fuel l (c ∷ cs) 0 l.nitems)
        test
    ∙ bisect-translation l (c ∷ cs) sorted fuel 0 l.nitems (omega arith) (omega arith) (omega arith)
        (λ i x low e. absurd (omega arith), λ i x high e. absurd (beyond i x high e))
  where
    beyond : (i : ℕ) (x : Message) → l.nitems ≤ i → get_elem? l.item i ≡ some x → ⊥
    beyond i x high e = omega (arith, get_elem?-lt l.item i e)
