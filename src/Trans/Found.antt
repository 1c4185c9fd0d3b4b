-- ===== src/Trans/Found.antt =====
-- What `msd_gettext` of trans/gettext.cpp returns, and when it does not.
use ministudo_guibuilder.Prelude.{
  ℕ, zero, suc, ◌+◌, ◌-◌, ◌/◌, ◌≡◌, refl, sym, ◌⊎◌, inl, inr, Option, none, some, List, [], ◌∷◌,
  ltb, ◌==◌, if◌then◌else◌, get_elem?, arith, Bool-cases,
}
use Prim.Native.Nat.{Ordering}
use ministudo_guibuilder.Prelude.Run.{Run, done, element}
use ministudo_guibuilder.Trans.Gettext.{
  Bytes, Message, MessageList, strcmp, probe, next_idx, bisect, search_with, msd_gettext,
}

pub strcmp-eq : (a b : Bytes) → strcmp a b ≡ Ordering.eq → a ≡ b
unfolding strcmp
strcmp-eq [] [] h = refl
strcmp-eq [] (d ∷ ds) h = cc h
strcmp-eq (c ∷ cs) [] h = cc h
strcmp-eq (c ∷ cs) (d ∷ ds) h = ground (arith, strcmp-eq cs ds)

-- A translation from the list.
abbrev pub Translation : MessageList → Bytes → Bytes → Type 0
Translation l msgid r =
    (i : ℕ) × (it : Message) × (get_elem? l.item i ≡ some it) × (it.msgid ≡ msgid) × (r ≡ it.msgstr)

abbrev Result : MessageList → Bytes → Bytes → Type 0
Result l msgid r = (r ≡ msgid) ⊎ Translation l msgid r

done-inj {ℓ} : {A : Type ℓ} {x y : A} → done x ≡ done y → x ≡ y
done-inj h = cc

module _ (l : MessageList) (msgid : Bytes) (r : Bytes) where
  compared :
      (i : ℕ) (it : Message) (o : Ordering) (below above : Run Bytes)
      → get_elem? l.item i ≡ some it
      → strcmp msgid it.msgid ≡ o
      → (below ≡ done r → Result l msgid r)
      → (above ≡ done r → Result l msgid r)
      → (elim o as (λ _. Run Bytes) [
        | Ordering.lt ↦ below
        | Ordering.gt ↦ above
        | Ordering.eq ↦ done it.msgstr
      ])
        ≡ done r
      → Result l msgid r
  compared i it Ordering.lt below above e c p q h = p h
  compared i it Ordering.gt below above e c p q h = q h
  compared i it Ordering.eq below above e c p q h =
      inr (i, it, e, sym (strcmp-eq msgid it.msgid c), sym (done-inj h))

  looked_up :
      (i : ℕ) (o : Option Message) (below above : Run Bytes)
      → get_elem? l.item i ≡ o
      → (below ≡ done r → Result l msgid r)
      → (above ≡ done r → Result l msgid r)
      → element o (λ it. elim (strcmp msgid it.msgid) as (λ _. Run Bytes) [
        | Ordering.lt ↦ below
        | Ordering.gt ↦ above
        | Ordering.eq ↦ done it.msgstr
      ])
        ≡ done r
      → Result l msgid r
  looked_up i none below above e p q h = cc h
  looked_up i (some it) below above e p q h =
      compared i it (strcmp msgid it.msgid) below above e refl p q h

  bisect-found : (fuel bottom top : ℕ) → bisect fuel l msgid bottom top ≡ done r → Result l msgid r
  unfolding bisect
  bisect-found zero bottom top h = cc h
  bisect-found (suc fuel) bottom top h = elim (Bool-cases (ltb bottom top)) [
    | inl more ↦
        looked_up ((bottom + top) / 2) (get_elem? l.item ((bottom + top) / 2)) _ _ refl
          (bisect-found fuel bottom ((bottom + top) / 2))
          (bisect-found fuel ((bottom + top) / 2 + 1) top) (rw more at h)
    | inr over ↦ inl (sym (done-inj (rw over at h)))
  ]

  probe-found :
      (fuel : ℕ) (tab : List ℕ) (incr idx : ℕ)
      → probe fuel l tab msgid incr idx ≡ done r
      → Result l msgid r
  unfolding probe
  probe-found zero tab incr idx h = cc h
  probe-found (suc fuel) tab incr idx h =
      by_entry (get_elem? tab idx) (probe-found fuel tab incr (next_idx l.hash_size incr idx)) h
    where
      rest : Run Bytes
      rest = probe fuel l tab msgid incr (next_idx l.hash_size incr idx)

      look : ℕ → Run Bytes
      look nstr =
          element (get_elem? l.item (nstr - 1))
            (λ it. elim (strcmp msgid it.msgid) [ Ordering.eq ↦ done it.msgstr | _ ↦ rest ])

      by_entry :
          (o : Option ℕ)
          → (rest ≡ done r → Result l msgid r)
          → element o (λ nstr. if nstr == 0 then done msgid else look nstr) ≡ done r
          → Result l msgid r
      by_entry none ih h = cc h
      by_entry (some nstr) ih h = elim (Bool-cases (nstr == 0)) [
        | inl empty ↦ inl (sym (done-inj (rw empty at h)))
        | inr entry ↦
            looked_up (nstr - 1) (get_elem? l.item (nstr - 1)) rest rest refl ih ih (rw entry at h)
      ]

-- What `msd_gettext` returns is the message itself, or the translation that the list has for it.
pub msd_gettext-found :
    (fuel : ℕ) (l : MessageList) (msgid r : Bytes)
    → msd_gettext fuel l msgid ≡ done r
    → (r ≡ msgid) ⊎ Translation l msgid r
unfolding msd_gettext
msd_gettext-found fuel l msgid r h = by_table l.hash_tab msgid h
  where
    by_table :
        (t : Option (List ℕ)) (m : Bytes)
        → search_with fuel l t m ≡ done r
        → (r ≡ m) ⊎ Translation l m r
    by_table none m h = inl (sym (done-inj h))
    by_table (some tab) [] h = inl (sym (done-inj h))
    by_table (some tab) (c ∷ cs) h = elim (Bool-cases (ltb 2 l.hash_size)) [
      | inl table ↦ probe-found l (c ∷ cs) r fuel tab _ _ (rw table at h)
      | inr halves ↦ bisect-found l (c ∷ cs) r fuel 0 l.nitems (rw halves at h)
    ]
