-- ===== src/Trans/Order.antt =====
-- The order of `strcmp`, and sorted messages, for trans/gettext.cpp.
use ministudo_guibuilder.Prelude.{
  ℕ, zero, suc, ◌<◌, ◌≡◌, refl, some, List, [], ◌∷◌, get_elem?, arith, All, All-get_elem?, some-inj,
}
use Prim.Native.Nat.{Ordering}
use ministudo_guibuilder.Trans.Gettext.{Bytes, Message, strcmp}

pub strcmp_flip : (a b : Bytes) → strcmp a b ≡ Ordering.gt → strcmp b a ≡ Ordering.lt
unfolding strcmp
strcmp_flip [] [] h = cc h
strcmp_flip [] (d ∷ ds) h = cc h
strcmp_flip (c ∷ cs) [] h = refl
strcmp_flip (c ∷ cs) (d ∷ ds) h = ground (arith, strcmp_flip cs ds)

pub strcmp_flip_lt : (a b : Bytes) → strcmp a b ≡ Ordering.lt → strcmp b a ≡ Ordering.gt
unfolding strcmp
strcmp_flip_lt [] [] h = cc h
strcmp_flip_lt [] (d ∷ ds) h = refl
strcmp_flip_lt (c ∷ cs) [] h = cc h
strcmp_flip_lt (c ∷ cs) (d ∷ ds) h = ground (arith, strcmp_flip_lt cs ds)

pub strcmp_trans :
    (a b c : Bytes) → strcmp a b ≡ Ordering.lt → strcmp b c ≡ Ordering.lt → strcmp a c ≡ Ordering.lt
unfolding strcmp
strcmp_trans [] [] c h k = cc h
strcmp_trans [] (y ∷ ys) [] h k = cc k
strcmp_trans [] (y ∷ ys) (z ∷ zs) h k = refl
strcmp_trans (x ∷ xs) [] c h k = cc h
strcmp_trans (x ∷ xs) (y ∷ ys) [] h k = cc k
strcmp_trans (x ∷ xs) (y ∷ ys) (z ∷ zs) h k = ground (arith, strcmp_trans xs ys zs)

abbrev pub Before : Bytes → Message → Type 0
Before msgid it = strcmp msgid it.msgid ≡ Ordering.lt

-- The messages stand in the order of their identifiers, and no two have the same one.
abbrev pub IsSorted : List Message → Type 0
IsSorted [] = Unit
IsSorted (it ∷ its) = All (Before it.msgid) its × IsSorted its

pub IsSorted-lt :
    (its : List Message) (i j : ℕ) {x y : Message}
    → IsSorted its
    → i < j
    → get_elem? its i ≡ some x
    → get_elem? its j ≡ some y
    → Before x.msgid y
IsSorted-lt [] i j s h p q = cc p
IsSorted-lt (it ∷ its) i zero s h p q = elim h [ ]
IsSorted-lt (it ∷ its) zero (suc j) {x} {y} s h p q =
    rw (← (some-inj p)) (All-get_elem? (Before it.msgid) its j s.0 q)
IsSorted-lt (it ∷ its) (suc i) (suc j) s h p q = IsSorted-lt its i j s.1 (omega arith) p q
