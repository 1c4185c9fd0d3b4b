-- ===== src/Trans/Probing.antt =====
-- Probing the table of trans/gettext.cpp: with an empty entry on the way, and with a full table.
use ministudo_guibuilder.Prelude.{
  ℕ, zero, suc, ◌+◌, ◌-◌, ◌%◌, ◌^◌, ◌<◌, ◌≡◌, ◌≢◌, refl, ap, ◌∙◌, ◌⊎◌, inl, inr, Bool, true, false,
  some, List, ◌∷◌, ltb, ◌==◌, if◌then◌else◌, get_elem?, get_elem?-some, length, arith, Bool-cases,
  All, All-get_elem?,
}
use Prim.Native.Nat.{Ordering}
use ministudo_guibuilder.Prelude.Run.{Run, done, out_of_fuel}
use ministudo_guibuilder.Trans.Gettext.{
  Bytes, Message, MessageList, strcmp, probe, next_idx, bisect, hash_string, search_table,
  search_with, msd_gettext,
}

-- An entry of the table that holds another message.
abbrev pub IsOther : MessageList → Bytes → ℕ → Type 0
IsOther l msgid nstr =
    (nstr ≢ 0)
    × (it : Message) × (get_elem? l.item (nstr - 1) ≡ some it)
    × (strcmp msgid it.msgid ≢ Ordering.eq)

module _ (l : MessageList) (tab : List ℕ) (msgid : Bytes) (incr : ℕ)
    (sized : length tab ≡ l.hash_size) (few : incr < l.hash_size)
    (full : All (IsOther l msgid) tab) where
  next_idx-lt : (idx : ℕ) → idx < l.hash_size → next_idx l.hash_size incr idx < l.hash_size
  next_idx-lt idx h = ground arith

  probe_full : (fuel idx : ℕ) → idx < l.hash_size → probe fuel l tab msgid incr idx ≡ out_of_fuel
  unfolding probe
  probe_full zero idx h = refl
  probe_full (suc fuel) idx h =
      let (nstr, entry) = get_elem?-some tab idx (omega arith) in
      let (ne, it, item, differs) = All-get_elem? (IsOther l msgid) tab idx full entry in
      let used : (nstr == 0) ≡ false = ground arith in
      rw (entry, used, item)
        (passes (strcmp msgid it.msgid) _ _ differs
          (probe_full fuel (next_idx l.hash_size incr idx) (next_idx-lt idx h)))
    where
      passes :
          (o : Ordering) (r s : Run Bytes)
          → o ≢ Ordering.eq
          → r ≡ out_of_fuel
          → (elim o as (λ _. Run Bytes) [ Ordering.eq ↦ s | _ ↦ r ]) ≡ out_of_fuel
      passes Ordering.lt r s ne e = e
      passes Ordering.gt r s ne e = e
      passes Ordering.eq r s ne e = absurd (ne refl)

mod_below : (a n : ℕ) → 0 < n → a % n < n
mod_below a n h = grind arith

-- If the table has more than two entries, as many as its size says, and every one holds another message
-- than the one that is looked for, `msd_gettext` of a message that is not empty never comes to its end,
-- whatever its hash value.
pub msd_gettext_full :
    (fuel : ℕ) (l : MessageList) (tab : List ℕ) (c : ℕ) (cs : Bytes)
    → l.hash_tab ≡ some tab
    → length tab ≡ l.hash_size
    → 2 < l.hash_size
    → All (IsOther l (c ∷ cs)) tab
    → msd_gettext fuel l (c ∷ cs) ≡ out_of_fuel
unfolding msd_gettext
msd_gettext_full fuel l tab c cs table sized big full =
    let hash_val : ℕ = hash_string (c ∷ cs) % 2 ^ 32 in
    let test : ltb 2 l.hash_size ≡ true = ground arith in
    ap (λ t. search_with fuel l t (c ∷ cs)) table
    ∙ ap
        (λ (b : Bool).
          if b then search_table fuel l tab (c ∷ cs) else bisect fuel l (c ∷ cs) 0 l.nitems)
        test
    ∙ probe_full l tab (c ∷ cs) (1 + hash_val % (l.hash_size - 2)) sized
        (omega (arith, mod_below hash_val (l.hash_size - 2) (omega arith))) full fuel
        (hash_val % l.hash_size) (mod_below hash_val l.hash_size (omega arith))

-- The entry that is probed after `k` others.
abbrev pub probed : ℕ → ℕ → ℕ → ℕ → ℕ
probed size incr zero idx = idx
probed size incr (suc k) idx = probed size incr k (next_idx size incr idx)

-- An entry is empty, or it holds a message of the list.
abbrev pub IsEntry : MessageList → ℕ → Type 0
IsEntry l nstr = (nstr ≡ 0) ⊎ ((it : Message) × (get_elem? l.item (nstr - 1) ≡ some it))

module _ (l : MessageList) (tab : List ℕ) (msgid : Bytes) (incr : ℕ)
    (sized : length tab ≡ l.hash_size) (valid : All (IsEntry l) tab) where
  probe-ends :
      (k idx : ℕ)
      → idx < l.hash_size
      → get_elem? tab (probed l.hash_size incr k idx) ≡ some 0
      → (r : Bytes) × (probe (suc k) l tab msgid incr idx ≡ done r)
  unfolding probe
  probe-ends zero idx h empty = (msgid, rw empty refl)
  probe-ends (suc k) idx h empty =
      let (nstr, entry) = get_elem?-some tab idx (omega arith) in
      let more = probe-ends k (next_idx l.hash_size incr idx) (ground arith) empty in
      elim (Bool-cases (nstr == 0)) [
        | inl free ↦ (msgid, rw (entry, free) refl)
        | inr used ↦ elim (All-get_elem? (IsEntry l) tab idx valid entry) [
          | inl none_there ↦ absurd (ground arith)
          | inr (it, item) ↦
              let (r, e) = compared it.msgstr (strcmp msgid it.msgid) _ more in
              (r, rw (entry, used, item) e)
        ]
      ]
    where
      compared :
          (msgstr : Bytes) (o : Ordering) (rest : Run Bytes)
          → ((r : Bytes) × (rest ≡ done r))
          → (r : Bytes) × ((elim o as (λ _. Run Bytes) [ Ordering.eq ↦ done msgstr | _ ↦ rest ])
              ≡ done r)
      compared msgstr Ordering.eq rest more = (msgstr, refl)
      compared msgstr Ordering.lt rest more = more
      compared msgstr Ordering.gt rest more = more

abbrev pub first_idx : ℕ → Bytes → ℕ
first_idx size msgid = hash_string msgid % 2 ^ 32 % size

abbrev pub step_of : ℕ → Bytes → ℕ
step_of size msgid = 1 + hash_string msgid % 2 ^ 32 % (size - 2)

-- If the table is as long as it says, its entries are empty or hold messages of the list, and the entry
-- that is probed after `k` others is empty, then `msd_gettext` of a message that is not empty answers
-- with fuel for `k + 1` probes.
pub msd_gettext-answers :
    (k : ℕ) (l : MessageList) (tab : List ℕ) (c : ℕ) (cs : Bytes)
    → l.hash_tab ≡ some tab
    → length tab ≡ l.hash_size
    → 2 < l.hash_size
    → All (IsEntry l) tab
    → get_elem? tab
        (probed l.hash_size (step_of l.hash_size (c ∷ cs)) k (first_idx l.hash_size (c ∷ cs)))
      ≡ some 0
    → (r : Bytes) × (msd_gettext (suc k) l (c ∷ cs) ≡ done r)
unfolding msd_gettext
msd_gettext-answers k l tab c cs table sized big valid empty =
    let test : ltb 2 l.hash_size ≡ true = ground arith in
    let (r, e) =
      probe-ends l tab (c ∷ cs) (step_of l.hash_size (c ∷ cs)) sized valid k
        (first_idx l.hash_size (c ∷ cs))
        (mod_below (hash_string (c ∷ cs) % 2 ^ 32) l.hash_size (omega arith)) empty in
    (
      r,
      ap (λ t. search_with (suc k) l t (c ∷ cs)) table
          ∙ ap
              (λ (b : Bool).
                if b
                then search_table (suc k) l tab (c ∷ cs)
                else bisect (suc k) l (c ∷ cs) 0 l.nitems)
              test
          ∙ e,
    )
