-- ===== src/Trans/Gettext.antt =====
-- `hash_string` and `msd_gettext` of trans/gettext.cpp, on the list of messages of trans/read_mo.h.
use ministudo_guibuilder.Prelude.{
  ℕ, zero, suc, ◌+◌, ◌-◌, ◌*◌, ◌/◌, ◌%◌, ◌^◌, Option, none, some, List, [], ◌∷◌, ltb, leb, ◌==◌,
  if◌then◌else◌, get_elem?,
}
use Prim.Native.Nat.{compare, Ordering, bit_and, bit_xor}
use ministudo_guibuilder.Prelude.Run.{Run, done, out_of_fuel, element}

abbrev pub Bytes : Type 0
Bytes = List ℕ

pub record Message : Type 0 where
  pub msgctxt : Option Bytes
  pub msgid : Bytes
  pub msgid_len : ℕ
  pub msgstr : Bytes
  pub msgstr_len : ℕ

pub record MessageList : Type 0 where
  pub item : List Message
  pub hash_tab : Option (List ℕ)
  pub hash_size : ℕ
  pub nitems : ℕ

-- 0xf << (HASHWORDBITS - 4).
abbrev pub high_bits : ℕ
high_bits = 15 * 2 ^ 28

-- An unsigned long has 64 bits.
abbrev pub folded : ℕ → ℕ → ℕ
folded hval g = if g == 0 then hval else bit_xor (bit_xor hval (g / 2 ^ 24)) g

unfoldable pub hash_from : ℕ → Bytes → ℕ
hash_from hval [] = hval
hash_from hval (c ∷ cs) =
    let hval' : ℕ = (hval * 16 % 2 ^ 64 + c) % 2 ^ 64 in
    hash_from (folded hval' (bit_and hval' high_bits)) cs

unfoldable pub hash_string : Bytes → ℕ
hash_string cs = hash_from 0 cs

-- The order of unsigned bytes.
unfoldable pub strcmp : Bytes → Bytes → Ordering
strcmp [] [] = Ordering.eq
strcmp [] (d ∷ ds) = Ordering.lt
strcmp (c ∷ cs) [] = Ordering.gt
strcmp (c ∷ cs) (d ∷ ds) =
    let rest = strcmp cs ds in
    elim (compare c d) [
      | Ordering.lt ↦ Ordering.lt
      | Ordering.eq ↦ rest
      | Ordering.gt ↦ Ordering.gt
    ]

-- The next entry of the table: `incr` further, round its end.
abbrev pub next_idx : ℕ → ℕ → ℕ → ℕ
next_idx size incr idx = if leb (size - incr) idx then idx - (size - incr) else idx + incr

-- The search in the table from an entry on; 0 is an empty entry.
unfoldable pub probe : ℕ → MessageList → List ℕ → Bytes → ℕ → ℕ → Run Bytes
probe zero l tab msgid incr idx = out_of_fuel
probe (suc fuel) l tab msgid incr idx =
    let rest = probe fuel l tab msgid incr (next_idx l.hash_size incr idx) in
    element (get_elem? tab idx) (λ nstr.
      let look =
        element (get_elem? l.item (nstr - 1))
          (λ it. elim (strcmp msgid it.msgid) [ Ordering.eq ↦ done it.msgstr | _ ↦ rest ]) in
      if nstr == 0 then done msgid else look)

-- The search by halves.
unfoldable pub bisect : ℕ → MessageList → Bytes → ℕ → ℕ → Run Bytes
bisect zero l msgid bottom top = out_of_fuel
bisect (suc fuel) l msgid bottom top =
    let act = (bottom + top) / 2 in
    let below = bisect fuel l msgid bottom act in
    let above = bisect fuel l msgid (act + 1) top in
    let look = element (get_elem? l.item act) (λ it. elim (strcmp msgid it.msgid) [
      | Ordering.lt ↦ below
      | Ordering.gt ↦ above
      | Ordering.eq ↦ done it.msgstr
    ]) in
    if ltb bottom top then look else done msgid

abbrev pub search_table : ℕ → MessageList → List ℕ → Bytes → Run Bytes
search_table fuel l tab msgid =
    let hash_val : ℕ = hash_string msgid % 2 ^ 32 in
    probe fuel l tab msgid (1 + hash_val % (l.hash_size - 2)) (hash_val % l.hash_size)

abbrev pub search_with : ℕ → MessageList → Option (List ℕ) → Bytes → Run Bytes
search_with fuel l none msgid = done msgid
search_with fuel l (some tab) [] = done []
search_with fuel l (some tab) (c ∷ cs) =
    if ltb 2 l.hash_size
    then search_table fuel l tab (c ∷ cs)
    else bisect fuel l (c ∷ cs) 0 l.nitems

-- `msd_gettext`, of a message that is not NULL.
unfoldable pub msd_gettext : ℕ → MessageList → Bytes → Run Bytes
msd_gettext fuel l msgid = search_with fuel l l.hash_tab msgid

-- `free_mo_info`; freed memory is not read again while the pointers are NULL.
unfoldable pub free_mo_info : MessageList → MessageList
free_mo_info l = record l { hash_tab = none; item = [] }
