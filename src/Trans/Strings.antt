-- ===== src/Trans/Strings.antt =====
-- What trans/read_mo.cpp makes of a catalogue whose two tables of strings are given.
use ministudo_guibuilder.Prelude.{
  ℕ, suc, ◌+◌, ◌*◌, ◌%◌, ◌^◌, ◌≤◌, ◌<◌, ◌≡◌, refl, sym, none, some, List, [], ◌∷◌, map, length,
  length-map,
}
use ministudo_guibuilder.Prelude.Run.{done}
use ministudo_guibuilder.Prelude.Access.{ok}
use ministudo_guibuilder.Trans.Gettext.{Bytes, Message, MessageList, msd_gettext}
use ministudo_guibuilder.Trans.Order.{IsSorted}
use ministudo_guibuilder.Trans.Bisect.{translation_of, msd_gettext-translation}
use ministudo_guibuilder.Trans.ReadMo.{
  byte_at, add_uint32, get_uint32, get_string, string_at, find_separator, read_header, read_table,
  read_entry, read_entries, read_mo_file, message, messages, message_list, Entry, Header, MoFile,
}

-- At `slot` there stand the length of a string and its place, where the string stands in the file.
pub record HasString (bytes : Bytes) (slot : ℕ) (s : Bytes) : Type 0 where
  pub place : ℕ
  pub size_at : get_uint32 bytes slot ≡ ok (length s)
  pub place_at : get_uint32 bytes (slot + 4) ≡ ok place
  pub ends : byte_at bytes (add_uint32 place (length s)) ≡ ok 0
  pub stands : string_at bytes place ≡ ok s

-- From entry `i` on, the tables at `orig` and `trans` hold these messages and translations, none of
-- which has a context.
abbrev pub HasStrings : Bytes → ℕ → ℕ → ℕ → List (Bytes × Bytes) → Type 0
HasStrings bytes orig trans i [] = Unit
HasStrings bytes orig trans i ((id, str) ∷ ps) =
    HasString bytes (add_uint32 orig (i * 8 % 2 ^ 32)) id
    × (find_separator id ≡ none)
    × HasString bytes (add_uint32 trans (i * 8 % 2 ^ 32)) str
    × HasStrings bytes orig trans (suc i) ps

-- A message without a context.
abbrev pub plain : Bytes × Bytes → Message
plain (id, str) = record {
  msgctxt = none;
  msgid = id;
  msgid_len = add_uint32 (length id) 1;
  msgstr = str;
  msgstr_len = add_uint32 (length str) 1;
}

module _ (bytes : Bytes) where
  get_string-HasString :
      (slot : ℕ) (s : Bytes) (h : HasString bytes slot s)
      → get_string bytes slot ≡ ok (h.place, add_uint32 (length s) 1)
  unfolding get_string
  get_string-HasString slot s h = rw (h.size_at, h.place_at, h.ends) refl

  read_entries-HasStrings :
      (hd : Header) (i : ℕ) (ps : List (Bytes × Bytes))
      → HasStrings bytes hd.orig_tab_offset hd.trans_tab_offset i ps
      → (es : List Entry) × (read_entries bytes hd i (length ps) ≡ ok (bytes, es))
        × (messages bytes es ≡ ok (map plain ps))
  unfolding read_entries read_entry messages message
  read_entries-HasStrings hd i [] tt' = ([], refl, refl)
  read_entries-HasStrings hd i ((id, str) ∷ ps) (first, alone, second, more) =
      let (es, read, said) = read_entries-HasStrings hd (suc i) ps more in
      let at_id = get_string-HasString _ id first in
      let at_str = get_string-HasString _ str second in
      (
        record {
          msgctxt = none;
          msgid = first.place;
          msgid_len = add_uint32 (length id) 1;
          msgstr = second.place;
          msgstr_len = add_uint32 (length str) 1;
        }
            ∷ es,
        rw (at_id, first.stands, alone, at_str, read) refl,
        rw (first.stands, second.stands, said) refl,
      )

  -- A catalogue whose header says how many messages it has, where the tables of messages and of
  -- translations are, and that its table of hash values has two entries at most, is read; then
  -- `msd_gettext` of a message that is not empty, with fuel for the number of messages, which stand in
  -- order and have no contexts, returns the translation that stands in the same entry of the other
  -- table, or the message itself if it is in no entry.
  pub msd_gettext-read_mo_file :
      (fuel : ℕ) (old : MoFile) (orig trans size hash : ℕ) (ps : List (Bytes × Bytes))
      (tab : List ℕ) (c : ℕ) (cs : Bytes)
      → get_uint32 bytes 8 ≡ ok (length ps)
      → get_uint32 bytes 12 ≡ ok orig
      → get_uint32 bytes 16 ≡ ok trans
      → get_uint32 bytes 20 ≡ ok size
      → get_uint32 bytes 24 ≡ ok hash
      → HasStrings bytes orig trans 0 ps
      → read_table bytes hash 0 size ≡ ok tab
      → size ≤ 2
      → IsSorted (map plain ps)
      → length ps < fuel
      → (m : MoFile) × (l : MessageList) × (read_mo_file old (some bytes) ≡ ok m)
        × (message_list m ≡ ok l)
        × (msd_gettext fuel l (c ∷ cs) ≡ done (translation_of (c ∷ cs) (map plain ps)))
  unfolding read_mo_file read_header message_list
  msd_gettext-read_mo_file fuel old orig trans size hash ps tab c cs h8 h12 h16 h20 h24 strings
        table small sorted enough =
      let hd : Header = record {
        nstrings = length ps;
        orig_tab_offset = orig;
        trans_tab_offset = trans;
        hash_tab_size = size;
        hash_tab_offset = hash;
      } in
      let (es, read, said) = read_entries-HasStrings hd 0 ps strings in
      let m : MoFile = record {
        bf = bytes;
        item = es;
        hash_tab = some tab;
        hash_size = size;
        nitems = length ps;
      } in
      let l : MessageList = record {
        item = map plain ps;
        hash_tab = some tab;
        hash_size = size;
        nitems = length ps;
      } in
      (
        m,
        l,
        rw (h8, h12, h16, h20, h24, table, read) refl,
        rw said refl,
        msd_gettext-translation fuel l tab c cs refl small (sym (length-map ps plain)) sorted
            enough,
      )
