-- ===== src/Trans/ReadMo.antt =====
-- Reading a catalogue, trans/read_mo.cpp. Pointers into the bytes of the file are offsets. The tests for
-- offsets that are too large only print a message: what is read behind the end is a fault.
use ministudo_guibuilder.Prelude.{
  ℕ, zero, suc, ◌+◌, ◌-◌, ◌*◌, ◌%◌, ◌^◌, Option, none, some, List, [], ◌∷◌, ◌==◌, if◌then◌else◌,
  get_elem?, drop, modify,
}
use ministudo_guibuilder.Prelude.Access.{Access, ok, fault, ◌>>=◌, of_option}
use ministudo_guibuilder.Trans.Gettext.{Bytes, Message, MessageList}

abbrev pub byte_at : Bytes → ℕ → Access ℕ
byte_at bytes i = of_option (get_elem? bytes i)

-- A sum of two `uint32_t`.
abbrev pub add_uint32 : ℕ → ℕ → ℕ
add_uint32 a b = (a + b) % 2 ^ 32

unfoldable pub get_uint32 : Bytes → ℕ → Access ℕ
get_uint32 bytes offset = byte_at bytes offset >>= λ b0. byte_at bytes (offset + 1) >>= λ b1.
    byte_at bytes (offset + 2) >>= λ b2.
    byte_at bytes (offset + 3) >>= λ b3. ok (b0 + b1 * 2 ^ 8 + b2 * 2 ^ 16 + b3 * 2 ^ 24)

-- Where a string is, and `*lengthp`.
unfoldable pub get_string : Bytes → ℕ → Access (ℕ × ℕ)
get_string bytes offset = get_uint32 bytes offset >>= λ s_length.
    get_uint32 bytes (offset + 4) >>= λ s_offset.
    byte_at bytes (add_uint32 s_offset s_length) >>= λ last. ok (s_offset, add_uint32 s_length 1)

-- A C string, up to the first byte 0.
unfoldable pub string_from : Bytes → Access Bytes
string_from [] = fault
string_from (c ∷ cs) =
    let rest = string_from cs >>= λ s. ok (c ∷ s) in if c == 0 then ok [] else rest

abbrev pub string_at : Bytes → ℕ → Access Bytes
string_at bytes p = string_from (drop p bytes)

-- `MSGCTXT_SEPARATOR`.
abbrev pub separator : ℕ
separator = 4

abbrev pub one_more : Option ℕ → Option ℕ
one_more none = none
one_more (some i) = some (suc i)

-- `strchr(msgid, MSGCTXT_SEPARATOR)`, counted from the start of the string.
abbrev pub find_separator : Bytes → Option ℕ
find_separator [] = none
find_separator (c ∷ cs) =
    let later = one_more (find_separator cs) in if c == separator then some 0 else later

-- An element of `m_list->item`.
pub record Entry : Type 0 where
  pub msgctxt : Option ℕ
  pub msgid : ℕ
  pub msgid_len : ℕ
  pub msgstr : ℕ
  pub msgstr_len : ℕ

-- The msgid behind its context; the separator becomes a byte 0. A `size_t` has 64 bits.
abbrev pub split_msgid : Bytes → ℕ × ℕ → Option ℕ → Bytes × (Option ℕ × (ℕ × ℕ))
split_msgid bytes (p, len) none = (bytes, (none, (p, len)))
split_msgid bytes (p, len) (some i) =
    (modify bytes (p + i) (λ _. 0), (some p, (p + i + 1, (len + 2 ^ 64 - (i + 1)) % 2 ^ 64)))

abbrev pub with_msgstr : Bytes × (Option ℕ × (ℕ × ℕ)) → ℕ × ℕ → Bytes × Entry
with_msgstr (bytes, (ctxt, (id, id_len))) (str, str_len) = (
  bytes,
  record { msgctxt = ctxt; msgid = id; msgid_len = id_len; msgstr = str; msgstr_len = str_len },
)

pub record Header : Type 0 where
  pub nstrings : ℕ
  pub orig_tab_offset : ℕ
  pub trans_tab_offset : ℕ
  pub hash_tab_size : ℕ
  pub hash_tab_offset : ℕ

unfoldable pub read_header : Bytes → Access Header
read_header bytes = get_uint32 bytes 8 >>= λ n. get_uint32 bytes 12 >>= λ orig.
    get_uint32 bytes 16 >>= λ trans. get_uint32 bytes 20 >>= λ size. get_uint32 bytes 24 >>= λ hash.
    ok (record {
      nstrings = n;
      orig_tab_offset = orig;
      trans_tab_offset = trans;
      hash_tab_size = size;
      hash_tab_offset = hash;
    })

-- The loop that reads the table: `n` more entries from the entry `i` on.
unfoldable pub read_table : Bytes → ℕ → ℕ → ℕ → Access (List ℕ)
read_table bytes offset i zero = ok []
read_table bytes offset i (suc n) =
    get_uint32 bytes (add_uint32 offset (i * 4 % 2 ^ 32)) >>= λ entry.
    read_table bytes offset (suc i) n >>= λ rest. ok (entry ∷ rest)

-- One message.
unfoldable pub read_entry : Bytes → Header → ℕ → Access (Bytes × Entry)
read_entry bytes h i = get_string bytes (add_uint32 h.orig_tab_offset (i * 8 % 2 ^ 32)) >>= λ id.
    string_at bytes id.0 >>= λ whole.
    let parts = split_msgid bytes id (find_separator whole) in
    get_string parts.0 (add_uint32 h.trans_tab_offset (i * 8 % 2 ^ 32)) >>= λ str.
    ok (with_msgstr parts str)

-- The loop that reads the messages.
unfoldable pub read_entries : Bytes → Header → ℕ → ℕ → Access (Bytes × List Entry)
read_entries bytes h i zero = ok (bytes, [])
read_entries bytes h i (suc n) =
    read_entry bytes h i >>= λ r. read_entries r.0 h (suc i) n >>= λ rest. ok (rest.0, r.1 ∷ rest.1)

-- `message_list_ty` with the bytes of the file that its pointers point into.
pub record MoFile : Type 0 where
  pub bf : Bytes
  pub item : List Entry
  pub hash_tab : Option (List ℕ)
  pub hash_size : ℕ
  pub nitems : ℕ

-- `read_mo_file`, of a file with these bytes, or of one that cannot be opened.
unfoldable pub read_mo_file : MoFile → Option Bytes → Access MoFile
read_mo_file l none = ok l
read_mo_file l (some bytes) = read_header bytes >>= λ h.
    read_table bytes h.hash_tab_offset 0 h.hash_tab_size >>= λ tab.
    read_entries bytes h 0 h.nstrings >>= λ r. ok (record {
      bf = r.0;
      item = r.1;
      hash_tab = some tab;
      hash_size = h.hash_tab_size;
      nitems = h.nstrings;
    })

-- What the pointers of an entry point to.
abbrev pub context_at : Bytes → Option ℕ → Access (Option Bytes)
context_at bytes none = ok none
context_at bytes (some p) = string_at bytes p >>= λ s. ok (some s)

unfoldable pub message : Bytes → Entry → Access Message
message bytes e = context_at bytes e.msgctxt >>= λ ctxt. string_at bytes e.msgid >>= λ id.
    string_at bytes e.msgstr >>= λ str. ok (record {
      msgctxt = ctxt;
      msgid = id;
      msgid_len = e.msgid_len;
      msgstr = str;
      msgstr_len = e.msgstr_len;
    })

unfoldable pub messages : Bytes → List Entry → Access (List Message)
messages bytes [] = ok []
messages bytes (e ∷ es) = message bytes e >>= λ m. messages bytes es >>= λ ms. ok (m ∷ ms)

-- The list as `msd_gettext` reads it, if every pointer points to a string.
unfoldable pub message_list : MoFile → Access MessageList
message_list l = messages l.bf l.item >>= λ ms.
    ok (record { item = ms; hash_tab = l.hash_tab; hash_size = l.hash_size; nitems = l.nitems })
