-- ===== src/Trans/Examples.antt =====
-- Catalogues of one and two messages, read and searched with the functions of trans/read_mo.cpp and
-- trans/gettext.cpp, and the theorems there.
use ministudo_guibuilder.Prelude.{ℕ, ◌≡◌, refl, ◌⊎◌, inl, inr, none, some, [], ◌∷◌, ◌++◌, arith}
use ministudo_guibuilder.Prelude.Access.{ok}
use ministudo_guibuilder.Prelude.Run.{done, out_of_fuel}
use ministudo_guibuilder.Trans.Gettext.{
  Bytes, Message, MessageList, hash_from, hash_string, strcmp, probe, bisect, msd_gettext,
  free_mo_info,
}
use ministudo_guibuilder.Trans.Found.{Translation, msd_gettext-found}
use ministudo_guibuilder.Trans.Bisect.{translation_of, msd_gettext-translation}
use ministudo_guibuilder.Trans.Probing.{msd_gettext_full, msd_gettext-answers}
use ministudo_guibuilder.Trans.Strings.{HasString, msd_gettext-read_mo_file}
use ministudo_guibuilder.Trans.ReadMo.{
  MoFile, get_uint32, get_string, string_from, read_header, read_table, read_entry, read_entries,
  message, messages, read_mo_file, message_list,
}

program : Unit {0}
unfolding hash_from hash_string strcmp probe bisect msd_gettext free_mo_info get_uint32 get_string
    string_from read_header read_table read_entry read_entries message messages read_mo_file
    message_list
program = tt

abbrev short : ℕ → ℕ → Message
short id str = record {
  msgctxt = none;
  msgid = id ∷ [];
  msgid_len = 2;
  msgstr = str ∷ [];
  msgstr_len = 2;
}

abbrev upper_b : Bytes
upper_b = 66 ∷ []

-- "a" and "b", with no table, a full table, and a table with an empty entry.
abbrev plain : MessageList
plain = record {
  item = short 97 65 ∷ short 98 66 ∷ [];
  hash_tab = some [];
  hash_size = 0;
  nitems = 2;
}

abbrev full : MessageList
full = record plain { hash_tab = some (1 ∷ 2 ∷ 1 ∷ []); hash_size = 3 }

abbrev sparse : MessageList
sparse = record plain { hash_tab = some (1 ∷ 0 ∷ 2 ∷ []); hash_size = 3 }

plain_runs : msd_gettext 5 plain (98 ∷ []) ≡ done (66 ∷ [])
unfolding program
plain_runs = refl

-- "b" stands at the entry 2, since its hash value is 98.
sparse_runs : msd_gettext 5 sparse (98 ∷ []) ≡ done (66 ∷ [])
unfolding program
sparse_runs = refl

freed_runs : msd_gettext 5 (free_mo_info plain) (98 ∷ []) ≡ done (98 ∷ [])
unfolding program
freed_runs = refl

msd_gettext-found_example : (upper_b ≡ 98 ∷ []) ⊎ Translation plain (98 ∷ []) upper_b
msd_gettext-found_example = msd_gettext-found 5 plain (98 ∷ []) upper_b plain_runs

msd_gettext-translation_example :
    msd_gettext 5 plain (98 ∷ []) ≡ done (translation_of (98 ∷ []) plain.item)
unfolding strcmp
msd_gettext-translation_example =
    msd_gettext-translation 5 plain [] 98 [] refl (omega arith) refl ((refl, tt), (tt, tt))
      (omega arith)

msd_gettext_full_example : msd_gettext 1000 full (99 ∷ []) ≡ out_of_fuel
unfolding strcmp
msd_gettext_full_example =
    msd_gettext_full 1000 full (1 ∷ 2 ∷ 1 ∷ []) 99 [] refl refl (omega arith) (
      (omega arith, short 97 65, refl, λ e. cc e),
      (
        (omega arith, short 98 66, refl, λ e. cc e),
        ((omega arith, short 97 65, refl, λ e. cc e), tt),
      ),
    )

msd_gettext-answers_example : (r : Bytes) × (msd_gettext 2 sparse (99 ∷ []) ≡ done r)
unfolding program
msd_gettext-answers_example =
    msd_gettext-answers 1 sparse (1 ∷ 0 ∷ 2 ∷ []) 99 [] refl refl (omega arith)
      (inr (short 97 65, refl), (inl refl, (inr (short 98 66, refl), tt))) refl

-- A file with one message, "a", and its translation "A".
abbrev number : ℕ → Bytes
number n = n ∷ 0 ∷ 0 ∷ 0 ∷ []

abbrev one_message : Bytes
one_message =
    number 0
    ++ (number 0
        ++ (number 1
            ++ (number 28
                ++ (number 36
                    ++ (number 0
                        ++ (number 0
                            ++ (number 1
                                ++ (number 44
                                    ++ (number 1 ++ (number 46 ++ (97 ∷ 0 ∷ 65 ∷ 0 ∷ [])))))))))))

abbrev unread : MoFile
unread = record { bf = []; item = []; hash_tab = none; hash_size = 0; nitems = 0 }

abbrev one_read : MoFile
one_read = record {
  bf = one_message;
  item = record { msgctxt = none; msgid = 44; msgid_len = 2; msgstr = 46; msgstr_len = 2 } ∷ [];
  hash_tab = some [];
  hash_size = 0;
  nitems = 1;
}

read_mo_file_runs : read_mo_file unread (some one_message) ≡ ok one_read
unfolding program
read_mo_file_runs = refl

abbrev one_list : MessageList
one_list = record { item = short 97 65 ∷ []; hash_tab = some []; hash_size = 0; nitems = 1 }

message_list_runs : message_list one_read ≡ ok one_list
unfolding program
message_list_runs = refl

at_44 : HasString one_message 28 (97 ∷ [])
unfolding program
at_44 = record { place = 44; size_at = refl; place_at = refl; ends = refl; stands = refl }

at_46 : HasString one_message 36 (65 ∷ [])
unfolding program
at_46 = record { place = 46; size_at = refl; place_at = refl; ends = refl; stands = refl }

msd_gettext-read_mo_file_example :
    (m : MoFile) × (l : MessageList) × (read_mo_file unread (some one_message) ≡ ok m)
    × (message_list m ≡ ok l)
    × (msd_gettext 2 l (97 ∷ []) ≡ done (65 ∷ []))
unfolding program
msd_gettext-read_mo_file_example =
    msd_gettext-read_mo_file one_message 2 unread 28 36 0 0 ((97 ∷ [], 65 ∷ []) ∷ []) [] 97 [] refl
      refl refl refl refl (at_44, refl, at_46, tt) refl (omega arith) (tt, tt) (omega arith)
