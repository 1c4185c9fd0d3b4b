-- ===== src/Resource/Examples.antt =====
-- A package with two strings, runs of the code on it, and the theorems at concrete packages.
use ministudo_guibuilder.Prelude.{
  ◌+◌, true, ℕ, zero, suc, ◌≤◌, ◌<◌, ◌≡◌, refl, Option, none, some, List, [], ◌∷◌, ◌++◌, arith,
  replicate,
}
use ministudo_guibuilder.Prelude.Int.{pos}
use mathlib.Core.Option
use ministudo_guibuilder.Prelude.Access.{ok}
use ministudo_guibuilder.Resource.Files.{MapFile, append_list, find_list, unlink, del_list}
use ministudo_guibuilder.Resource.Memory.{Pointer, uint32_at}
use ministudo_guibuilder.Resource.Search.{
  search_items, search_type_item, typeitem_at, iditem_at, search_loop, check_found, search_index,
  binary_search_iditem, to_item,
}
use ministudo_guibuilder.Resource.Search.Identifiers.{IsFirst, binary_search_iditem-IsFirst}
use ministudo_guibuilder.Resource.Package.{
  Package, done, out_of_fuel, header_of, find_mmap_file, get_res_sectaddr, get_id_item,
  ncs_get_string, locale_loop, get_locale_base_addr, en_locale,
}
use ministudo_guibuilder.Resource.Package.Strings.{ncs_get_string-IsFirst, ncs_get_string_endless}
use ministudo_guibuilder.Resource.Package.Loading.{set_locale_info, ncs_load_res_package_from_file}

program : Unit {0}
unfolding append_list find_list unlink del_list uint32_at search_items search_type_item search_loop
    check_found search_index binary_search_iditem find_mmap_file get_res_sectaddr get_id_item
    ncs_get_string locale_loop get_locale_base_addr set_locale_info ncs_load_res_package_from_file
program = tt

abbrev file : ℕ → MapFile
file id = record { contents = []; data_size = 0; filename_id = id }

-- A number of four bytes whose upper half is small.
abbrev uint32 : ℕ → ℕ → List ℕ
uint32 low high = low ∷ 0 ∷ high ∷ 0 ∷ []

-- The strings "hi" with identifier 0x10001 and "yo" with 0x10002.
abbrev strings : List ℕ
strings =
    uint32 0 0
    ++ uint32 2 0
    ++ uint32 1 1
    ++ uint32 0 0
    ++ uint32 32 0
    ++ uint32 2 1
    ++ uint32 0 0
    ++ uint32 35 0
    ++ 104 ∷ 105 ∷ 0 ∷ 121 ∷ 111 ∷ 0 ∷ []

-- A header for one section, of strings, at `offset` or in the file with the name `name`.
abbrev header : ℕ → ℕ → List ℕ
header name offset =
    80 ∷ 82 ∷ 71 ∷ 77 ∷ replicate 40 0
    ++ uint32 1 0
    ++ uint32 1 0
    ++ uint32 name name
    ++ uint32 offset 0

abbrev words : Package
words = record { head = []; ref = pos 1; contents = header 0 60 ++ strings }

abbrev no_file : List ℕ → Option (List ℕ)
no_file name = none

-- The second string is "yo", 95 bytes from the beginning.
second_string :
    ncs_get_string no_file en_locale 1 words 65538
    ≡ done words (some (record { bytes = words.contents; offset = 95 }))
unfolding program
second_string = refl

no_third_string : ncs_get_string no_file en_locale 1 words 65539 ≡ done words none
unfolding program
no_third_string = refl

abbrev section : Pointer
section = record { bytes = words.contents; offset = 60 }

abbrev ids : ℕ → ℕ
ids zero = 65537
ids (suc i) = 65538

ids_readable : (i : ℕ) → i < 2 → uint32_at (iditem_at section i) 0 ≡ ok (ids i)
unfolding program
ids_readable zero h = refl
ids_readable (suc zero) h = refl
ids_readable (suc (suc i)) h = absurd (omega arith)

abbrev starts : ℕ → ℕ
starts zero = 32
starts (suc i) = 35

starts_readable : (i : ℕ) → i < 2 → uint32_at (iditem_at section i) 8 ≡ ok (starts i)
unfolding program
starts_readable zero h = refl
starts_readable (suc zero) h = refl
starts_readable (suc (suc i)) h = absurd (omega arith)

ids_sorted : (i j : ℕ) → i ≤ j → j < 2 → ids i ≤ ids j
ids_sorted zero zero h k = omega arith
ids_sorted zero (suc j) h k = omega arith
ids_sorted (suc i) zero h k = absurd (omega arith)
ids_sorted (suc i) (suc j) h k = omega arith

section_size : uint32_at section 4 ≡ ok 2
unfolding program
section_size = refl

binary_search_iditem-IsFirst_example :
    (r : Option ℕ) × (binary_search_iditem (some section) 65538 ≡ ok (to_item section r))
    × IsFirst ids 2 65538 r
binary_search_iditem-IsFirst_example =
    binary_search_iditem-IsFirst section ids 2 65538 section_size ids_readable ids_sorted

one_section : uint32_at (header_of words) 44 ≡ ok 1
unfolding program
one_section = refl

abbrev types : ℕ → ℕ
types i = 1

types_readable : (i : ℕ) → i ≤ 0 → uint32_at (typeitem_at (header_of words) i) 0 ≡ ok (types i)
unfolding program
types_readable zero h = refl
types_readable (suc i) h = absurd (omega arith)

string_item : search_type_item (header_of words) 1 ≡ ok (some (typeitem_at (header_of words) 0))
unfolding program
string_item = refl

string_offset : uint32_at (typeitem_at (header_of words) 0) 8 ≡ ok 60
unfolding program
string_offset = refl

ncs_get_string-IsFirst_example :
    (r : Option ℕ) × (ncs_get_string no_file en_locale 1 words 65538
      ≡ done words (Option.map (λ i. record { bytes = words.contents; offset = 60 + starts i }) r))
    × IsFirst ids 2 65538 r
ncs_get_string-IsFirst_example =
    ncs_get_string-IsFirst no_file en_locale words (typeitem_at (header_of words) 0) string_item 0
      65538 60 2 ids starts refl string_offset (omega arith) section_size ids_readable
      starts_readable ids_sorted

-- Its strings are said to lie in the file whose name is string 0x10001.
abbrev outside : Package
outside = record { head = []; ref = pos 1; contents = header 1 0 }

outside_item :
    search_type_item (header_of outside) 1 ≡ ok (some (typeitem_at (header_of outside) 0))
unfolding program
outside_item = refl

outside_offset : uint32_at (typeitem_at (header_of outside) 0) 8 ≡ ok 0
unfolding program
outside_offset = refl

outside_name : uint32_at (typeitem_at (header_of outside) 0) 4 ≡ ok 65537
unfolding program
outside_name = refl

none_mapped : find_list [] 65537 ≡ none
unfolding program
none_mapped = refl

ncs_get_string_endless_example : ncs_get_string no_file en_locale 1000 outside 65538 ≡ out_of_fuel
ncs_get_string_endless_example =
    ncs_get_string_endless no_file en_locale outside (typeitem_at (header_of outside) 0)
      outside_item 65537 outside_offset outside_name refl none_mapped 1000 65538 refl

-- One section of both strings and texts, and no default locale.
abbrev bilingual : List ℕ
bilingual =
    80 ∷ 82 ∷ 71 ∷ 77 ∷ replicate 40 0
    ++ uint32 1 0
    ++ uint32 3 0
    ++ uint32 0 0
    ++ uint32 60 0
    ++ strings

abbrev only_file : List ℕ → Option (List ℕ)
only_file name = some bilingual

abbrev in_use : Package
in_use = record {
  head = record { contents = bilingual; data_size = 98; filename_id = 4294967295 } ∷ [];
  ref = pos 1;
  contents = bilingual;
}

load_runs : ncs_load_res_package_from_file only_file en_locale 1 [] ≡ done in_use (true, en_locale)
unfolding program
load_runs = refl
