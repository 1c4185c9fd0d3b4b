-- ===== src/Resource/Package.antt =====
-- Packages of tools/res2c/resource.c: sections, locales and strings. A section or a locale may lie
-- in a file of its own, whose name is a string of the package: the functions call one another, and
-- `ncsGetString` descends on fuel. `open_file` is what `mmap_file` has of the operating system: the
-- bytes of a file, if it can be mapped.
pub mod Strings
pub mod Loading
use ministudo_guibuilder.Prelude.{
  ℕ, zero, suc, ◌+◌, ◌-◌, ◌*◌, ◌/◌, ◌%◌, ◌^◌, Bool, true, false, not, ◌&&◌, ◌||◌, Option, none,
  some, List, [], ◌∷◌, ◌++◌, length, ltb, ◌==◌, if◌then◌else◌,
}
use ministudo_guibuilder.Prelude.Int.{ℤ, pos, ◌-ℤ◌, ltb_ℤ}
use ministudo_guibuilder.Prelude.Access.{Access, ok, fault, ◌>>=◌}
use ministudo_guibuilder.Resource.Files.{MapFile, append_list, find_list, del_alllist}
use ministudo_guibuilder.Resource.Memory.{
  Pointer, advance, byte_at, uint32_at, c_string, same_string,
}
use ministudo_guibuilder.Resource.Search.{
  sizeof_sectheader, size_maps_at, search_type_item, binary_search_iditem,
}

-- `RPINFO`; its `data` are the bytes of the first file mapped.
pub record Package : Type 0 where
  pub head : List MapFile
  pub ref : ℤ
  pub contents : List ℕ

-- A call that may map files into the package.
pub data Load (A : Type 0) : Type 0 where
  done : Package → A → Load A
  crash : Load A
  out_of_fuel : Load A

abbrev pub then_load : {A B : Type 0} → Load A → (Package → A → Load B) → Load B
then_load (done pk a) f = f pk a
then_load crash f = crash
then_load out_of_fuel f = out_of_fuel

-- A read of memory in a call.
abbrev pub reading : {A B : Type 0} → Access A → (A → Load B) → Load B
reading (ok a) f = f a
reading fault f = crash

abbrev pub ncsrt_string : ℕ
ncsrt_string = 1

abbrev pub ncsrt_text : ℕ
ncsrt_text = 2

-- `res_id >> 16`.
abbrev pub type_of : ℕ → ℕ
type_of res_id = res_id / 2 ^ 16

abbrev pub header_of : Package → Pointer
header_of pk = record { bytes = pk.contents; offset = 0 }

-- Where the items of a section's map of locales lie, and how long they are.
abbrev pub locales_of : Pointer → Pointer
locales_of sect = advance sect 16

abbrev pub sizeof_localeitem : ℕ
sizeof_localeitem = 16

-- `sprintf (cur_locale, "%s_%s", ...)` into 20 bytes.
abbrev pub joined : List ℕ → List ℕ → Access (List ℕ)
joined language country =
    if ltb (length language + length country) 19 then ok (language ++ 95 ∷ country) else fault

abbrev pub locale_name : Pointer → Access (List ℕ)
locale_name locale = do
  language ← c_string locale 0
  country ← c_string locale 4
  joined language country

-- "en_US".
abbrev pub en_locale : List ℕ
en_locale = 101 ∷ 110 ∷ 95 ∷ 85 ∷ 83 ∷ []

module _ (open_file : List ℕ → Option (List ℕ)) where
  abbrev pub map_contents : Package → ℕ → Option (List ℕ) → Load (Option Pointer)
  map_contents pk id none = done pk none
  map_contents pk id (some bytes) =
      let file : MapFile = record {
        contents = bytes;
        data_size = length bytes;
        filename_id = id;
      } in
      done (record pk { head = append_list pk.head file })
        (some (record { bytes = bytes; offset = 0 }))

  -- `mmap_file` on the string found, and `append_list`.
  abbrev pub map_file : Package → ℕ → Option Pointer → Load (Option Pointer)
  map_file pk id none = done pk none
  map_file pk id (some name) =
      reading (c_string name 0) λ file_name. map_contents pk id (open_file file_name)

  module _ (get_string : Package → ℕ → Load (Option Pointer)) where
    abbrev pub mapped_or : Package → ℕ → Option MapFile → Load (Option Pointer)
    mapped_or pk id (some file) = done pk (some (record { bytes = file.contents; offset = 0 }))
    mapped_or pk id none = then_load (get_string pk id) λ pk' name. map_file pk' id name

    unfoldable pub find_mmap_file : Package → ℕ → Load (Option Pointer)
    find_mmap_file pk id = if id == 0 then done pk none else mapped_or pk id (find_list pk.head id)

    abbrev pub sect_of_item : Package → Option Pointer → Load (Option Pointer)
    sect_of_item pk none = done pk none
    sect_of_item pk (some item) = reading (uint32_at item 8) λ offset.
        if offset == 0
        then reading (uint32_at item 4) (find_mmap_file pk)
        else done pk (some (record { bytes = pk.contents; offset = offset }))

    unfoldable pub get_res_sectaddr : Package → ℕ → Load (Option Pointer)
    get_res_sectaddr pk kind =
        reading (search_type_item (header_of pk) (kind % 2 ^ 16)) (sect_of_item pk)

    -- The section at a locale item that has been chosen.
    abbrev pub locale_sect : Package → Pointer → Pointer → Load (Option Pointer)
    locale_sect pk sect locale = reading (uint32_at locale 12) λ offset.
        if offset == 0
        then reading (uint32_at locale 8) (find_mmap_file pk)
        else done pk (some (advance sect offset))

    -- The loop, with `n` items from `locale` on.
    unfoldable pub locale_loop : ℕ → Package → Pointer → Pointer → List ℕ → Load (Option Pointer)
    locale_loop zero pk sect locale def_locale = done pk none
    locale_loop (suc n) pk sect locale def_locale =
        let next = locale_loop n pk sect (advance locale sizeof_localeitem) def_locale in
        reading (locale_name locale) λ cur_locale.
          if same_string def_locale cur_locale then locale_sect pk sect locale else next

    unfoldable pub get_locale_base_addr : Package → Pointer → List ℕ → Load (Option Pointer)
    get_locale_base_addr pk sect def_locale =
        reading (uint32_at sect size_maps_at)
          λ n. locale_loop n pk sect (locales_of sect) def_locale

    abbrev pub or_english : Pointer → Package → Option Pointer → Load (Option Pointer)
    or_english sect pk (some addr) = done pk (some addr)
    or_english sect pk none = get_locale_base_addr pk sect en_locale

    -- For texts, the section of the current locale, or that of en_US.
    abbrev pub localized : List ℕ → ℕ → Package → Option Pointer → Load (Option Pointer)
    localized locale res_id pk none = done pk none
    localized locale res_id pk (some sect) =
        if type_of res_id == ncsrt_text
        then then_load (get_locale_base_addr pk sect locale) (or_english sect)
        else done pk (some sect)

    -- The section that is searched, and the item in it.
    unfoldable pub get_id_item : List ℕ → Package → ℕ → Load (Option Pointer × Option Pointer)
    get_id_item locale pk res_id = then_load (get_res_sectaddr pk (type_of res_id)) λ pk' found.
        then_load (localized locale res_id pk' found)
          λ pk'' sect. reading (binary_search_iditem sect res_id) λ item. done pk'' (sect, item)

  abbrev pub at_item : Package → Option Pointer × Option Pointer → Load (Option Pointer)
  at_item pk (some sect, some item) =
      reading (uint32_at item 8) λ offset. done pk (some (advance sect offset))
  at_item pk (none, item) = done pk none
  at_item pk (some sect, none) = done pk none

  -- `ncsGetString` on a package, in the current locale.
  unfoldable pub ncs_get_string : List ℕ → ℕ → Package → ℕ → Load (Option Pointer)
  ncs_get_string locale zero pk res_id = out_of_fuel
  ncs_get_string locale (suc fuel) pk res_id =
      if not (type_of res_id == ncsrt_string) && not (type_of res_id == ncsrt_text)
      then done pk none
      else then_load (get_id_item (ncs_get_string locale fuel) locale pk res_id) at_item
