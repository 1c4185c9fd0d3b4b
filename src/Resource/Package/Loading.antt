-- ===== src/Resource/Package/Loading.antt =====
-- Loading a package and giving it back, in tools/res2c/resource.c: `ncsLoadResPackageFromFile`, the
-- default locale that it sets, and `ncsUnloadResPackage`.
pub mod Unload
use ministudo_guibuilder.Prelude.{
  ℕ, zero, suc, ◌+◌, ◌-◌, ◌*◌, ◌/◌, ◌%◌, ◌^◌, Bool, true, false, not, ◌&&◌, ◌||◌, Option, none,
  some, List, [], ◌∷◌, ◌++◌, length, ltb, ◌==◌, if◌then◌else◌,
}
use ministudo_guibuilder.Prelude.Int.{ℤ, pos, ◌-ℤ◌, ltb_ℤ}
use ministudo_guibuilder.Prelude.Access.{Access, ok, fault, ◌>>=◌}
use ministudo_guibuilder.Resource.Files.{MapFile, append_list, find_list, del_alllist}
use ministudo_guibuilder.Resource.Memory.{
  Pointer, advance, byte_at, uint32_at, c_string, same_string,
}
use ministudo_guibuilder.Resource.Search.{
  sizeof_sectheader, size_maps_at, search_type_item, binary_search_iditem,
}
use ministudo_guibuilder.Resource.Package.{
  Package, Load, done, crash, out_of_fuel, then_load, reading, ncsrt_text, header_of,
  get_res_sectaddr, ncs_get_string,
}

-- "MGRP", as in the code: 0x4d475250.
abbrev pub magic_number : ℕ
magic_number = 1296519760

module _ (open_file : List ℕ → Option (List ℕ)) where
  -- `ncsSetDefaultLocale` into the 8 bytes of `gLocaleValue`.
  abbrev pub set_default_locale : List ℕ → List ℕ → Access (List ℕ)
  set_default_locale language country =
      if ltb (length language + length country) 7 then ok (language ++ 95 ∷ country) else fault

  abbrev pub default_locale : List ℕ → Pointer → Access (List ℕ)
  default_locale locale info = byte_at info 0 >>= λ l.
      if l == 0
      then ok locale
      else (byte_at info 4 >>= λ c.
          if c == 0
          then ok locale
          else (c_string info 0 >>= λ language. c_string info 4 >>= set_default_locale language))

  -- `_set_locale_info`: the new value of `gLocaleValue`.
  unfoldable pub set_locale_info : List ℕ → ℕ → Package → Load (List ℕ)
  set_locale_info locale fuel pk =
      then_load (get_res_sectaddr open_file (ncs_get_string open_file locale fuel) pk ncsrt_text)
        λ pk' found. elim found [
          | none ↦ done pk' locale
          | some sect ↦ reading (default_locale locale (advance sect sizeof_sectheader)) (done pk')
        ]

  -- `package->ref = 1` at the end.
  abbrev pub loaded : Load (List ℕ) → Load (Bool × List ℕ)
  loaded (done pk locale) = done (record pk { ref = pos 1 }) (true, locale)
  loaded crash = crash
  loaded out_of_fuel = out_of_fuel

  abbrev pub first_package : List ℕ → Package
  first_package bytes =
      let file : MapFile = record {
        contents = bytes;
        data_size = length bytes;
        filename_id = 2 ^ 32 - 1;
      } in
      record { head = append_list [] file; ref = pos 0; contents = bytes }

  abbrev pub no_package : Package
  no_package = record { head = []; ref = pos 0; contents = [] }

  abbrev pub load_bytes : List ℕ → ℕ → Option (List ℕ) → Load (Bool × List ℕ)
  load_bytes locale fuel none = done no_package (false, locale)
  load_bytes locale fuel (some bytes) =
      reading (uint32_at (header_of (first_package bytes)) 0) λ magic.
        if magic == magic_number
        then loaded (set_locale_info locale fuel (first_package bytes))
        else done no_package (false, locale)

  -- `ncsLoadResPackageFromFile`: whether there is a package, and the new `gLocaleValue`. The branch
  -- for a wrong `magic` gives the package back.
  unfoldable pub ncs_load_res_package_from_file : List ℕ → ℕ → List ℕ → Load (Bool × List ℕ)
  ncs_load_res_package_from_file locale fuel file_name =
      load_bytes locale fuel (open_file file_name)

-- `ncsUnloadResPackage`: the package, if it is still in use, and the files that are unmapped.
unfoldable pub ncs_unload_res_package : Package → Option Package × List ℕ
ncs_unload_res_package pk =
    let ref = pk.ref -ℤ pos 1 in
    if ltb_ℤ (pos 0) ref
    then (some (record pk { ref = ref }), [])
    else (none, (del_alllist pk.head).1)
