-- ===== src/Resource/Package/Strings.antt =====
-- `ncsGetString` of tools/res2c/resource.c on strings that are no texts: they lie in the section of
-- type NCSRT_STRING, in the package or in a file of its own.
use ministudo_guibuilder.Prelude.{
  ℕ, zero, suc, ◌+◌, ◌≤◌, ◌<◌, ◌≡◌, ◌≢◌, refl, ap, ◌∙◌, false, Option, none, some, List, arith,
  ◌==◌,
}
use mathlib.Core.Option
use ministudo_guibuilder.Prelude.Access.{Access, ok, fault}
use ministudo_guibuilder.Resource.Files.{find_list}
use ministudo_guibuilder.Resource.Memory.{Pointer, uint32_at}
use ministudo_guibuilder.Resource.Search.{
  size_maps_at, iditem_at, search_type_item, to_item, binary_search_iditem,
}
use ministudo_guibuilder.Resource.Search.Identifiers.{IsFirst, binary_search_iditem-IsFirst}
use ministudo_guibuilder.Resource.Package.{
  Package, Load, done, out_of_fuel, then_load, reading, ncsrt_string, type_of, header_of,
  find_mmap_file, get_res_sectaddr, get_id_item, at_item, ncs_get_string,
}

module _ (open_file : List ℕ → Option (List ℕ)) (locale : List ℕ) (pk : Package) (item : Pointer)
    (string_item : search_type_item (header_of pk) ncsrt_string ≡ ok (some item)) where
  -- If the section lies in the package, it is found without a look at any string.
  get_res_sectaddr-inside :
      (get_string : Package → ℕ → Load (Option Pointer)) (offset : ℕ)
      → uint32_at item 8 ≡ ok offset
      → offset ≢ 0
      → get_res_sectaddr open_file get_string pk ncsrt_string
        ≡ done pk (some (record { bytes = pk.contents; offset = offset }))
  unfolding get_res_sectaddr
  get_res_sectaddr-inside get_string offset at ne = rw (string_item, at, not_zero)
    where
      not_zero : (offset == 0) ≡ false
      not_zero = ground arith

  get_string-inside :
      (fuel res_id offset : ℕ)
      → type_of res_id ≡ ncsrt_string
      → uint32_at item 8 ≡ ok offset
      → offset ≢ 0
      → ncs_get_string open_file locale (suc fuel) pk res_id
        ≡ reading
            (binary_search_iditem (some (record { bytes = pk.contents; offset = offset })) res_id)
            (λ found.
              at_item open_file pk (some (record { bytes = pk.contents; offset = offset }), found))
  unfolding ncs_get_string get_id_item
  get_string-inside fuel res_id offset kind at ne =
      rw (kind, get_res_sectaddr-inside (ncs_get_string open_file locale fuel) offset at ne, kind)
        (commutes
          (binary_search_iditem (some (record { bytes = pk.contents; offset = offset })) res_id))
    where
      commutes :
          (a : Access (Option Pointer))
          → then_load
              (reading a
                (λ found. done pk (some (record { bytes = pk.contents; offset = offset }), found)))
              (at_item open_file)
            ≡ reading a (λ found.
              at_item open_file pk (some (record { bytes = pk.contents; offset = offset }), found))
      commutes (ok found) = refl
      commutes fault = refl

  -- With the strings in the package and sorted by their identifiers, and items that can be read,
  -- `ncsGetString` comes to an end with one unit of fuel, opens no file, and returns where the string of
  -- the first item with the identifier begins: as far into the section as the field `offset` of the item
  -- says; or NULL if there is no such item.
  pub ncs_get_string-IsFirst :
      (fuel res_id offset n : ℕ) (ids starts : ℕ → ℕ)
      → type_of res_id ≡ ncsrt_string
      → uint32_at item 8 ≡ ok offset
      → offset ≢ 0
      → uint32_at (record { bytes = pk.contents; offset = offset }) size_maps_at ≡ ok n
      → ((i : ℕ)
          → i < n
          → uint32_at (iditem_at (record { bytes = pk.contents; offset = offset }) i) 0
            ≡ ok (ids i))
      → ((i : ℕ)
          → i < n
          → uint32_at (iditem_at (record { bytes = pk.contents; offset = offset }) i) 8
            ≡ ok (starts i))
      → ((i j : ℕ) → i ≤ j → j < n → ids i ≤ ids j)
      → (r : Option ℕ) × (ncs_get_string open_file locale (suc fuel) pk res_id
          ≡ done pk
              (Option.map (λ i. record { bytes = pk.contents; offset = offset + starts i }) r))
        × IsFirst ids n res_id r
  ncs_get_string-IsFirst fuel res_id offset n ids starts kind at ne size readable strings sorted =
      let base : Pointer = record { bytes = pk.contents; offset = offset } in
      let (r, e, first) = binary_search_iditem-IsFirst base ids n res_id size readable sorted in
      (
        r,
        get_string-inside fuel res_id offset kind at ne
            ∙ ap (λ a. reading a (λ found. at_item open_file pk (some base, found))) e
            ∙ located base r refl first,
        first,
      )
    where
      located :
          (base : Pointer) (r : Option ℕ)
          → base ≡ record { bytes = pk.contents; offset = offset }
          → IsFirst ids n res_id r
          → at_item open_file pk (some base, to_item base r)
            ≡ done pk
                (Option.map (λ i. record { bytes = pk.contents; offset = offset + starts i }) r)
      located base none is first = refl
      located base (some i) is first = rw (is, strings i first.0) refl

  -- If the section of the strings lies in a file whose name is itself such a string, and that file
  -- has not been mapped, `ncsGetString` of a string never comes to an end.
  pub ncs_get_string_endless :
      (name_id : ℕ)
      → uint32_at item 8 ≡ ok 0
      → uint32_at item 4 ≡ ok name_id
      → type_of name_id ≡ ncsrt_string
      → find_list pk.head name_id ≡ none
      → (fuel res_id : ℕ) → type_of res_id ≡ ncsrt_string
      → ncs_get_string open_file locale fuel pk res_id ≡ out_of_fuel
  unfolding ncs_get_string get_id_item get_res_sectaddr find_mmap_file
  ncs_get_string_endless name_id at0 at4 name_kind absent zero res_id kind = refl
  ncs_get_string_endless name_id at0 at4 name_kind absent (suc fuel) res_id kind = rw (
    kind,
    string_item,
    at0,
    at4,
    not_zero,
    absent,
    ncs_get_string_endless name_id at0 at4 name_kind absent fuel name_id name_kind,
  )
    where
      not_zero : (name_id == 0) ≡ false
      not_zero = ground arith
