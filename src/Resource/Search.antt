-- ===== src/Resource/Search.antt =====
-- The two searches of tools/res2c/resource.c in mapped memory: `search_type_item` through the
-- sections of a package, and `binary_search_iditem` through the identifiers of a section.
pub mod Types
pub mod Identifiers
use ministudo_guibuilder.Prelude.{
  ℕ, zero, suc, ◌+◌, ◌*◌, ◌/◌, ◌%◌, Bool, true, false, ◌&&◌, ◌||◌, Option, none, some, List, length,
  ltb, ◌==◌, if◌then◌else◌,
}
use ministudo_guibuilder.Prelude.Access.{Access, ok, fault, ◌>>=◌}
use ministudo_guibuilder.Resource.Memory.{Pointer, advance, uint32_at}

-- `a & b`, for the lowest `width` bits: whether it is not 0.
abbrev pub shares_bit : ℕ → ℕ → ℕ → Bool
shares_bit zero a b = false
shares_bit (suc width) a b = (a % 2 == 1 && b % 2 == 1) || shares_bit width (a / 2) (b / 2)

-- `sizeof` of the structures, and where their fields lie.
abbrev pub sizeof_header : ℕ
sizeof_header = 48

abbrev pub nr_sect_at : ℕ
nr_sect_at = 44

abbrev pub sizeof_typeitem : ℕ
sizeof_typeitem = 12

abbrev pub sizeof_sectheader : ℕ
sizeof_sectheader = 8

abbrev pub size_maps_at : ℕ
size_maps_at = 4

abbrev pub sizeof_iditem : ℕ
sizeof_iditem = 12

abbrev pub typeitem_at : Pointer → ℕ → Pointer
typeitem_at header k = advance header (sizeof_header + sizeof_typeitem * k)

-- The loop from item `k` on. Its counter stays 0, so only a match or a read out of bounds ends it;
-- on fuel, which the bytes to come bound.
unfoldable pub search_items : ℕ → Pointer → ℕ → ℕ → Access (Option Pointer)
search_items zero header kind k = fault
search_items (suc fuel) header kind k =
    let next = search_items fuel header kind (k + 1) in
    uint32_at (typeitem_at header k) 0 >>= λ item_type.
    if shares_bit 16 kind item_type then ok (some (typeitem_at header k)) else next

unfoldable pub search_type_item : Pointer → ℕ → Access (Option Pointer)
search_type_item header kind = do
  nr_sect ← uint32_at header nr_sect_at
  if ltb 0 nr_sect then search_items (length header.bytes) header kind 0 else ok none

abbrev pub iditem_at : Pointer → ℕ → Pointer
iditem_at base k = advance base (sizeof_sectheader + sizeof_iditem * k)

-- The loop over `low` and `high`, with fuel for their distance.
unfoldable pub search_loop : (ℕ → Access ℕ) → ℕ → ℕ → ℕ → ℕ → Access ℕ
search_loop id_at key zero low high = fault
search_loop id_at key (suc fuel) low high =
    let mid = (low + high) / 2 in
    if ltb low high
    then (id_at mid >>= λ id.
        search_loop id_at key fuel (if ltb id key then mid + 1 else low)
          (if ltb id key then high else mid))
    else ok low

-- Behind the loop: whether the item at `low` is there and is the one.
unfoldable pub check_found : (ℕ → Access ℕ) → ℕ → ℕ → ℕ → Access (Option ℕ)
check_found id_at key size low =
    if ltb low size
    then (id_at low >>= λ id. ok (if id == key then some low else none))
    else ok none

unfoldable pub search_index : (ℕ → Access ℕ) → ℕ → ℕ → Access (Option ℕ)
search_index id_at size key = search_loop id_at key (suc size) 0 size >>= check_found id_at key size

abbrev pub to_item : Pointer → Option ℕ → Option Pointer
to_item base none = none
to_item base (some k) = some (iditem_at base k)

unfoldable pub binary_search_iditem : Option Pointer → ℕ → Access (Option Pointer)
binary_search_iditem none res_id = ok none
binary_search_iditem (some base) res_id = do
  size_maps ← uint32_at base size_maps_at
  k ← search_index (λ i. uint32_at (iditem_at base i) 0) size_maps res_id
  ok (to_item base k)
