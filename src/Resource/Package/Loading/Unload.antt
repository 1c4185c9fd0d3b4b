-- ===== src/Resource/Package/Loading/Unload.antt =====
-- `ncsUnloadResPackage` of tools/res2c/resource.c undoes what was mapped.
use mathlib.Core.Path.{subst}
use ministudo_guibuilder.Prelude.{
  ℕ, ◌≡◌, refl, inl, inr, Bool, true, false, Option, none, some, List, [], ◌∷◌, map, ◌==◌,
  if◌then◌else◌, Bool-cases,
}
use ministudo_guibuilder.Prelude.Int.{pos, ◌-ℤ◌}
use ministudo_guibuilder.Prelude.Access.{Access, ok, fault}
use ministudo_guibuilder.Resource.Files.{MapFile, del_alllist}
use ministudo_guibuilder.Resource.Memory.{uint32_at}
use ministudo_guibuilder.Resource.Package.{
  Package, Load, done, crash, out_of_fuel, reading, header_of,
}
use ministudo_guibuilder.Resource.Package.Loading.{
  loaded, load_bytes, set_locale_info, magic_number, first_package, no_package,
  ncs_load_res_package_from_file, ncs_unload_res_package,
}

del_alllist-all : (fs : List MapFile) → del_alllist fs ≡ ([], map (λ f. f.filename_id) fs)
unfolding del_alllist
del_alllist-all [] = refl
del_alllist-all (f ∷ fs) = rw (del_alllist-all fs)

-- A result with a package has one that is used once.
abbrev UsedOnce : Load (Bool × List ℕ) → Type 0
UsedOnce (done pk (true, locale)) = pk.ref ≡ pos 1
UsedOnce (done pk (false, locale)) = Unit
UsedOnce crash = Unit
UsedOnce out_of_fuel = Unit

module _ (open_file : List ℕ → Option (List ℕ)) where
  loaded-UsedOnce : (r : Load (List ℕ)) → UsedOnce (loaded open_file r)
  loaded-UsedOnce (done pk locale) = refl
  loaded-UsedOnce crash = tt
  loaded-UsedOnce out_of_fuel = tt

  magic-UsedOnce :
      (locale : List ℕ) (fuel : ℕ) (bytes : List ℕ) (magic : Access ℕ)
      → UsedOnce (
          reading magic (λ m.
            if m == magic_number
            then loaded open_file
                (set_locale_info open_file locale fuel (first_package open_file bytes))
            else done (no_package open_file) (false, locale)))
  magic-UsedOnce locale fuel bytes fault = tt
  magic-UsedOnce locale fuel bytes (ok m) = elim (Bool-cases (m == magic_number)) [
    | inl right ↦ rw right (loaded-UsedOnce _)
    | inr wrong ↦ rw wrong tt
  ]

  load_bytes-UsedOnce :
      (locale : List ℕ) (fuel : ℕ) (bytes : Option (List ℕ))
      → UsedOnce (load_bytes open_file locale fuel bytes)
  load_bytes-UsedOnce locale fuel none = tt
  load_bytes-UsedOnce locale fuel (some bytes) =
      magic-UsedOnce locale fuel bytes (uint32_at (header_of (first_package open_file bytes)) 0)

  -- Giving back a package that has just been loaded unmaps all the files of its list, in the order of
  -- the list, and frees it.
  pub ncs_unload-ncs_load :
      (locale file_name : List ℕ) (fuel : ℕ) (pk : Package) (now : List ℕ)
      → ncs_load_res_package_from_file open_file locale fuel file_name ≡ done pk (true, now)
      → ncs_unload_res_package pk ≡ (none, map (λ f. f.filename_id) pk.head)
  unfolding ncs_load_res_package_from_file ncs_unload_res_package ◌-ℤ◌
  ncs_unload-ncs_load locale file_name fuel pk now e =
      let once : pk.ref ≡ pos 1 =
        subst UsedOnce e (load_bytes-UsedOnce locale fuel (open_file file_name)) in
      rw (once, del_alllist-all pk.head)
