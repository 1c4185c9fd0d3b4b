-- ===== src/Resource/Files.antt =====
-- The list of mapped files of a package in tools/res2c/resource.c. The C list is linked both ways;
-- the links back are written and never read.
pub mod Lookup
use ministudo_guibuilder.Prelude.{
  ℕ, ◌≡◌, Bool, true, false, Option, none, some, List, [], ◌∷◌, ◌++◌, ◌==◌, if◌then◌else◌,
}
use ministudo_guibuilder.Prelude.Int.{ℤ, pos, negsuc}
use ministudo_guibuilder.Prelude.Access.{Access, ok, fault}

-- `MAPFILELIST`: the bytes mapped and the identifier of the file's name.
pub record MapFile : Type 0 where
  pub contents : List ℕ
  pub data_size : ℕ
  pub filename_id : ℕ

unfoldable pub append_list : List MapFile → MapFile → List MapFile
append_list [] file = file ∷ []
append_list (first ∷ rest) file = first ∷ append_list rest file

-- `while(first->next)`: the loop is left before the last file is looked at.
unfoldable pub find_list : List MapFile → ℕ → Option MapFile
find_list [] id = none
find_list (last ∷ []) id = none
find_list (first ∷ next ∷ rest) id =
    if first.filename_id == id then some first else find_list (next ∷ rest) id

-- The list without the first file of a name, and whether there was one.
unfoldable pub unlink : List MapFile → ℕ → List MapFile × Bool
unlink [] id = ([], false)
unlink (first ∷ rest) id =
    let r = unlink rest id in if first.filename_id == id then (rest, true) else (first ∷ r.0, r.1)

-- What follows the search in `del_list`. TRUE and FALSE are both 0 in resource.h, so the branch
-- that unmaps and frees `list` is always taken, also when `list` was never assigned.
abbrev pub unmapped : List MapFile × Bool → Access (ℤ × List MapFile)
unmapped (files, true) = ok (pos 0, files)
unmapped (files, false) = fault

-- 0 if a file was removed, -1 if there is none at all.
unfoldable pub del_list : List MapFile → ℕ → Access (ℤ × List MapFile)
del_list [] id = ok (negsuc 0, [])
del_list (first ∷ rest) id = unmapped (unlink (first ∷ rest) id)

-- The list and the files that are unmapped, in order.
unfoldable pub del_alllist : List MapFile → List MapFile × List ℕ
del_alllist [] = ([], [])
del_alllist (first ∷ rest) = ([], first.filename_id ∷ (del_alllist rest).1)
