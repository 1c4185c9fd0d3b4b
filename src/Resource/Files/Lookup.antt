-- ===== src/Resource/Files/Lookup.antt =====
-- Which mapped files `find_list` finds and `del_list` removes, in tools/res2c/resource.c.
use ministudo_guibuilder.Prelude.{
  ℕ, ◌≡◌, ◌≢◌, refl, ap, ◌∙◌, true, false, none, some, List, [], ◌∷◌, ◌++◌, arith, ◌==◌, All,
}
use ministudo_guibuilder.Prelude.Int.{pos}
use ministudo_guibuilder.Prelude.Access.{ok, fault}
use ministudo_guibuilder.Resource.Files.{
  MapFile, append_list, find_list, unlink, unmapped, del_list,
}

-- The file has another name.
abbrev pub Other : ℕ → MapFile → Type 0
Other id file = file.filename_id ≢ id

append_list_eq : (fs : List MapFile) (f : MapFile) → append_list fs f ≡ fs ++ f ∷ []
unfolding append_list
append_list_eq [] f = refl
append_list_eq (g ∷ fs) f = ap (◌∷◌ g) (append_list_eq fs f)

find_list-skip :
    (f g : MapFile) (fs : List MapFile) (id : ℕ)
    → Other id f
    → find_list (f ∷ g ∷ fs) id ≡ find_list (g ∷ fs) id
unfolding find_list
find_list-skip f g fs id h = rw not_it
  where
    not_it : (f.filename_id == id) ≡ false
    not_it = ground arith

-- The file that was mapped last is not found again: after `append_list`, `find_list` does not
-- return the new file if no file before it had that name.
pub find_list-append_list :
    (fs : List MapFile) (f : MapFile)
    → All (Other f.filename_id) fs
    → find_list (append_list fs f) f.filename_id ≡ none
unfolding append_list find_list
find_list-append_list [] f h = refl
find_list-append_list (g ∷ []) f h =
    find_list-skip g f [] f.filename_id h.0 ∙ find_list-append_list [] f tt
find_list-append_list (g ∷ g' ∷ fs) f h =
    find_list-skip g g' (append_list fs f) f.filename_id h.0 ∙ find_list-append_list (g' ∷ fs) f h.1

-- Once another file has been appended behind it, the first file of a name is found.
pub find_list-append_list_next :
    (fs : List MapFile) (f g : MapFile)
    → All (Other f.filename_id) fs
    → find_list (append_list (append_list fs f) g) f.filename_id ≡ some f
unfolding append_list find_list
find_list-append_list_next [] f g h = rw same
  where
    same : (f.filename_id == f.filename_id) ≡ true
    same = ground arith
find_list-append_list_next (a ∷ []) f g h =
    find_list-skip a f (g ∷ []) f.filename_id h.0 ∙ find_list-append_list_next [] f g tt
find_list-append_list_next (a ∷ b ∷ fs) f g h =
    find_list-skip a b (append_list (append_list fs f) g) f.filename_id h.0
    ∙ find_list-append_list_next (b ∷ fs) f g h.1

unlink-first :
    (fs gs : List MapFile) (f : MapFile)
    → All (Other f.filename_id) fs
    → unlink (fs ++ f ∷ gs) f.filename_id ≡ (fs ++ gs, true)
unfolding unlink
unlink-first [] gs f h = rw same
  where
    same : (f.filename_id == f.filename_id) ≡ true
    same = ground arith
unlink-first (g ∷ fs) gs f h = rw (not_it, unlink-first fs gs f h.1)
  where
    not_it : (g.filename_id == f.filename_id) ≡ false
    not_it = ground (arith, h.0)

unlink-none : (fs : List MapFile) (id : ℕ) → All (Other id) fs → unlink fs id ≡ (fs, false)
unfolding unlink
unlink-none [] id h = refl
unlink-none (g ∷ fs) id h = rw (not_it, unlink-none fs id h.1)
  where
    not_it : (g.filename_id == id) ≡ false
    not_it = ground (arith, h.0)

-- `del_list` removes the first file of a name and returns 0.
pub del_list-first :
    (fs gs : List MapFile) (f : MapFile)
    → All (Other f.filename_id) fs
    → del_list (fs ++ f ∷ gs) f.filename_id ≡ ok (pos 0, fs ++ gs)
unfolding del_list
del_list-first [] gs f h = ap unmapped (unlink-first [] gs f h)
del_list-first (g ∷ fs) gs f h = ap unmapped (unlink-first (g ∷ fs) gs f h)

-- On a list that is not empty and has no file of the name, it frees a pointer that was never
-- assigned.
pub del_list_absent :
    (f : MapFile) (fs : List MapFile) (id : ℕ)
    → All (Other id) (f ∷ fs)
    → del_list (f ∷ fs) id ≡ fault
unfolding del_list
del_list_absent f fs id h = ap unmapped (unlink-none (f ∷ fs) id h)
