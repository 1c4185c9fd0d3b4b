-- ===== src/Res2c/Names.antt =====
-- Which names `add_export` of tools/res2c/res2c.c makes.
use ministudo_guibuilder.Prelude.{
  ℕ, ◌≡◌, ◌≢◌, refl, ◌⊎◌, Bool, true, false, none, some, List, [], ◌∷◌, ◌++◌, map, arith, ◌==◌,
  if◌then◌else◌, All,
}
use ministudo_guibuilder.Res2c.Export.{
  slash, underscore, split_last, last_char, data_word, cleaned, strname, add_export,
}

-- A name without the character has no last place of it.
split_last-absent : (c : ℕ) (s : List ℕ) → All (λ x. x ≢ c) s → split_last c s ≡ none
split_last-absent c [] h = refl
split_last-absent c (x ∷ s) (ne, h) = rw (split_last-absent c s h, other)
  where
    other : (x == c) ≡ false
    other = ground arith

split_last-append :
    (c : ℕ) (dir name : List ℕ)
    → All (λ x. x ≢ c) name
    → split_last c (dir ++ c ∷ name) ≡ some (dir, name)
split_last-append c [] name h = rw (split_last-absent c name h, same)
  where
    same : (c == c) ≡ true
    same = ground arith
split_last-append c (x ∷ dir) name h = rw (split_last-append c dir name h)

module _ (isalnum : ℕ → Bool) where
  -- A character that the C library takes for a letter or a digit, or the underscore.
  abbrev pub InName : ℕ → Type 0
  InName c = (isalnum c ≡ true) ⊎ (c ≡ underscore)

  -- The name for a file `stem.ext`: `_ext_stem_data`, where `_` stands for each character of the stem
  -- that is no letter or digit, and without a second `_` before `data`.
  abbrev pub array_name : List ℕ → List ℕ → List ℕ
  array_name stem ext =
      let front : List ℕ = underscore ∷ (ext ++ underscore ∷ map (cleaned isalnum) stem) in
      front ++ (if last_char front == underscore then data_word else underscore ∷ data_word)

  -- The directory of a file has no part in the name of its array: files of one name in different
  -- directories get the same array.
  pub add_export_collision :
      (dir dir' name : List ℕ)
      → All (λ x. x ≢ slash) name
      → add_export isalnum (dir ++ slash ∷ name) ≡ add_export isalnum (dir' ++ slash ∷ name)
  unfolding add_export strname
  add_export_collision dir dir' name h =
      rw (split_last-append slash dir name h, split_last-append slash dir' name h)
