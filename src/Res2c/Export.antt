-- ===== src/Res2c/Export.antt =====
-- `add_export` of tools/res2c/res2c.c: the name of the C array for a file. Strings are lists of
-- characters without the zero that ends them. `isalnum` is that of the C library.
use ministudo_guibuilder.Prelude.{
  ℕ, Bool, Option, none, some, List, [], ◌∷◌, ◌++◌, map, length, ltb, ◌==◌, if◌then◌else◌,
}
use ministudo_guibuilder.Prelude.Access.{Access, ok, fault}

abbrev pub slash : ℕ
slash = 47

abbrev pub dot : ℕ
dot = 46

abbrev pub underscore : ℕ
underscore = 95

-- One more character before the two sides.
abbrev pub extend : ℕ → ℕ → List ℕ → Option (List ℕ × List ℕ) → Option (List ℕ × List ℕ)
extend c x xs (some (before, after)) = some (x ∷ before, after)
extend c x xs none = if x == c then some ([], xs) else none

-- `strrchr`: what stands before the last `c` and what stands behind it, if there is one.
abbrev pub split_last : ℕ → List ℕ → Option (List ℕ × List ℕ)
split_last c [] = none
split_last c (x ∷ xs) = extend c x xs (split_last c xs)

abbrev pub behind : List ℕ → Option (List ℕ × List ℕ) → List ℕ
behind s none = s
behind s (some (before, after)) = after

-- `begin`.
abbrev pub base_name : List ℕ → List ℕ
base_name filename = behind filename (split_last slash filename)

-- `strname[idx-1]`; the name has a character at least.
abbrev pub last_char : List ℕ → ℕ
last_char [] = 0
last_char (c ∷ []) = c
last_char (c ∷ d ∷ cs) = last_char (d ∷ cs)

-- "data".
abbrev pub data_word : List ℕ
data_word = 100 ∷ 97 ∷ 116 ∷ 97 ∷ []

unfoldable pub finished : List ℕ → List ℕ
finished s = if last_char s == underscore then s ++ data_word else s ++ underscore ∷ data_word

module _ (isalnum : ℕ → Bool) where
  abbrev pub cleaned : ℕ → ℕ
  cleaned c = if isalnum c then c else underscore

  unfoldable pub from_parts : List ℕ → Option (List ℕ × List ℕ) → List ℕ
  from_parts base none = finished (underscore ∷ map cleaned base)
  from_parts base (some (stem, ext)) =
      finished (underscore ∷ (ext ++ underscore ∷ map cleaned stem))

  unfoldable pub strname : List ℕ → List ℕ
  strname filename = let base = base_name filename in from_parts base (split_last dot base)

  -- The buffer has 1024 bytes, one of them for the zero.
  unfoldable pub add_export : List ℕ → Access (List ℕ)
  add_export filename =
      if ltb (length (strname filename)) 1024 then ok (strname filename) else fault
