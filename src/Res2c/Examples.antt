-- ===== src/Res2c/Examples.antt =====
-- Names of arrays for two files.
use ministudo_guibuilder.Prelude.{ℕ, ◌≡◌, refl, Bool, ◌&&◌, ◌||◌, List, [], ◌∷◌, leb}
use ministudo_guibuilder.Prelude.Access.{ok}
use ministudo_guibuilder.Res2c.Export.{finished, from_parts, strname, add_export}

program : Unit {0}
unfolding finished from_parts strname add_export
program = tt

-- Digits and letters of ASCII.
abbrev alnum : ℕ → Bool
alnum c = (leb 48 c && leb c 57) || (leb 65 c && leb c 90) || (leb 97 c && leb c 122)

-- "a-b.png" and "res/a-b.png".
abbrev picture : List ℕ
picture = 97 ∷ 45 ∷ 98 ∷ 46 ∷ 112 ∷ 110 ∷ 103 ∷ []

abbrev in_res : List ℕ
in_res = 114 ∷ 101 ∷ 115 ∷ 47 ∷ picture

-- "_png_a_b_data".
export_runs :
    add_export alnum in_res
    ≡ ok (95 ∷ 112 ∷ 110 ∷ 103 ∷ 95 ∷ 97 ∷ 95 ∷ 98 ∷ 95 ∷ 100 ∷ 97 ∷ 116 ∷ 97 ∷ [])
unfolding program
export_runs = refl
