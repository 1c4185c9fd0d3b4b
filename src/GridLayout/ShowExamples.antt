-- ===== src/GridLayout/ShowExamples.antt =====
-- A layout with a window and a user cell, shown and hidden.
use ministudo_guibuilder.Prelude.{
  ℕ, zero, suc, ◌≡◌, refl, inr, Bool, true, Option, none, some, List, [], ◌∷◌, ◌==◌, if◌then◌else◌,
}
use ministudo_guibuilder.Prelude.Int.{pos}
use ministudo_guibuilder.GridLayout.State.{GridCell, GridLayout, gct_grid}
use ministudo_guibuilder.GridLayout.Visit.{enum_cols, enum_rows, enum_all_cell_objs}
use ministudo_guibuilder.GridLayout.Visit.InRange.{cell_of}
use ministudo_guibuilder.GridLayout.Cells.{IsValid}
use ministudo_guibuilder.GridLayout.Show.{
  ShowRequest, show_window, show_user, done, gridlayout_show, show_cells, grid_layout_show,
}
use ministudo_guibuilder.GridLayout.Show.Objects.{grid_layout_show-Ends}

program : Unit {0}
unfolding enum_cols enum_rows enum_all_cell_objs gridlayout_show show_cells grid_layout_show
program = tt

abbrev cell : ℕ → ℕ → GridCell
cell kind p = record { kind = kind; content = p }

abbrev pair : GridLayout
pair = record {
  x = pos 0;
  y = pos 0;
  width = 100;
  height = 20;
  row_cnt = 1;
  row_height = none;
  col_cnt = 3;
  col_width = none;
  cells = (cell 1 7 ∷ []) ∷ (cell 0 0 ∷ []) ∷ (cell 3 8 ∷ []) ∷ [];
}

abbrev grids : ℕ → Option GridLayout
grids p = if p == 1 then some pair else none

abbrev every : ℕ → Bool
every p = true

-- The empty cell between the two is passed over.
show_runs :
    grid_layout_show every true 1 grids 1 ≡ done (show_window 7 true ∷ show_user 8 true ∷ [])
unfolding program
show_runs = refl

pair-IsValid : IsValid pair
pair-IsValid = record {
  columns = refl;
  column_lengths = (refl, (refl, (refl, tt)));
  row_units = tt;
  col_units = tt;
}

no_nested : (c r : ℕ) → (cell_of pair r c).kind ≡ gct_grid → (cell_of pair r c).content ≡ 0
unfolding program
no_nested zero zero e = absurd (cc e)
no_nested zero (suc r) e = refl
no_nested (suc zero) zero e = refl
no_nested (suc zero) (suc r) e = refl
no_nested (suc (suc zero)) zero e = absurd (cc e)
no_nested (suc (suc zero)) (suc r) e = refl
no_nested (suc (suc (suc c))) zero e = refl
no_nested (suc (suc (suc c))) (suc r) e = refl

grid_layout_show-Ends_example :
    (acts : List ShowRequest) × (grid_layout_show every true 2 grids 1 ≡ done acts)
grid_layout_show-Ends_example =
    grid_layout_show-Ends every true 1 grids 1
      (inr (pair, refl, pair-IsValid, λ r c. no_nested c r))
