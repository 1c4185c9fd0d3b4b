-- ===== src/GridLayout/Examples.antt =====
-- A panel with a column of 100 pixels, a splitter and a column that takes the rest, and runs of
-- the code on it; the theorems at concrete layouts.
use ministudo_guibuilder.Prelude.{
  ℕ, ◌+◌, ◌≤◌, ◌<◌, ◌≡◌, refl, false, none, some, List, [], ◌∷◌, arith, length, ltb, All, ◌&&◌,
}
use ministudo_guibuilder.Prelude.Int.{pos, ◌+ℤ◌, ◌-ℤ◌, ◌*ℤ◌, ◌/ℤ◌, wrap, wrap_signed}
use ministudo_guibuilder.Prelude.Access.{ok, fault, Ensures}
use ministudo_guibuilder.GridLayout.Units.{
  LayoutUnit, is_average, wanted, granted, fix_unit, left_over, count_average, first_loop,
  share_unit, uncount_average, second_loop, spread, recalca_units,
}
use ministudo_guibuilder.GridLayout.Units.Bounds.{total, fixed_total, averages}
use ministudo_guibuilder.GridLayout.Units.Sums.{recalca_units-fixed_total-le, recalca_units-fills}
use ministudo_guibuilder.GridLayout.Units.Twice.{recalca_units-twice}
use ministudo_guibuilder.GridLayout.State.{
  GridCell, GridLayout, create_grid_layout, init_grid_layout, set_unit_size,
  grid_layout_set_col_width, out_of_grid, refuses, grid_layout_get_cell, grid_layout_set_cell,
}
use ministudo_guibuilder.GridLayout.Cells.{IsValid}
use ministudo_guibuilder.GridLayout.Cells.Contents.{set_cell-get_cell, get_cell_unguarded}
use ministudo_guibuilder.GridLayout.Position.{
  idx_loop, get_idx_by_pos, average_idx, idx_at, get_row_col_by_pos, grid_layout_hit,
  is_in_gridlayout, get_pos_from_unit, unit_start, unit_size, grid_layout_get_cell_rect,
  get_hitted_grid_center_pos,
}
use ministudo_guibuilder.GridLayout.Position.Rects.{grid_layout_hit-cell_rect}
use ministudo_guibuilder.GridLayout.Visit.{
  Visit, size_at, row_size, col_size, visit_rows, visit_cols, divides_by_zero,
  deal_cell_with_position,
}
use ministudo_guibuilder.GridLayout.Visit.Places.{Placed, deal_cell_with_position-Placed}
use ministudo_guibuilder.GridLayout.Visit.Once.{times, bit, is_open, deal_cell_with_position-once}

-- The definitions that the runs compute with.
program : Unit {0}
unfolding is_average wanted granted fix_unit left_over count_average first_loop share_unit
    uncount_average second_loop spread recalca_units ◌+ℤ◌ ◌-ℤ◌ ◌*ℤ◌ ◌/ℤ◌ wrap wrap_signed
    create_grid_layout init_grid_layout set_unit_size grid_layout_set_col_width out_of_grid refuses
    grid_layout_get_cell grid_layout_set_cell idx_loop get_idx_by_pos average_idx idx_at
    get_row_col_by_pos grid_layout_hit is_in_gridlayout get_pos_from_unit unit_start unit_size
    grid_layout_get_cell_rect get_hitted_grid_center_pos size_at row_size col_size visit_rows
    visit_cols divides_by_zero deal_cell_with_position
program = tt

abbrev unit : ℕ → ℕ → ℕ → LayoutUnit
unit kind logic now = record { kind = kind; logic_size = pos logic; current_size = now }

abbrev widths : List LayoutUnit
widths = unit 0 100 100 ∷ unit 2 0 4 ∷ unit 0 0 196 ∷ []

abbrev heights : List LayoutUnit
heights = unit 0 0 200 ∷ []

abbrev cell : ℕ → ℕ → GridCell
cell kind p = record { kind = kind; content = p }

abbrev panel : GridLayout
panel = record {
  x = pos 10;
  y = pos 20;
  width = 300;
  height = 200;
  row_cnt = 1;
  row_height = some heights;
  col_cnt = 3;
  col_width = some widths;
  cells = (cell 1 7 ∷ []) ∷ (cell 0 0 ∷ []) ∷ (cell 1 8 ∷ []) ∷ [];
}

abbrev plain : GridLayout
plain = record panel { row_height = none; col_width = none }

panel-IsValid : IsValid panel
panel-IsValid = record {
  columns = refl;
  column_lengths = (refl, (refl, (refl, tt)));
  row_units = refl;
  col_units = refl;
}

plain-IsValid : IsValid plain
plain-IsValid = record {
  columns = refl;
  column_lengths = (refl, (refl, (refl, tt)));
  row_units = tt;
  col_units = tt;
}

recalca_runs : recalca_units (unit 0 100 0 ∷ unit 2 0 0 ∷ unit 0 0 0 ∷ []) (pos 300) ≡ widths
unfolding program
recalca_runs = refl

-- Half of a width of 300, then a third of what two averages share.
percent_runs :
    recalca_units (unit 1 50 0 ∷ unit 0 0 0 ∷ unit 0 0 0 ∷ []) (pos 300)
    ≡ unit 1 50 150 ∷ unit 0 0 75 ∷ unit 0 0 75 ∷ []
unfolding program
percent_runs = refl

visits_run : Ensures (deal_cell_with_position panel) (λ vs. length vs ≡ 2)
unfolding program
visits_run = refl

recalca_units-fixed_total-le_example : fixed_total (recalca_units widths (pos 50)) ≤ 50
recalca_units-fixed_total-le_example = recalca_units-fixed_total-le widths 50 (omega arith)

recalca_units-fills_example :
    (total (recalca_units widths (pos 300)) ≤ 300)
    × (300 < total (recalca_units widths (pos 300)) + averages widths)
unfolding program
recalca_units-fills_example =
    recalca_units-fills widths 300 (omega arith) (omega arith) (omega arith) (omega arith)

recalca_units-twice_example :
    recalca_units (recalca_units widths (pos 301)) (pos 301) ≡ recalca_units widths (pos 301)
recalca_units-twice_example = recalca_units-twice widths (pos 301)

set_cell-get_cell_example :
    (old : ℕ) × (g' : GridLayout) × (grid_layout_get_cell panel (pos 0) (pos 2) ≡ ok old)
    × (grid_layout_set_cell panel (pos 0) (pos 2) (pos 1) 9 ≡ ok (old, g'))
    × (grid_layout_get_cell g' (pos 0) (pos 2) ≡ ok 9)
set_cell-get_cell_example =
    set_cell-get_cell panel 0 2 1 9 panel-IsValid (omega arith) (omega arith) refl refl
      (omega arith) (omega arith)

abbrev panel_after : GridLayout
panel_after = record panel { cells = (cell 1 7 ∷ []) ∷ (cell 0 0 ∷ []) ∷ (cell 1 9 ∷ []) ∷ [] }

set_runs : grid_layout_set_cell panel (pos 0) (pos 2) (pos 1) 9 ≡ ok (8, panel_after)
unfolding program
set_runs = refl

get_cell_unguarded_example :
    (grid_layout_get_cell plain (pos 0) (pos 3) ≡ fault)
    × (grid_layout_set_cell plain (pos 0) (pos 3) (pos 1) 5 ≡ fault)
get_cell_unguarded_example =
    get_cell_unguarded plain (pos 0) 3 5 1 plain-IsValid refl refl (omega arith) (omega arith)
      (omega arith)

grid_layout_hit-cell_rect_example : grid_layout_hit panel (pos 200) (pos 100) ≡ ok (some (0, 2))
unfolding program
grid_layout_hit-cell_rect_example =
    grid_layout_hit-cell_rect panel 0 2 (pos 200) (pos 100) panel-IsValid (omega arith)
      (omega arith) (omega arith) (omega arith) (omega arith) (omega arith)

divides : divides_by_zero panel ≡ false
unfolding program
divides = refl

deal_cell_with_position-Placed_example :
    (vs : List Visit) × (deal_cell_with_position panel ≡ ok vs)
    × All (Placed panel panel-IsValid) vs
deal_cell_with_position-Placed_example = deal_cell_with_position-Placed panel panel-IsValid divides

deal_cell_with_position-once_example :
    (vs : List Visit) × (deal_cell_with_position panel ≡ ok vs)
    × (times 0 1 vs ≡ bit (ltb 1 3 && ltb 0 1 && is_open panel 0 1))
deal_cell_with_position-once_example = deal_cell_with_position-once panel 0 1 panel-IsValid divides
