-- ===== src/GridLayout/DragExamples.antt =====
-- A session with the splitter of a panel, a nested layout that is resized, and the theorems there.
use ministudo_guibuilder.Prelude.{
  ℕ, ◌≡◌, refl, Bool, true, false, none, some, List, [], ◌∷◌, arith, get_or, ◌==◌, if◌then◌else◌,
}
use ministudo_guibuilder.Prelude.Int.{ℤ, pos, negsuc, ◌+ℤ◌, ◌-ℤ◌, ◌*ℤ◌, ◌/ℤ◌, wrap, wrap_signed}
use ministudo_guibuilder.Prelude.Access.{ok}
use ministudo_guibuilder.GridLayout.Units.{
  LayoutUnit, is_average, wanted, granted, fix_unit, left_over, count_average, first_loop,
  share_unit, uncount_average, second_loop, spread, recalca_units, zero_unit,
}
use ministudo_guibuilder.GridLayout.State.{
  GridCell, GridLayout, zero_layout, create_grid_layout, init_grid_layout, set_unit_size,
  grid_layout_set_col_width,
}
use ministudo_guibuilder.GridLayout.Cells.{IsValid}
use ministudo_guibuilder.GridLayout.Position.{
  idx_loop, get_idx_by_pos, average_idx, idx_at, get_row_col_by_pos, get_pos_from_unit, unit_start,
  unit_size,
}
use ministudo_guibuilder.GridLayout.Visit.{
  size_at, row_size, col_size, visit_rows, visit_cols, divides_by_zero, deal_cell_with_position,
}
use ministudo_guibuilder.GridLayout.Resize.{
  World, place_grid, resize_cell, resize_cells, resize_all, place_and_resize, set_grid_layout_rect,
  move_window,
}
use ministudo_guibuilder.GridLayout.Resize.Returns.{Returns}
use ministudo_guibuilder.GridLayout.Reach.{create, next, col_width, Reach-IsValid}
use ministudo_guibuilder.GridLayout.Spliter.{
  idx_before, idx_after, dragged_unit, drag_before, drag_after, update_units, update_spliter_size,
  search_cell, get_spliter_info,
}
use ministudo_guibuilder.GridLayout.Spliter.Update.{update_units-requests}
use ministudo_guibuilder.GridLayout.Spliter.Drag.{
  button_down, Action, size_cursor, Box, fill_box, bar_box, set_capture, Drag, step, is_inner,
  dragging, idle, process_spliter, no_drag,
}
use ministudo_guibuilder.GridLayout.Spliter.Drag.Bars.{left_drawn}
use ministudo_guibuilder.GridLayout.Spliter.Drag.Sessions.{start, handle, Session-bars}

program : Unit {0}
unfolding is_average wanted granted fix_unit left_over count_average first_loop share_unit
    uncount_average second_loop spread recalca_units ◌+ℤ◌ ◌-ℤ◌ ◌*ℤ◌ ◌/ℤ◌ wrap wrap_signed
    create_grid_layout init_grid_layout set_unit_size grid_layout_set_col_width idx_loop
    get_idx_by_pos average_idx idx_at get_row_col_by_pos get_pos_from_unit unit_start unit_size
    size_at row_size col_size visit_rows visit_cols divides_by_zero deal_cell_with_position
    place_grid resize_cell resize_cells resize_all place_and_resize set_grid_layout_rect idx_before
    idx_after dragged_unit drag_before drag_after update_units update_spliter_size search_cell
    get_spliter_info is_inner bar_box dragging idle process_spliter
program = tt

abbrev unit : ℕ → ℕ → ℕ → LayoutUnit
unit kind logic now = record { kind = kind; logic_size = pos logic; current_size = now }

abbrev widths : List LayoutUnit
widths = unit 0 100 100 ∷ unit 2 0 4 ∷ unit 0 196 196 ∷ []

abbrev cell : ℕ → ℕ → GridCell
cell kind p = record { kind = kind; content = p }

abbrev panel : GridLayout
panel = record {
  x = pos 0;
  y = pos 0;
  width = 300;
  height = 200;
  row_cnt = 1;
  row_height = none;
  col_cnt = 3;
  col_width = some widths;
  cells = (cell 1 7 ∷ []) ∷ (cell 0 0 ∷ []) ∷ (cell 2 2 ∷ []) ∷ [];
}

abbrev inner : GridLayout
inner = record {
  x = pos 104;
  y = pos 0;
  width = 196;
  height = 200;
  row_cnt = 1;
  row_height = none;
  col_cnt = 1;
  col_width = none;
  cells = (cell 1 9 ∷ []) ∷ [];
}

abbrev world : World
world = record {
  grids = λ p. if p == 1 then some panel else if p == 2 then some inner else none;
  requests = [];
}

abbrev all_windows : ℕ → Bool
all_windows p = true

abbrev no_users : ℕ → Bool
no_users p = false

abbrev no_grid : ℕ → ℕ
no_grid p = 0

abbrev same : ℤ → ℤ
same z = z

-- The panel is moved down: both windows follow.
resize_runs :
    Returns
      (set_grid_layout_rect all_windows no_users 2 world 1 (pos 0) (pos 5) (pos 300) (pos 200))
      (λ w.
        w.requests
        ≡ move_window 7 (pos 0) (pos 5) (pos 100) (pos 200)
          ∷ move_window 9 (pos 104) (pos 5) (pos 196) (pos 200)
          ∷ [])
unfolding program
resize_runs = refl

update_units-requests_example :
    (vs : List LayoutUnit) × (update_units widths 1 (pos 0) 300 (pos 150)
      ≡ ok (recalca_units vs (pos 300)))
    × ((get_or vs 0 zero_unit).logic_size ≡ pos 150)
    × ((get_or vs 2 zero_unit).logic_size ≡ pos 150)
unfolding program
update_units-requests_example =
    update_units-requests widths 0 300 150 150 (pos 0) (omega arith) refl refl (omega arith)
      (omega arith) (omega arith) (omega arith) refl

abbrev two_bars : List LayoutUnit
two_bars = unit 2 0 4 ∷ unit 2 0 4 ∷ unit 0 196 196 ∷ []

only_bars : idx_before two_bars 1 ≡ negsuc 0
unfolding program
only_bars = refl

abbrev pressed : Drag
pressed = record { old_x = pos 101; old_y = pos 50; is_horz = false; spliter_idx = 1; grid = 1 }

-- Across the panel, two pixels left of the mouse.
abbrev at_mouse : Box
at_mouse = record { x = pos 99; y = pos 0; width = pos 4; height = pos 200 }

abbrev pressed_actions : List Action
pressed_actions = size_cursor false ∷ fill_box at_mouse ∷ set_capture ∷ []

press_runs :
    process_spliter all_windows no_users no_grid same same 2 world no_drag 1 button_down
      (pos 101)
      (pos 50)
    ≡ step (record { handled = true; drag = pressed; world = world; actions = pressed_actions })
unfolding program
press_runs = refl

Session-bars_example : left_drawn at_mouse pressed_actions ≡ true
unfolding program
Session-bars_example =
    Session-bars all_windows no_users no_grid same same at_mouse {d = pressed}
      {gl = some (record { x = pos 0; y = pos 0; width = pos 300; height = pos 200 })}
      {acts = pressed_actions}
      (handle 2 world 1 button_down (pos 101) (pos 50) _ start (λ e. cc e) (λ ne. absurd (ne refl))
        press_runs refl refl refl)

abbrev fresh : GridLayout
fresh = init_grid_layout zero_layout 1 3

created : create_grid_layout (pos 1) (pos 3) ≡ some fresh
unfolding program
created = refl

Reach-IsValid_example : IsValid (grid_layout_set_col_width fresh (pos 1) (pos 2) (pos 0))
Reach-IsValid_example =
    Reach-IsValid
      (next (create {g = fresh} (pos 1) (pos 3) created) (col_width (pos 1) (pos 2) (pos 0) refl))
