-- ===== src/GridLayout/Position/Edges.antt =====
-- The left edge of a layout whose columns have a table of widths.
use ministudo_guibuilder.Prelude.{◌≡◌, ap, true, false, ◌&&◌, none, some, List, arith}
use ministudo_guibuilder.Prelude.Int.{ℤ, negsuc, ◌-ℤ◌, -ℤ_parts}
use ministudo_guibuilder.Prelude.Access.{ok, fault}
use ministudo_guibuilder.GridLayout.Units.{LayoutUnit}
use ministudo_guibuilder.GridLayout.State.{GridLayout}
use ministudo_guibuilder.GridLayout.Position.{
  get_idx_by_pos, idx_at, in_range, get_row_col_by_pos, grid_layout_hit, is_in_gridlayout,
  center_of, grid_layout_get_cell_rect, get_hitted_grid_center_pos,
}
use ministudo_guibuilder.GridLayout.Position.Index.{get_idx_by_pos-le-zero}

no_rect : (g : GridLayout) (row : ℤ) → grid_layout_get_cell_rect g row (negsuc 0) ≡ none
unfolding grid_layout_get_cell_rect
no_rect g row = ground arith

module _ (g : GridLayout) (y : ℤ) (widths heights : List LayoutUnit)
    (tabled : g.col_width ≡ some widths) (rows_tabled : g.row_height ≡ some heights) where
  edge_row_col :
      get_row_col_by_pos g g.x y
      ≡ ok (
        in_range (get_idx_by_pos heights (y -ℤ g.y)) g.row_cnt && false,
        get_idx_by_pos heights (y -ℤ g.y),
        negsuc 0,
      )
  unfolding get_row_col_by_pos idx_at
  edge_row_col =
      rw (rows_tabled, tabled, get_idx_by_pos-le-zero widths (g.x -ℤ g.x) (omega (arith, -ℤ_parts)))

  -- On the left edge no cell is hit.
  pub grid_layout_hit_edge : grid_layout_hit g g.x y ≡ ok none
  unfolding grid_layout_hit
  grid_layout_hit_edge = rw edge_row_col

  -- Yet a point of the left edge may lie in the layout, and then `GetHittedGridCenterPos` computes
  -- the centre of a rectangle that it has not been given.
  pub center_pos_edge : is_in_gridlayout g.x y g ≡ true → get_hitted_grid_center_pos g g.x y ≡ fault
  unfolding get_hitted_grid_center_pos
  center_pos_edge inside =
      rw (inside, edge_row_col) (ap center_of (no_rect g (get_idx_by_pos heights (y -ℤ g.y))))
