-- ===== src/GridLayout/Position.antt =====
-- Points and cells of a grid: the functions of mgfc/gridlayout.c that find the cell at a point and
-- the rectangle of a cell.
pub mod Index
pub mod Rects
pub mod Edges
use ministudo_guibuilder.Prelude.{
  ℕ, zero, suc, ◌+◌, ◌*◌, ◌/◌, Bool, true, false, not, ◌&&◌, ◌||◌, Option, none, some, List, [],
  ◌∷◌, ◌==◌, if◌then◌else◌, get_or,
}
use ministudo_guibuilder.Prelude.Int.{ℤ, pos, negsuc, pos_part, ◌+ℤ◌, ◌-ℤ◌, ◌/ℤ◌, ltb_ℤ, leb_ℤ}
use ministudo_guibuilder.Prelude.Access.{Access, ok, fault, ◌>>=◌}
use ministudo_guibuilder.GridLayout.Units.{LayoutUnit, zero_unit}
use ministudo_guibuilder.GridLayout.State.{GridLayout, grid_layout_remove}

-- The loop of `get_idx_by_pos` at index `i`, and the value returned after it.
unfoldable pub idx_loop : List LayoutUnit → ℤ → ℕ → ℕ → ℤ
idx_loop [] at i w = if ltb_ℤ (pos w) at then negsuc 0 else pos i -ℤ pos 1
idx_loop (u ∷ us) at i w =
    let later = idx_loop us at (i + 1) (w + u.current_size) in
    if ltb_ℤ (pos w) at then later else pos i -ℤ pos 1

unfoldable pub get_idx_by_pos : List LayoutUnit → ℤ → ℤ
get_idx_by_pos units at = idx_loop units at 0 0

-- `pos / (extent / cnt)`, where either division may be by zero.
unfoldable pub average_idx : ℤ → ℕ → ℕ → Access ℤ
average_idx at extent cnt =
    if cnt == 0 || extent / cnt == 0 then fault else ok (at /ℤ (extent / cnt))

unfoldable pub idx_at : Option (List LayoutUnit) → ℤ → ℕ → ℕ → Access ℤ
idx_at (some units) at extent cnt = ok (get_idx_by_pos units at)
idx_at none at extent cnt = average_idx at extent cnt

abbrev pub in_range : ℤ → ℕ → Bool
in_range i n = leb_ℤ (pos 0) i && ltb_ℤ i (pos n)

-- The result, `*row` and `*col`.
unfoldable pub get_row_col_by_pos : GridLayout → ℤ → ℤ → Access (Bool × ℤ × ℤ)
get_row_col_by_pos gl x y = do
  row ← idx_at gl.row_height (y -ℤ gl.y) gl.height gl.row_cnt
  col ← idx_at gl.col_width (x -ℤ gl.x) gl.width gl.col_cnt
  ok (in_range row gl.row_cnt && in_range col gl.col_cnt, row, col)

-- The address of a cell is given by its row and column.
unfoldable pub grid_layout_hit : GridLayout → ℤ → ℤ → Access (Option (ℕ × ℕ))
grid_layout_hit gl x y = do
  (_, row, col) ← get_row_col_by_pos gl x y
  ok (
      if leb_ℤ (pos 0) col
        && leb_ℤ (pos 0) row
        && ltb_ℤ col (pos gl.col_cnt)
        && ltb_ℤ row (pos gl.row_cnt)
      then some (pos_part row, pos_part col)
      else none)

unfoldable pub grid_layout_remove_hit : GridLayout → ℤ → ℤ → Access (ℕ × GridLayout)
grid_layout_remove_hit gl x y = do
  (_, row, col) ← get_row_col_by_pos gl x y
  grid_layout_remove gl row col

unfoldable pub is_in_gridlayout : ℤ → ℤ → GridLayout → Bool
is_in_gridlayout x y layout =
    let in_x = x -ℤ layout.x in
    let in_y = y -ℤ layout.y in
    leb_ℤ (pos 0) in_x
    && ltb_ℤ in_x (pos layout.width)
    && leb_ℤ (pos 0) in_y
    && ltb_ℤ in_y (pos layout.height)

pub record Rect : Type 0 where
  pub left : ℤ
  pub top : ℤ
  pub right : ℤ
  pub bottom : ℤ

-- `getPosFromUnit`, for an index up to the number of units.
unfoldable pub get_pos_from_unit : List LayoutUnit → ℕ → ℕ
get_pos_from_unit [] idx = 0
get_pos_from_unit (u ∷ us) zero = 0
get_pos_from_unit (u ∷ us) (suc idx) = u.current_size + get_pos_from_unit us idx

-- Where row or column `i` begins, from the edge of the layout, and how wide it is.
unfoldable pub unit_start : Option (List LayoutUnit) → ℕ → ℕ → ℕ → ℕ
unit_start (some units) extent cnt i = get_pos_from_unit units i
unit_start none extent cnt i = extent / cnt * i

unfoldable pub unit_size : Option (List LayoutUnit) → ℕ → ℕ → ℕ → ℕ
unit_size (some units) extent cnt i = (get_or units i zero_unit).current_size
unit_size none extent cnt i = extent / cnt

abbrev pub cell_left : GridLayout → ℕ → ℤ
cell_left gl col = gl.x +ℤ pos (unit_start gl.col_width gl.width gl.col_cnt col)

abbrev pub cell_top : GridLayout → ℕ → ℤ
cell_top gl row = gl.y +ℤ pos (unit_start gl.row_height gl.height gl.row_cnt row)

abbrev pub cell_rect : GridLayout → ℕ → ℕ → Rect
cell_rect gl row col = record {
  left = cell_left gl col;
  top = cell_top gl row;
  right = cell_left gl col +ℤ pos (unit_size gl.col_width gl.width gl.col_cnt col);
  bottom = cell_top gl row +ℤ pos (unit_size gl.row_height gl.height gl.row_cnt row);
}

-- `none` stands for FALSE, which leaves `*prt` as it was.
unfoldable pub grid_layout_get_cell_rect : GridLayout → ℤ → ℤ → Option Rect
grid_layout_get_cell_rect gl row col =
    if in_range row gl.row_cnt && in_range col gl.col_cnt
    then some (cell_rect gl (pos_part row) (pos_part col))
    else none

-- `>> 1` on a signed number.
abbrev pub half : ℤ → ℤ
half (pos n) = pos (n / 2)
half (negsuc n) = negsuc (n / 2)

-- `rc` is uninitialised where `GridLayoutGetCellRect` returns FALSE: its result is not looked at.
abbrev pub center_of : Option Rect → Access (Option (ℤ × ℤ))
center_of none = fault
center_of (some rc) = ok (some (half (rc.left +ℤ rc.right), half (rc.top +ℤ rc.bottom)))

unfoldable pub get_hitted_grid_center_pos : GridLayout → ℤ → ℤ → Access (Option (ℤ × ℤ))
get_hitted_grid_center_pos layout x y = if not (is_in_gridlayout x y layout) then ok none else do
  (_, row, col) ← get_row_col_by_pos layout x y
  center_of (grid_layout_get_cell_rect layout row col)
