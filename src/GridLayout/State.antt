-- ===== src/GridLayout/State.antt =====
-- GRID_CELL and GRID_LAYOUT of mgfc/gridlayout.h, and the functions of mgfc/gridlayout.c that make
-- a layout, size its rows and columns and fill its cells. A pointer is a number, NULL is 0.
-- The counts and the extent of a layout are never negative: `CreateGridLayout` and
-- `SetGridLayoutRect` turn such arguments away. The fields `hwndAttached`, `revert` and `flag` are
-- never read, and memory never runs out.
use ministudo_guibuilder.Prelude.{
  ℕ, Bool, true, false, ◌&&◌, ◌||◌, Option, none, some, List, ◌==◌, if◌then◌else◌, replicate,
  modify,
}
use ministudo_guibuilder.Prelude.Int.{ℤ, pos, pos_part, ltb_ℤ, leb_ℤ}
use ministudo_guibuilder.Prelude.Access.{Access, ok, ◌>>=◌, read}
use ministudo_guibuilder.GridLayout.Units.{
  LayoutUnit, lut_spliter, zero_unit, to_int14, recalca_units,
}

abbrev pub gct_unknown : ℕ
gct_unknown = 0

abbrev pub gct_hwnd : ℕ
gct_hwnd = 1

abbrev pub gct_grid : ℕ
gct_grid = 2

abbrev pub gct_user : ℕ
gct_user = 3

abbrev pub gct_max : ℕ
gct_max = 4

-- `content` is the union `data`, as the pointer `data.data`.
pub record GridCell : Type 0 where
  pub kind : ℕ
  pub content : ℕ

abbrev pub empty_cell : GridCell
empty_cell = record { kind = gct_unknown; content = 0 }

-- `row_height` and `col_width` are `none` where the C pointers are NULL; cells[col][row].
pub record GridLayout : Type 0 where
  pub x : ℤ
  pub y : ℤ
  pub width : ℕ
  pub height : ℕ
  pub row_cnt : ℕ
  pub row_height : Option (List LayoutUnit)
  pub col_cnt : ℕ
  pub col_width : Option (List LayoutUnit)
  pub cells : List (List GridCell)

unfoldable pub init_grid_layout : GridLayout → ℕ → ℕ → GridLayout
init_grid_layout gl rows cols = record gl {
  row_cnt = rows;
  col_cnt = cols;
  cells = replicate cols (replicate rows empty_cell);
}

-- What `calloc` returns.
abbrev pub zero_layout : GridLayout
zero_layout = record {
  x = pos 0;
  y = pos 0;
  width = 0;
  height = 0;
  row_cnt = 0;
  row_height = none;
  col_cnt = 0;
  col_width = none;
  cells = replicate 0 (replicate 0 empty_cell);
}

unfoldable pub create_grid_layout : ℤ → ℤ → Option GridLayout
unfolding init_grid_layout
create_grid_layout rows cols =
    if leb_ℤ rows (pos 0) || leb_ℤ cols (pos 0)
    then none
    else some (init_grid_layout zero_layout (pos_part rows) (pos_part cols))

-- The two stores through `units[idx]`.
abbrev pub request_at : List LayoutUnit → ℕ → ℕ → ℤ → List LayoutUnit
request_at us i kind size = modify us i (λ u. record u { kind = kind; logic_size = to_int14 size })

abbrev pub allocated : Option (List LayoutUnit) → ℕ → List LayoutUnit
allocated none n = replicate n zero_unit
allocated (some us) n = us

unfoldable pub set_unit_size :
    Option (List LayoutUnit) → ℤ → ℕ → ℕ → ℤ → ℤ → Option (List LayoutUnit)
set_unit_size units idx n width kind size =
    if ltb_ℤ idx (pos 0) || leb_ℤ (pos n) idx
    then units
    else (let stored = if ltb_ℤ kind (pos 0) || ltb_ℤ (pos 3) kind then 0 else pos_part kind in
        some
          (recalca_units (request_at (allocated units n) (pos_part idx) stored size) (pos width)))

unfoldable pub grid_layout_set_row_height : GridLayout → ℤ → ℤ → ℤ → GridLayout
grid_layout_set_row_height gl row kind size =
    if leb_ℤ (pos gl.row_cnt) row
    then gl
    else record gl { row_height = set_unit_size gl.row_height row gl.row_cnt gl.height kind size }

unfoldable pub grid_layout_set_col_width : GridLayout → ℤ → ℤ → ℤ → GridLayout
grid_layout_set_col_width gl col kind size =
    if leb_ℤ (pos gl.col_cnt) col
    then gl
    else record gl { col_width = set_unit_size gl.col_width col gl.col_cnt gl.width kind size }

-- `units && units[i].type == lutSpliter`
abbrev pub is_spliter_at : Option (List LayoutUnit) → ℤ → Access Bool
is_spliter_at none i = ok false
is_spliter_at (some us) i = do u ← read us i; ok (u.kind == lut_spliter)

-- The test that guards the cell functions, as it is written: each range check asks for an index
-- that is negative and too large at once.
unfoldable pub out_of_grid : GridLayout → ℤ → ℤ → Bool
out_of_grid gl row col =
    (ltb_ℤ col (pos 0) && leb_ℤ (pos gl.col_cnt) col)
    || (ltb_ℤ row (pos 0) && leb_ℤ (pos gl.row_cnt) row)

unfoldable pub refuses : GridLayout → ℤ → ℤ → Access Bool
refuses gl row col = if out_of_grid gl row col then ok true else do
  in_column ← is_spliter_at gl.col_width col
  if in_column then ok true else is_spliter_at gl.row_height row

abbrev pub cell_at : GridLayout → ℤ → ℤ → Access GridCell
cell_at gl row col = do column ← read gl.cells col; read column row

abbrev pub put_cell : GridLayout → ℤ → ℤ → GridCell → GridLayout
put_cell gl row col c = record gl {
  cells = modify gl.cells (pos_part col) (λ column. modify column (pos_part row) (λ _. c));
}

unfoldable pub grid_layout_get_cell : GridLayout → ℤ → ℤ → Access ℕ
grid_layout_get_cell gl row col = do
  refused ← refuses gl row col
  if refused then ok 0 else do c ← cell_at gl row col; ok c.content

-- The old content, and the layout afterwards.
unfoldable pub grid_layout_set_cell : GridLayout → ℤ → ℤ → ℤ → ℕ → Access (ℕ × GridLayout)
grid_layout_set_cell gl row col kind content = do
  refused ← refuses gl row col
  if refused || leb_ℤ kind (pos gct_unknown) || leb_ℤ (pos gct_max) kind then ok (0, gl) else do
    c ← cell_at gl row col
    ok (c.content, put_cell gl row col (record { kind = pos_part kind; content = content }))

-- The type of the cell stays.
unfoldable pub grid_layout_remove : GridLayout → ℤ → ℤ → Access (ℕ × GridLayout)
grid_layout_remove gl row col =
    if out_of_grid gl row col
    then ok (0, gl)
    else do c ← cell_at gl row col; ok (c.content, put_cell gl row col (record c { content = 0 }))
