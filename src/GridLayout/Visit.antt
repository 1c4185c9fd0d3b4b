-- ===== src/GridLayout/Visit.antt =====
-- `_grid_layout_deal_cell_with_position` and `GridLayoutEnumAllCellObjs` of mgfc/gridlayout.c: the
-- two walks over the cells. A walk is the list of the cells for which the callback is called, in
-- order; a read outside the tables of units or the cells is a fault.
pub mod InRange
pub mod Places
pub mod Once
use ministudo_guibuilder.Prelude.{
  ℕ, zero, suc, ◌+◌, ◌/◌, Bool, true, false, ◌||◌, Option, none, some, List, [], ◌∷◌, ◌++◌, ◌==◌,
  if◌then◌else◌,
}
use ministudo_guibuilder.Prelude.Int.{ℤ, pos, ◌+ℤ◌}
use ministudo_guibuilder.Prelude.Access.{Access, ok, fault, ◌>>=◌, read}
use ministudo_guibuilder.GridLayout.Units.{LayoutUnit}
use ministudo_guibuilder.GridLayout.State.{GridLayout, is_spliter_at, cell_at}
use ministudo_guibuilder.GridLayout.Position.{Rect}

-- An average size over no rows or columns is asked for.
abbrev pub no_average : Option (List LayoutUnit) → ℕ → Bool
no_average none n = n == 0
no_average (some units) n = false

-- `units ? units[i].current_size : avg`.
unfoldable pub size_at : Option (List LayoutUnit) → ℕ → ℕ → ℕ → Access ℕ
size_at none extent cnt i = ok (extent / cnt)
size_at (some units) extent cnt i = do u ← read units (pos i); ok u.current_size

-- One call of the callback.
pub record Visit : Type 0 where
  pub row : ℕ
  pub col : ℕ
  pub rect : Rect

module _ (gl : GridLayout) where
  unfoldable pub row_size : ℕ → Access ℕ
  row_size row = size_at gl.row_height gl.height gl.row_cnt row

  unfoldable pub col_size : ℕ → Access ℕ
  col_size col = size_at gl.col_width gl.width gl.col_cnt col

  -- The inner loop, with `n` rounds to go, between the edges of the column.
  unfoldable pub visit_rows : (col : ℕ) (left right : ℤ) (n row : ℕ) (top : ℤ) → Access (List Visit)
  visit_rows col left right zero row top = ok []
  visit_rows col left right (suc n) row top = do
    size ← row_size row
    let bottom = top +ℤ pos size
    spliter ← is_spliter_at gl.row_height (pos row)
    rest ← visit_rows col left right n (row + 1) bottom
    let rect : Rect = record { left = left; top = top; right = right; bottom = bottom }
    ok (if spliter then rest else record { row = row; col = col; rect = rect } ∷ rest)

  unfoldable pub visit_cols : (n col : ℕ) (left : ℤ) → Access (List Visit)
  visit_cols zero col left = ok []
  visit_cols (suc n) col left = do
    size ← col_size col
    let right = left +ℤ pos size
    spliter ← is_spliter_at gl.col_width (pos col)
    cells ← (if spliter then ok [] else visit_rows col left right gl.row_cnt 0 gl.y)
    rest ← visit_cols n (col + 1) right
    ok (cells ++ rest)

  unfoldable pub divides_by_zero : Bool
  divides_by_zero = no_average gl.col_width gl.col_cnt || no_average gl.row_height gl.row_cnt

  unfoldable pub deal_cell_with_position : Access (List Visit)
  deal_cell_with_position = if divides_by_zero then fault else visit_cols gl.col_cnt 0 gl.x

  -- `GridLayoutEnumAllCellObjs` with a callback that answers TRUE at the cells where `goes_on`
  -- does: the cells, by row and column, for which it is called, and whether the walk came to its
  -- end.
  module _ (goes_on : ℕ → ℕ → Bool) where
    unfoldable pub enum_cols : (row n col : ℕ) → Access (List (ℕ × ℕ) × Bool)
    enum_cols row zero col = ok ([], true)
    enum_cols row (suc n) col =
        let rest = enum_cols row n (col + 1) in
        cell_at gl (pos row) (pos col) >>= λ c.
        if c.kind == 0
        then rest
        else if goes_on row col
        then (rest >>= λ r. ok ((row, col) ∷ r.0, r.1))
        else ok ((row, col) ∷ [], false)

    unfoldable pub enum_rows : (n row : ℕ) → Access (List (ℕ × ℕ) × Bool)
    enum_rows zero row = ok ([], true)
    enum_rows (suc n) row =
        let rest = enum_rows n (row + 1) in
        enum_cols row gl.col_cnt 0 >>= λ first.
        if first.1 then (rest >>= λ r. ok (first.0 ++ r.0, r.1)) else ok first

    unfoldable pub enum_all_cell_objs : Access (List (ℕ × ℕ) × Bool)
    enum_all_cell_objs = enum_rows gl.row_cnt 0
