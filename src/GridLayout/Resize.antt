-- ===== src/GridLayout/Resize.antt =====
-- `SetGridLayoutRect` of mgfc/gridlayout.c with its callback `_grid_layout_resize`. Layouts lie at
-- addresses and a cell may hold the address of another one, so the call descends on fuel, one unit
-- for each level. Windows and user cells belong to code outside: what is sent to them is recorded
-- in order. A layout is not reached from its own cells, so the cells are read before the descent.
pub mod Shape
pub mod Returns
use ministudo_guibuilder.Prelude.{
  ℕ, zero, suc, ◌≡◌, Bool, true, false, not, ◌&&◌, ◌||◌, Option, none, some, List, [], ◌∷◌, ◌++◌,
  ◌==◌, if◌then◌else◌,
}
use ministudo_guibuilder.Prelude.Int.{ℤ, pos, pos_part, ◌-ℤ◌, leb_ℤ, eqb_ℤ}
use ministudo_guibuilder.Prelude.Access.{Access, ok, fault}
use ministudo_guibuilder.GridLayout.Units.{LayoutUnit, recalca_units}
use ministudo_guibuilder.GridLayout.State.{
  GridCell, GridLayout, gct_hwnd, gct_grid, gct_user, cell_at,
}
use ministudo_guibuilder.GridLayout.Position.{Rect}
use ministudo_guibuilder.GridLayout.Visit.{Visit, deal_cell_with_position}

-- What is asked of a window and of a user cell: the position and the extent.
pub data Request : Type 0 where
  move_window : ℕ → ℤ → ℤ → ℤ → ℤ → Request
  set_user_rect : ℕ → ℤ → ℤ → ℤ → ℤ → Request

pub record World : Type 0 where
  pub grids : ℕ → Option GridLayout
  pub requests : List Request

pub data Run : Type 0 where
  done : World → Run
  crash : Run
  out_of_fuel : Run

abbrev pub then_run : Run → (World → Run) → Run
then_run (done w) f = f w
then_run crash f = crash
then_run out_of_fuel f = out_of_fuel

abbrev pub put_grid : World → ℕ → GridLayout → World
put_grid w p g = record w { grids = λ q. if q == p then some g else w.grids q }

abbrev pub send : World → Request → World
send w r = record w { requests = w.requests ++ r ∷ [] }

abbrev pub recalca : Option (List LayoutUnit) → ℕ → Option (List LayoutUnit)
recalca none n = none
recalca (some units) n = some (recalca_units units (pos n))

-- The stores of `SetGridLayoutRect` for an extent that is positive both ways.
unfoldable pub place_grid : GridLayout → ℤ → ℤ → ℕ → ℕ → GridLayout
place_grid g x y width height =
    if width == g.width && height == g.height then record g { x = x; y = y } else record g {
      x = x;
      y = y;
      width = width;
      height = height;
      col_width = recalca g.col_width width;
      row_height = recalca g.row_height height;
    }

-- `IsWindow`, and whether a user cell has a type with a function `setRect`, are not decided here.
module _ (is_window has_set_rect : ℕ → Bool) where
  -- `_grid_layout_resize`, with the call that resizes a nested grid.
  unfoldable pub resize_cell : (World → ℕ → ℤ → ℤ → ℤ → ℤ → Run) → World → GridCell → Rect → Run
  resize_cell set_rect w c r =
      let width = r.right -ℤ r.left in
      let height = r.bottom -ℤ r.top in
      if c.kind == gct_hwnd
      then (if is_window c.content
          then done (send w (move_window c.content r.left r.top width height))
          else done w)
      else if c.kind == gct_grid
      then (if c.content == 0 then done w else set_rect w c.content r.left r.top width height)
      else if c.kind == gct_user
      then (if has_set_rect c.content
          then done (send w (set_user_rect c.content r.left r.top width height))
          else done w)
      else done w

  -- The cell is read by its row and column.
  abbrev pub resize_at : (World → ℕ → ℤ → ℤ → ℤ → ℤ → Run) → World → Access GridCell → Rect → Run
  resize_at set_rect w fault r = crash
  resize_at set_rect w (ok c) r = resize_cell set_rect w c r

  unfoldable pub resize_cells :
      (World → ℕ → ℤ → ℤ → ℤ → ℤ → Run) → GridLayout → List Visit → World → Run
  resize_cells set_rect g [] w = done w
  resize_cells set_rect g (v ∷ vs) w =
      then_run (resize_at set_rect w (cell_at g (pos v.row) (pos v.col)) v.rect)
        (resize_cells set_rect g vs)

  -- The cells of a layout that has been placed.
  unfoldable pub resize_all :
      (World → ℕ → ℤ → ℤ → ℤ → ℤ → Run) → GridLayout → Access (List Visit) → World → Run
  resize_all set_rect g (ok vs) w = resize_cells set_rect g vs w
  resize_all set_rect g fault w = crash

  unfoldable pub place_and_resize :
      (World → ℕ → ℤ → ℤ → ℤ → ℤ → Run) → World → ℕ → Option GridLayout → ℤ → ℤ → ℕ → ℕ → Run
  place_and_resize set_rect w p none x y width height = crash
  place_and_resize set_rect w p (some g) x y width height =
      let g' = place_grid g x y width height in
      resize_all set_rect g' (deal_cell_with_position g') (put_grid w p g')

  unfoldable pub set_grid_layout_rect : ℕ → World → ℕ → ℤ → ℤ → ℤ → ℤ → Run
  set_grid_layout_rect zero w p x y width height = out_of_fuel
  set_grid_layout_rect (suc fuel) w p x y width height =
      if p == 0 || leb_ℤ width (pos 0) || leb_ℤ height (pos 0)
      then done w
      else place_and_resize (set_grid_layout_rect fuel) w p (w.grids p) x y (pos_part width)
          (pos_part height)
