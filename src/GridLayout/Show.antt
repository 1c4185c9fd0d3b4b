-- ===== src/GridLayout/Show.antt =====
-- `GridLayoutShow` of mgfc/gridlayout.c with its callback `_gridlayout_show`: the windows and user
-- cells of a layout and of the layouts in its cells are shown or hidden. The call descends on fuel,
-- one unit for each level; what is asked of windows and user cells is recorded in order.
pub mod Objects
use ministudo_guibuilder.Prelude.{
  ℕ, zero, suc, Bool, true, false, Option, none, some, List, [], ◌∷◌, ◌++◌, ◌==◌, if◌then◌else◌,
}
use ministudo_guibuilder.Prelude.Int.{pos}
use ministudo_guibuilder.Prelude.Access.{Access, ok, fault}
use ministudo_guibuilder.GridLayout.State.{
  GridCell, GridLayout, gct_hwnd, gct_grid, gct_user, cell_at,
}
use ministudo_guibuilder.GridLayout.Visit.{enum_all_cell_objs}

pub data ShowRequest : Type 0 where
  show_window : ℕ → Bool → ShowRequest
  show_user : ℕ → Bool → ShowRequest

pub data ShowRun : Type 0 where
  done : List ShowRequest → ShowRun
  crash : ShowRun
  out_of_fuel : ShowRun

-- One run after the other.
abbrev pub followed_by : ShowRun → ShowRun → ShowRun
followed_by (done acts) (done more) = done (acts ++ more)
followed_by (done acts) crash = crash
followed_by (done acts) out_of_fuel = out_of_fuel
followed_by crash s = crash
followed_by out_of_fuel s = out_of_fuel

-- Whether a user cell has a type with a function `show` is not decided here.
module _ (has_show : ℕ → Bool) (visible : Bool) where
  -- `_gridlayout_show`, with the call for a nested layout.
  unfoldable pub gridlayout_show : (ℕ → ShowRun) → GridCell → ShowRun
  gridlayout_show deeper c =
      if c.kind == gct_hwnd
      then done (show_window c.content visible ∷ [])
      else if c.kind == gct_grid
      then deeper c.content
      else if c.kind == gct_user
      then (if has_show c.content then done (show_user c.content visible ∷ []) else done [])
      else done []

  -- The cell is read by its row and column.
  abbrev pub show_at : (ℕ → ShowRun) → Access GridCell → ShowRun
  show_at deeper fault = crash
  show_at deeper (ok c) = gridlayout_show deeper c

  unfoldable pub show_cells : (ℕ → ShowRun) → GridLayout → List (ℕ × ℕ) → ShowRun
  show_cells deeper g [] = done []
  show_cells deeper g ((row, col) ∷ rest) =
      followed_by (show_at deeper (cell_at g (pos row) (pos col))) (show_cells deeper g rest)

  abbrev pub show_all : (ℕ → ShowRun) → GridLayout → Access (List (ℕ × ℕ) × Bool) → ShowRun
  show_all deeper g fault = crash
  show_all deeper g (ok r) = show_cells deeper g r.0

  -- The callback always answers TRUE.
  abbrev pub show_layout : (ℕ → ShowRun) → Option GridLayout → ShowRun
  show_layout deeper none = crash
  show_layout deeper (some g) = show_all deeper g (enum_all_cell_objs g (λ row col. true))

  unfoldable pub grid_layout_show : ℕ → (ℕ → Option GridLayout) → ℕ → ShowRun
  grid_layout_show zero grids p = out_of_fuel
  grid_layout_show (suc fuel) grids p =
      if p == 0 then done [] else show_layout (grid_layout_show fuel grids) (grids p)
