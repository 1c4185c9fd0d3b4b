-- ===== src/GridLayout/Spliter/Drag.antt =====
-- `processSpliter` of mgfc/gridlayout.c: a state machine over the static variables of the
-- function. What it does to the screen is a list of actions. The bar is drawn with XOR, so that
-- drawing it twice at one place removes it.
pub mod Found
pub mod Bars
pub mod Sessions
use ministudo_guibuilder.Prelude.{
  ℕ, zero, suc, ◌+◌, ◌-◌, ◌≡◌, Bool, true, false, not, ◌&&◌, ◌||◌, Option, none, some, List, [],
  ◌∷◌, ◌++◌, ltb, leb, ◌==◌, if◌then◌else◌,
}
use ministudo_guibuilder.Prelude.Int.{ℤ, pos, ◌-ℤ◌, ◌/ℤ◌}
use ministudo_guibuilder.Prelude.Access.{Access, ok, fault}
use ministudo_guibuilder.GridLayout.State.{GridLayout}
use ministudo_guibuilder.GridLayout.Visit.{deal_cell_with_position}
use ministudo_guibuilder.GridLayout.Resize.{
  World, Run, done, then_run, put_grid, resize_all, set_grid_layout_rect,
}
use ministudo_guibuilder.GridLayout.Spliter.{
  SpliterInfo, Search, found, not_found, get_spliter_info, update_spliter_size,
}

-- MSG_MOUSEMOVE, MSG_LBUTTONDOWN, MSG_LBUTTONUP and the other messages.
pub data Message : Type 0 where
  mouse_move button_down button_up other : Message

-- A rectangle that is filled.
pub record Box : Type 0 where
  pub x : ℤ
  pub y : ℤ
  pub width : ℤ
  pub height : ℤ

-- The cursor of a direction, the default cursor, `FillBox`, the capture.
pub data Action : Type 0 where
  size_cursor : Bool → Action
  default_cursor : Action
  fill_box : Box → Action
  set_capture release_capture : Action

-- SPLITER_SIZE.
abbrev pub spliter_size : ℤ
spliter_size = pos 4

-- The place and the extent of a layout, which `drawSpliterBar` reads, and the box of a bar.
abbrev pub extent : GridLayout → Box
extent gl = record { x = gl.x; y = gl.y; width = pos gl.width; height = pos gl.height }

unfoldable pub bar_box : Box → Bool → ℤ → ℤ → Box
bar_box gl true x y = record {
  x = gl.x;
  y = y -ℤ spliter_size /ℤ 2;
  width = gl.width;
  height = spliter_size;
}
bar_box gl false x y = record {
  x = x -ℤ spliter_size /ℤ 2;
  y = gl.y;
  width = spliter_size;
  height = gl.height;
}

abbrev pub draw_spliter_bar : GridLayout → Bool → ℤ → ℤ → Action
draw_spliter_bar gl is_horz x y = fill_box (bar_box (extent gl) is_horz x y)

-- The static variables, without the device context; `grid` is `_spliter_layout`, 0 while nothing is dragged.
pub record Drag : Type 0 where
  pub old_x : ℤ
  pub old_y : ℤ
  pub is_horz : Bool
  pub spliter_idx : ℕ
  pub grid : ℕ

pub record Result : Type 0 where
  pub handled : Bool
  pub drag : Drag
  pub world : World
  pub actions : List Action

pub data Outcome : Type 0 where
  step : Result → Outcome
  crash : Outcome
  out_of_fuel : Outcome

abbrev pub result : Bool → Drag → World → List Action → Outcome
result b d w acts = step (record { handled = b; drag = d; world = w; actions = acts })

-- The splitter found is neither the first nor the last unit of its direction.
unfoldable pub is_inner : GridLayout → SpliterInfo → Bool
is_inner g info =
    ltb 0 info.idx
    && not (
        (info.is_horz && leb g.row_cnt (info.idx + 1))
        || (not info.is_horz && leb g.col_cnt (info.idx + 1)))

-- The statements behind a successful `getSpliterInfo`. The address of the layout was just read.
abbrev pub hover : Drag → World → Bool → ℤ → ℤ → SpliterInfo → Option GridLayout → Outcome
hover d w down x y info none = crash
hover d w down x y info (some g) =
    let d' : Drag = record d { is_horz = info.is_horz; spliter_idx = info.idx } in
    if not (is_inner g info)
    then result false d' w []
    else if down
    then result true (record d' { grid = info.grid; old_x = x; old_y = y }) w
        (size_cursor info.is_horz ∷ draw_spliter_bar g info.is_horz x y ∷ set_capture ∷ [])
    else result false d' w (size_cursor info.is_horz ∷ [])

abbrev pub look : Drag → World → Bool → ℤ → ℤ → Search → Outcome
look d w down x y (found info) = hover d w down x y info (w.grids info.grid)
look d w down x y not_found = result false d w []
look d w down x y Search.crash = crash
look d w down x y Search.out_of_fuel = out_of_fuel

-- The end of MSG_LBUTTONUP: the cells are moved, and nothing is dragged any more.
abbrev pub dropped : Drag → List Action → Run → Outcome
dropped d acts (done w) = result true (record d { grid = 0 }) w acts
dropped d acts Run.crash = crash
dropped d acts Run.out_of_fuel = out_of_fuel

-- The layout that is dragged is read.
abbrev pub with_layout : Option GridLayout → (GridLayout → Outcome) → Outcome
with_layout none f = crash
with_layout (some g) f = f g

-- Code outside: the windows, the user cells, and the translation of a point on the screen.
module _ (is_window has_set_rect : ℕ → Bool) (to_gridlayout : ℕ → ℕ)
    (client_x client_y : ℤ → ℤ) where
  abbrev pub moved : ℕ → World → ℕ → Access GridLayout → Run
  moved fuel w p fault = Run.crash
  moved fuel w p (ok g) =
      resize_all is_window has_set_rect (set_grid_layout_rect is_window has_set_rect fuel) g
        (deal_cell_with_position g) (put_grid w p g)

  -- `updateSpliterSize` on the layout that is dragged.
  abbrev pub update_layout : ℕ → World → Drag → ℤ → ℤ → GridLayout → Run
  update_layout fuel w d x y g =
      moved fuel w d.grid (update_spliter_size g d.is_horz d.spliter_idx x y)

  -- While a splitter is dragged.
  unfoldable pub dragging : ℕ → World → Drag → Message → ℤ → ℤ → Outcome
  dragging fuel w d mouse_move x y = with_layout (w.grids d.grid) λ g.
      result true (record d { old_x = client_x x; old_y = client_y y }) w
        (size_cursor d.is_horz
          ∷ draw_spliter_bar g d.is_horz d.old_x d.old_y
          ∷ draw_spliter_bar g d.is_horz (client_x x) (client_y y)
          ∷ [])
  dragging fuel w d button_up x y = with_layout (w.grids d.grid) λ g.
      dropped d
        (draw_spliter_bar g d.is_horz d.old_x d.old_y ∷ default_cursor ∷ release_capture ∷ [])
        (update_layout fuel w d (client_x x) (client_y y) g)
  dragging fuel w d button_down x y = result false d w []
  dragging fuel w d other x y = result false d w []

  -- While none is.
  unfoldable pub idle : ℕ → World → Drag → ℕ → Message → ℤ → ℤ → Outcome
  idle fuel w d p mouse_move x y =
      look d w false x y (get_spliter_info to_gridlayout w.grids fuel x y p)
  idle fuel w d p button_down x y =
      look d w true x y (get_spliter_info to_gridlayout w.grids fuel x y p)
  idle fuel w d p button_up x y = result false d w []
  idle fuel w d p other x y = result false d w []

  unfoldable pub process_spliter : ℕ → World → Drag → ℕ → Message → ℤ → ℤ → Outcome
  process_spliter fuel w d p msg x y =
      if d.grid == 0 then idle fuel w d p msg x y else dragging fuel w d msg x y

-- Before the first message. `_spliter_idx` starts as -1 and is written before it is read.
abbrev pub no_drag : Drag
no_drag = record { old_x = pos 0; old_y = pos 0; is_horz = false; spliter_idx = 0; grid = 0 }
