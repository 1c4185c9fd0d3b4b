-- ===== src/GridLayout/Spliter.antt =====
-- Dragging a splitter, in mgfc/gridlayout.c: `getSpliterInfo`, `updateSpliterSize` and
-- `processSpliter`. What the mouse message does to the screen (cursor, capture, the bar drawn with
-- XOR) is recorded as a list of actions.
pub mod Update
pub mod Valid
pub mod Drag
pub mod Hook
use ministudo_guibuilder.Prelude.{
  ℕ, zero, suc, ◌+◌, ◌-◌, ◌≡◌, Bool, true, false, not, ◌&&◌, ◌||◌, Option, none, some, List, [],
  ◌∷◌, ◌++◌, ltb, leb, ◌==◌, if◌then◌else◌, get_or, modify, length,
}
use ministudo_guibuilder.Prelude.Int.{
  ℤ, pos, negsuc, pos_part, ◌+ℤ◌, ◌-ℤ◌, ◌*ℤ◌, ◌/ℤ◌, ltb_ℤ, leb_ℤ,
}
use ministudo_guibuilder.Prelude.Access.{Access, ok, fault, ◌>>=◌, read}
use ministudo_guibuilder.GridLayout.Units.{
  LayoutUnit, lut_pixel, lut_spliter, zero_unit, to_int14, recalca_units,
}
use ministudo_guibuilder.GridLayout.State.{
  GridCell, GridLayout, gct_grid, gct_user, is_spliter_at, cell_at,
}
use ministudo_guibuilder.GridLayout.Position.{get_pos_from_unit, get_row_col_by_pos}

-- `for(idxbefore = idx-1; idxbefore >= 0 && units[idxbefore].type == lutSpliter; idxbefore --);`
unfoldable pub idx_before : List LayoutUnit → ℕ → ℤ
idx_before units zero = negsuc 0
idx_before units (suc i) =
    if (get_or units i zero_unit).kind == lut_spliter then idx_before units i else pos i

-- The next loop, with `n` units from `i` on. Its test reads the unit at `before`.
unfoldable pub idx_after : List LayoutUnit → ℤ → ℕ → ℕ → Access ℕ
idx_after units before zero i = ok i
idx_after units before (suc n) i =
    let later = idx_after units before n (i + 1) in
    read units before >>= λ u. if u.kind == lut_spliter then later else ok i

-- The new `logic_size` of a unit `room` wide after the drag, in pixels or in per cent of `width`.
unfoldable pub dragged_unit : ℤ → ℤ → LayoutUnit → LayoutUnit
dragged_unit room width u =
    if u.kind == lut_pixel
    then record u { logic_size = to_int14 (if leb_ℤ room (pos 0) then pos 1 else room) }
    else if ltb_ℤ (pos 0) width
    then record u {
      logic_size =
          to_int14 (if leb_ℤ room (pos 0) then pos 1 else room *ℤ pos 100 /ℤ pos_part width);
    }
    else u

-- The unit before the splitter. An index of -1 leaves the table alone.
unfoldable pub drag_before : List LayoutUnit → ℤ → ℤ → ℤ → ℤ → List LayoutUnit
drag_before units (negsuc n) start width xy = units
drag_before units (pos i) start width xy =
    modify units i (dragged_unit (xy -ℤ (start +ℤ pos (get_pos_from_unit units i))) width)

-- The unit after it, if there is one.
unfoldable pub drag_after : List LayoutUnit → ℕ → ℤ → ℤ → ℤ → List LayoutUnit
drag_after units i start width xy =
    let u = get_or units i zero_unit in
    let nend = start +ℤ pos (get_pos_from_unit units i) +ℤ pos u.current_size in
    if ltb i (length units) then modify units i (dragged_unit (nend -ℤ xy) width) else units

-- `updateSpliterSize` up to the call of `recalca_units`, on the table of one direction.
unfoldable pub update_units : List LayoutUnit → ℕ → ℤ → ℕ → ℤ → Access (List LayoutUnit)
update_units units idx start width xy = do
  let before = idx_before units idx
  after ← idx_after units before (length units - (idx + 1)) (idx + 1)
  let moved = drag_before units before start (pos width) xy
  ok (recalca_units (drag_after moved after start (pos width) xy) (pos width))

-- Without a table the loops run through a NULL pointer.
abbrev pub update_table : Option (List LayoutUnit) → ℕ → ℤ → ℕ → ℤ → Access (List LayoutUnit)
update_table none idx start width xy = fault
update_table (some units) idx start width xy = update_units units idx start width xy

-- `updateSpliterSize` up to the call that moves the cells.
unfoldable pub update_spliter_size : GridLayout → Bool → ℕ → ℤ → ℤ → Access GridLayout
update_spliter_size gl true idx x y = do
  units ← update_table gl.row_height idx gl.y gl.height y
  ok (record gl { row_height = some units })
update_spliter_size gl false idx x y = do
  units ← update_table gl.col_width idx gl.x gl.width x
  ok (record gl { col_width = some units })

pub record SpliterInfo : Type 0 where
  pub grid : ℕ
  pub is_horz : Bool
  pub idx : ℕ

pub data Search : Type 0 where
  found : SpliterInfo → Search
  not_found : Search
  crash : Search
  out_of_fuel : Search

-- A read of the search.
abbrev pub searching : {A : Type 0} → Access A → (A → Search) → Search
searching (ok a) f = f a
searching fault f = crash

-- The layout that a cell leads to: the second line is `grid_cell_user_to_gridlayout`, code of the
-- user cell.
abbrev pub nested_grid : (ℕ → ℕ) → GridCell → ℕ
nested_grid to_gridlayout c =
    if not (c.content == 0) && c.kind == gct_grid
    then c.content
    else if not (c.content == 0) && c.kind == gct_user
    then to_gridlayout c.content
    else 0

module _ (to_gridlayout : ℕ → ℕ) (grids : ℕ → Option GridLayout) where
  -- The body of the loop of `getSpliterInfo` at a layout, with the search in a nested one.
  unfoldable pub search_cell : (ℕ → Search) → GridLayout → ℕ → Bool → ℕ → ℕ → Search
  search_cell deeper gl p false row col = not_found
  search_cell deeper gl p true row col =
      searching (is_spliter_at gl.col_width (pos col)) λ in_column.
        if in_column
        then found (record { grid = p; is_horz = false; idx = col })
        else searching (is_spliter_at gl.row_height (pos row)) λ in_row.
          if in_row
          then found (record { grid = p; is_horz = true; idx = row })
          else searching (cell_at gl (pos row) (pos col))
              λ c. let q = nested_grid to_gridlayout c in if q == 0 then not_found else deeper q

  abbrev pub search_at : (ℕ → Search) → GridLayout → ℕ → Access (Bool × ℤ × ℤ) → Search
  search_at deeper gl p fault = crash
  search_at deeper gl p (ok (hit, row, col)) =
      search_cell deeper gl p hit (pos_part row) (pos_part col)

  abbrev pub search_layout : (ℕ → Search) → ℤ → ℤ → ℕ → Option GridLayout → Search
  search_layout deeper x y p none = crash
  search_layout deeper x y p (some gl) = search_at deeper gl p (get_row_col_by_pos gl x y)

  unfoldable pub get_spliter_info : ℕ → ℤ → ℤ → ℕ → Search
  get_spliter_info zero x y p = out_of_fuel
  get_spliter_info (suc fuel) x y p = search_layout (get_spliter_info fuel x y) x y p (grids p)
