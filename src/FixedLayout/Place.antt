-- ===== src/FixedLayout/Place.antt =====
-- Placing the cells of a fixed layout, in mgfc/fixedlayout.c: `_fixed_layout_calca`,
-- `_fixed_layout_calcsize`, `_fixed_layout_move_cell` and `_fixedlayout_setRect`.
use ministudo_guibuilder.Prelude.{ℕ, zero, suc, Bool, Option, none, some, ◌==◌, if◌then◌else◌}
use ministudo_guibuilder.Prelude.Int.{ℤ, pos, ◌+ℤ◌, ◌-ℤ◌, ◌*ℤ◌, ◌/ℤ◌, leb_ℤ}
use ministudo_guibuilder.GridLayout.Units.{LayoutUnit, lut_pixel, lut_percent, to_uint16}
use ministudo_guibuilder.GridLayout.State.{gct_hwnd, gct_grid, gct_user}
use ministudo_guibuilder.GridLayout.Position.{Rect}
use ministudo_guibuilder.GridLayout.Resize.{
  World, Run, send, set_grid_layout_rect, move_window, set_user_rect,
}
use ministudo_guibuilder.FixedLayout.Cells.{CellRect, FixedCell, FixedLayout, Heap, put_fixed}

-- The value for `current_size`, which keeps 16 bits of it.
unfoldable pub calca_size : ℤ → ℤ → LayoutUnit → ℤ
calca_size from to u =
    if u.kind == lut_pixel
    then (if leb_ℤ (pos 0) u.logic_size then from +ℤ u.logic_size else to +ℤ u.logic_size)
    else if leb_ℤ (pos 0) u.logic_size
    then (to -ℤ from) *ℤ u.logic_size /ℤ 100 +ℤ from
    else (to -ℤ from) *ℤ u.logic_size /ℤ 100 +ℤ to

-- A unit of another kind is left alone.
unfoldable pub fixed_layout_calca : ℤ → ℤ → LayoutUnit → LayoutUnit
fixed_layout_calca from to u =
    if u.kind == lut_pixel
    then record u { current_size = to_uint16 (calca_size from to u) }
    else if u.kind == lut_percent
    then record u { current_size = to_uint16 (calca_size from to u) }
    else u

unfoldable pub fixed_layout_calcsize : Rect → FixedCell → FixedCell
fixed_layout_calcsize r c =
    let old = c.rect in
    let new : CellRect = record {
      x = fixed_layout_calca r.left r.right old.x;
      y = fixed_layout_calca r.top r.bottom old.y;
      w = fixed_layout_calca (pos 0) (r.right -ℤ r.left) old.w;
      h = fixed_layout_calca (pos 0) (r.bottom -ℤ r.top) old.h;
    } in
    record c { rect = new }

-- The cells, and the windows and grids that they lead to.
pub record Store : Type 0 where
  pub cells : Heap
  pub world : World

pub data FixedRun : Type 0 where
  done : Store → FixedRun
  crash : FixedRun
  out_of_fuel : FixedRun

-- `depth` is the fuel for grids in the cells.
module _ (is_window has_set_rect : ℕ → Bool) (depth : ℕ) where
  unfoldable pub fixed_layout_move_cell : World → FixedCell → Run
  fixed_layout_move_cell w c =
      let r = c.rect in
      let x = pos r.x.current_size in
      let y = pos r.y.current_size in
      let width = pos r.w.current_size in
      let height = pos r.h.current_size in
      if c.cell_type == gct_hwnd
      then Run.done (send w (move_window c.content x y width height))
      else if c.cell_type == gct_grid
      then set_grid_layout_rect is_window has_set_rect depth w c.content x y width height
      else if c.cell_type == gct_user
      then (if has_set_rect c.content
          then Run.done (send w (set_user_rect c.content x y width height))
          else Run.done w)
      else Run.done w

  abbrev pub and_then : Heap → Run → (Store → FixedRun) → FixedRun
  and_then cells (Run.done w) f = f (record { cells = cells; world = w })
  and_then cells Run.crash f = crash
  and_then cells Run.out_of_fuel f = out_of_fuel

  -- A cell that has been read: it is computed anew and moved; then the next cells follow.
  abbrev pub place_cell : Store → Rect → ℕ → Option FixedCell → (Store → ℕ → FixedRun) → FixedRun
  place_cell s r p none rest = crash
  place_cell s r p (some c) rest =
      let c' = fixed_layout_calcsize r c in
      and_then (put_fixed s.cells p c') (fixed_layout_move_cell s.world c') (λ s'. rest s' c'.next)

  -- The loop of `_fixedlayout_setRect`, on fuel.
  unfoldable pub place_loop : ℕ → Rect → Store → ℕ → FixedRun
  place_loop zero r s p = out_of_fuel
  place_loop (suc fuel) r s p =
      if p == 0 then done s else place_cell s r p (s.cells p) (place_loop fuel r)

  -- `_fixedlayout_setRect`: the layout, and the cells.
  unfoldable pub fixedlayout_set_rect :
      ℕ → Store → FixedLayout → ℤ → ℤ → ℤ → ℤ → FixedLayout × FixedRun
  fixedlayout_set_rect fuel s pfl x y width height = (
    record pfl { x = x; y = y; w = width; h = height },
    place_loop fuel (record { left = x; top = y; right = x +ℤ width; bottom = y +ℤ height }) s
        pfl.head,
  )
