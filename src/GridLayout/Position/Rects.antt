-- ===== src/GridLayout/Position/Rects.antt =====
-- Points inside the rectangle of a cell are found in that cell.
use ministudo_guibuilder.Prelude.{
  ℕ, zero, suc, ◌+◌, ◌*◌, ◌/◌, ◌<◌, ◌≡◌, ap, true, false, Option, none, some, List, [], ◌∷◌, arith,
  ◌==◌, length, get_or,
}
use ministudo_guibuilder.Prelude.Int.{
  ℤ, pos, ◌+ℤ◌, ◌-ℤ◌, ◌<ℤ◌, +ℤ_parts, -ℤ_parts, pos_of_lt, neg_part, neg_part_of_lt, quotient,
  pos_part,
}
use ministudo_guibuilder.Prelude.Access.{ok}
use ministudo_guibuilder.GridLayout.Units.{LayoutUnit, zero_unit}
use ministudo_guibuilder.GridLayout.State.{GridLayout}
use ministudo_guibuilder.GridLayout.Cells.{IsValid, HasUnits}
use ministudo_guibuilder.GridLayout.Position.{
  average_idx, idx_at, get_row_col_by_pos, grid_layout_hit, get_pos_from_unit, unit_start,
  unit_size, cell_rect,
}
use ministudo_guibuilder.GridLayout.Position.Index.{get_pos_from_unit-zero, get_idx_by_pos-hit}

-- A unit begins where the one before it ends.
pub get_pos_from_unit-suc :
    (us : List LayoutUnit) (k : ℕ)
    → k < length us
    → get_pos_from_unit us (suc k) ≡ get_pos_from_unit us k + (get_or us k zero_unit).current_size
unfolding get_pos_from_unit
get_pos_from_unit-suc [] k h = elim h [ ]
get_pos_from_unit-suc (u ∷ us) zero h = omega (arith, get_pos_from_unit-zero us)
get_pos_from_unit-suc (u ∷ us) (suc k) h = omega (arith, get_pos_from_unit-suc us k)

average_idx-inside :
    (p extent cnt k : ℕ)
    → k < cnt
    → extent / cnt * k < p
    → p < extent / cnt * k + extent / cnt
    → average_idx (pos p) extent cnt ≡ ok (pos k)
unfolding average_idx
average_idx-inside p extent cnt k inside lo hi =
    rw (filled, wide) (ap ok (quotient p (extent / cnt) k (omega arith) (omega arith)))
  where
    filled : (cnt == 0) ≡ false
    filled = ground arith

    wide : (extent / cnt == 0) ≡ false
    wide = ground arith

idx_at-inside :
    (units : Option (List LayoutUnit)) (p extent cnt k : ℕ)
    → HasUnits units cnt
    → k < cnt
    → unit_start units extent cnt k < p
    → p < unit_start units extent cnt k + unit_size units extent cnt k
    → idx_at units (pos p) extent cnt ≡ ok (pos k)
unfolding idx_at unit_start unit_size
idx_at-inside none p extent cnt k v inside lo hi = average_idx-inside p extent cnt k inside lo hi
idx_at-inside (some us) p extent cnt k v inside lo hi = ap ok (
    get_idx_by_pos-hit us p k (omega arith) lo
      (omega (arith, get_pos_from_unit-suc us k (omega arith))))

-- A point strictly between two edges, as a distance from the edge of the layout.
distance :
    (x edge : ℤ) (s e : ℕ)
    → edge +ℤ pos s <ℤ x
    → x <ℤ edge +ℤ pos s +ℤ pos e
    → (p : ℕ) × (x -ℤ edge ≡ pos p) × (s < p) × (p < s + e)
distance x edge s e lo hi =
    let above : pos s <ℤ x -ℤ edge = omega (arith, +ℤ_parts, -ℤ_parts) in
    let exact : neg_part (x -ℤ edge) ≡ 0 = neg_part_of_lt (x -ℤ edge) s above in
    (
      pos_part (x -ℤ edge),
      pos_of_lt (x -ℤ edge) s above,
      omega arith,
      omega (arith, +ℤ_parts (edge +ℤ pos s) (pos e), +ℤ_parts edge (pos s), -ℤ_parts x edge),
    )

module _ (g : GridLayout) (r k : ℕ) (x y : ℤ) (v : IsValid g) (in_rows : r < g.row_cnt)
    (in_cols : k < g.col_cnt) (right_of : (cell_rect g r k).left <ℤ x)
    (left_of : x <ℤ (cell_rect g r k).right) (below : (cell_rect g r k).top <ℤ y)
    (above : y <ℤ (cell_rect g r k).bottom) where
  -- A point strictly inside the rectangle of a cell is found in the row and column of that cell.
  pub get_row_col_by_pos-cell_rect : get_row_col_by_pos g x y ≡ ok (true, pos r, pos k)
  unfolding get_row_col_by_pos
  get_row_col_by_pos-cell_rect =
      let (p, ep, lp, hp) = distance x g.x _ _ right_of left_of in
      let (q, eq', lq, hq) = distance y g.y _ _ below above in
      rw
        (
          ep,
          eq',
          idx_at-inside g.row_height q g.height g.row_cnt r v.row_units in_rows lq hq,
          idx_at-inside g.col_width p g.width g.col_cnt k v.col_units in_cols lp hp,
        )
        (ap (λ b. ok (b, pos r, pos k)) (ground arith))

  -- `GridLayoutHit` returns that cell.
  pub grid_layout_hit-cell_rect : grid_layout_hit g x y ≡ ok (some (r, k))
  unfolding grid_layout_hit
  grid_layout_hit-cell_rect = rw get_row_col_by_pos-cell_rect (ground arith)
