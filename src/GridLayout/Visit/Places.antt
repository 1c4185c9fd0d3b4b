-- ===== src/GridLayout/Visit/Places.antt =====
-- The walk that lays out the cells gives each of them the rectangle of `GridLayoutGetCellRect`,
-- and passes over the splitters only.
use ministudo_guibuilder.Prelude.{
  ℕ, zero, suc, ◌+◌, ◌<◌, ◌≡◌, sym, ap, ◌∙◌, inl, inr, false, Option, none, some, List, arith,
  Bool-cases, All, All-append,
}
use ministudo_guibuilder.Prelude.Int.{ℤ, pos, ◌+ℤ◌, +ℤ_parts, eq_of_parts}
use ministudo_guibuilder.Prelude.Access.{ok}
use ministudo_guibuilder.GridLayout.Units.{LayoutUnit}
use ministudo_guibuilder.GridLayout.State.{GridLayout}
use ministudo_guibuilder.GridLayout.Cells.{IsValid, HasUnits}
use ministudo_guibuilder.GridLayout.Position.{
  unit_start, unit_size, get_pos_from_unit, cell_rect, cell_left, cell_top,
  grid_layout_get_cell_rect,
}
use ministudo_guibuilder.GridLayout.Position.Index.{get_pos_from_unit-zero}
use ministudo_guibuilder.GridLayout.Position.Rects.{get_pos_from_unit-suc}
use ministudo_guibuilder.GridLayout.Visit.{Visit, divides_by_zero, deal_cell_with_position}
use ministudo_guibuilder.GridLayout.Visit.InRange.{
  is_spliter, row_extent, col_extent, row_visits, col_visits, deal_cell_with_position-ok,
}

unit_start-zero :
    (units : Option (List LayoutUnit)) (extent cnt : ℕ) → unit_start units extent cnt 0 ≡ 0
unfolding unit_start
unit_start-zero none extent cnt = omega arith
unit_start-zero (some us) extent cnt = get_pos_from_unit-zero us

unit_start-suc :
    (units : Option (List LayoutUnit)) (extent cnt i : ℕ)
    → HasUnits units cnt
    → i < cnt
    → unit_start units extent cnt (i + 1)
      ≡ unit_start units extent cnt i + unit_size units extent cnt i
unfolding unit_start unit_size
unit_start-suc none extent cnt i v h = omega arith
unit_start-suc (some us) extent cnt i v h =
    ap (get_pos_from_unit us) (omega arith) ∙ get_pos_from_unit-suc us i (omega arith)

next_edge : (edge : ℤ) (a b : ℕ) → edge +ℤ pos a +ℤ pos b ≡ edge +ℤ pos (a + b)
next_edge edge a b = eq_of_parts _ _ (omega (arith, +ℤ_parts))

first_edge : (edge : ℤ) (n : ℕ) → n ≡ 0 → edge +ℤ pos n ≡ edge
first_edge edge n h = eq_of_parts _ _ (omega (arith, +ℤ_parts))

module _ (g : GridLayout) (v : IsValid g) where
  -- A visit of a cell that is no splitter, with the rectangle of the cell.
  pub record Placed (w : Visit) : Type 0 where
    pub in_rows : w.row < g.row_cnt
    pub in_cols : w.col < g.col_cnt
    pub row_open : is_spliter g.row_height w.row ≡ false
    pub col_open : is_spliter g.col_width w.col ≡ false
    pub rect_eq : grid_layout_get_cell_rect g (pos w.row) (pos w.col) ≡ some w.rect

  next_top :
      (row : ℕ) → row < g.row_cnt → cell_top g row +ℤ pos (row_extent g row) ≡ cell_top g (row + 1)
  next_top row h =
      next_edge g.y _ _
      ∙ ap (λ n. g.y +ℤ pos n)
          (sym (unit_start-suc g.row_height g.height g.row_cnt row v.row_units h))

  next_left :
      (col : ℕ)
      → col < g.col_cnt
      → cell_left g col +ℤ pos (col_extent g col) ≡ cell_left g (col + 1)
  next_left col h =
      next_edge g.x _ _
      ∙ ap (λ n. g.x +ℤ pos n)
          (sym (unit_start-suc g.col_width g.width g.col_cnt col v.col_units h))

  get_cell_rect_eq :
      (row col : ℕ)
      → row < g.row_cnt
      → col < g.col_cnt
      → grid_layout_get_cell_rect g (pos row) (pos col) ≡ some (cell_rect g row col)
  unfolding grid_layout_get_cell_rect
  get_cell_rect_eq row col hr hc = ground arith

  same_rect :
      (row col : ℕ) (top : ℤ)
      → top ≡ cell_top g row
      → cell_rect g row col ≡ record {
        left = cell_left g col;
        top = top;
        right = cell_left g col +ℤ pos (col_extent g col);
        bottom = top +ℤ pos (row_extent g row);
      }
  same_rect row col top e = rw e

  row_visits-Placed :
      (col : ℕ) (n row : ℕ) (top : ℤ)
      → col < g.col_cnt
      → is_spliter g.col_width col ≡ false
      → row + n ≡ g.row_cnt
      → top ≡ cell_top g row
      → All Placed
          (row_visits g col (cell_left g col) (cell_left g col +ℤ pos (col_extent g col)) n row top)
  unfolding row_visits
  row_visits-Placed col zero row top hc open' e et = tt
  row_visits-Placed col (suc n) row top hc open' e et =
      let bottom : top +ℤ pos (row_extent g row) ≡ cell_top g (row + 1) =
        rw et (next_top row (omega arith)) in
      let later = row_visits-Placed col n (row + 1) _ hc open' (omega arith) bottom in
      elim (Bool-cases (is_spliter g.row_height row)) [
        | inl bar ↦ rw bar later
        | inr cell ↦ rw cell (
          record {
            in_rows = omega arith;
            in_cols = hc;
            row_open = cell;
            col_open = open';
            rect_eq =
                get_cell_rect_eq row col (omega arith) hc ∙ ap some (same_rect row col top et);
          },
          later,
        )
      ]

  col_visits-Placed :
      (n col : ℕ) (left : ℤ)
      → col + n ≡ g.col_cnt
      → left ≡ cell_left g col
      → All Placed (col_visits g n col left)
  unfolding col_visits
  col_visits-Placed zero col left e el = tt
  col_visits-Placed (suc n) col left e el =
      let right : left +ℤ pos (col_extent g col) ≡ cell_left g (col + 1) =
        rw el (next_left col (omega arith)) in
      let later = col_visits-Placed n (col + 1) _ (omega arith) right in
      elim (Bool-cases (is_spliter g.col_width col)) [
        | inl bar ↦ rw bar later
        | inr cells ↦ rw cells (
            All-append Placed _ _
              (rw el (
                row_visits-Placed col g.row_cnt 0 g.y (omega arith) cells (omega arith)
                  (sym (first_edge g.y _ (unit_start-zero g.row_height g.height g.row_cnt)))))
              later)
      ]

  -- Unless an average over no rows or no columns is asked for, the walk that moves the cells comes
  -- to its end; it calls back for cells outside the splitters only, each with the very rectangle
  -- that `GridLayoutGetCellRect` gives for its row and column.
  pub deal_cell_with_position-Placed :
      divides_by_zero g ≡ false
      → (vs : List Visit) × (deal_cell_with_position g ≡ ok vs) × All Placed vs
  deal_cell_with_position-Placed fine = (
    col_visits g g.col_cnt 0 g.x,
    deal_cell_with_position-ok g v fine,
    col_visits-Placed g.col_cnt 0 g.x (omega arith)
        (sym (first_edge g.x _ (unit_start-zero g.col_width g.width g.col_cnt))),
  )
