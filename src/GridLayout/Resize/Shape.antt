-- ===== src/GridLayout/Resize/Shape.antt =====
-- `SetGridLayoutRect` leaves the shape of every layout alone: its cells and its counts, and
-- whether its rows and columns have tables.
use mathlib.Core.Option
use mathlib.Core.Path.{fun_ext}
use ministudo_guibuilder.Prelude.{
  ℕ, ◌≡◌, refl, ap, ◌∙◌, inl, inr, Bool, ◌&&◌, Option, none, some, List, arith, length, All, ◌==◌,
  Bool-cases,
}
use ministudo_guibuilder.Prelude.Int.{ℤ, pos}
use ministudo_guibuilder.GridLayout.Units.{LayoutUnit}
use ministudo_guibuilder.GridLayout.State.{GridCell, GridLayout}
use ministudo_guibuilder.GridLayout.Visit.{divides_by_zero, no_average}
use ministudo_guibuilder.GridLayout.Cells.{IsValid, HasUnits, length-recalca_units}
use ministudo_guibuilder.GridLayout.Resize.{World, put_grid, recalca, place_grid}

recalca-HasUnits :
    (units : Option (List LayoutUnit)) (n cnt : ℕ)
    → HasUnits units cnt
    → HasUnits (recalca units n) cnt
recalca-HasUnits none n cnt h = tt
recalca-HasUnits (some us) n cnt h = length-recalca_units us (pos n) ∙ h

-- Placing a layout keeps it well formed.
pub place_grid-IsValid :
    (g : GridLayout) (x y : ℤ) (w h : ℕ) → IsValid g → IsValid (place_grid g x y w h)
unfolding place_grid
place_grid-IsValid g x y w h v = elim (Bool-cases (w == g.width && h == g.height)) [
  | inl same ↦ rw same (record {
    columns = v.columns;
    column_lengths = v.column_lengths;
    row_units = v.row_units;
    col_units = v.col_units;
  })
  | inr new ↦ rw new (record {
    columns = v.columns;
    column_lengths = v.column_lengths;
    row_units = recalca-HasUnits g.row_height h g.row_cnt v.row_units;
    col_units = recalca-HasUnits g.col_width w g.col_cnt v.col_units;
  })
]

-- What stays: the cells and counts, how long the tables of units are, and whether an average over
-- nothing is asked for.
pub record Shape : Type 0 where
  pub cells : List (List GridCell)
  pub rows : ℕ
  pub cols : ℕ
  pub row_units : Option ℕ
  pub col_units : Option ℕ
  pub zero_division : Bool

abbrev pub shape : GridLayout → Shape
shape g = record {
  cells = g.cells;
  rows = g.row_cnt;
  cols = g.col_cnt;
  row_units = Option.map length g.row_height;
  col_units = Option.map length g.col_width;
  zero_division = divides_by_zero g;
}

abbrev pub shapes : World → ℕ → Option Shape
shapes w p = Option.map shape (w.grids p)

no_average-recalca :
    (units : Option (List LayoutUnit)) (n cnt : ℕ)
    → no_average (recalca units n) cnt ≡ no_average units cnt
no_average-recalca none n cnt = refl
no_average-recalca (some us) n cnt = refl

units-recalca :
    (units : Option (List LayoutUnit)) (n : ℕ)
    → Option.map length (recalca units n) ≡ Option.map length units
units-recalca none n = refl
units-recalca (some us) n = ap some (length-recalca_units us (pos n))

-- A table with `n` units, if there is one.
abbrev HasCount : Option ℕ → ℕ → Type 0
HasCount none n = Unit {0}
HasCount (some k) n = k ≡ n

-- The shape of a layout that is well formed.
abbrev pub IsShape : Shape → Type 0
IsShape s =
    (length s.cells ≡ s.cols)
    × All (λ c. length c ≡ s.rows) s.cells
    × HasCount s.row_units s.rows
    × HasCount s.col_units s.cols

HasUnits-count :
    (units : Option (List LayoutUnit)) (n : ℕ)
    → HasCount (Option.map length units) n
    → HasUnits units n
HasUnits-count none n h = h
HasUnits-count (some us) n h = h

pub shape-IsValid : (g : GridLayout) → IsShape (shape g) → IsValid g
shape-IsValid g (columns, rows, row_units, col_units) = record {
  columns = columns;
  column_lengths = rows;
  row_units = HasUnits-count g.row_height g.row_cnt row_units;
  col_units = HasUnits-count g.col_width g.col_cnt col_units;
}

pub shape-place_grid : (g : GridLayout) (x y : ℤ) (w h : ℕ) → shape (place_grid g x y w h) ≡ shape g
unfolding place_grid divides_by_zero
shape-place_grid g x y w h = elim (Bool-cases (w == g.width && h == g.height)) [
  | inl same ↦ rw same
  | inr new ↦ rw (
    new,
    no_average-recalca g.col_width w g.col_cnt,
    no_average-recalca g.row_height h g.row_cnt,
    units-recalca g.col_width w,
    units-recalca g.row_height h,
  )
]

-- Writing back a layout that has been placed changes no shape.
pub shapes-put_grid :
    (w : World) (p : ℕ) (g : GridLayout) (x y : ℤ) (width height : ℕ)
    → w.grids p ≡ some g
    → shapes (put_grid w p (place_grid g x y width height)) ≡ shapes w
shapes-put_grid w p g x y width height e = fun_ext λ q. elim (Bool-cases (q == p)) [
  | inl here ↦
      let eq' : q ≡ p = ground arith in
      rw (here, eq', e) (ap some (shape-place_grid g x y width height))
  | inr other ↦ rw other
]
