-- ===== src/GridLayout/Cells.antt =====
-- The cell functions of mgfc/gridlayout.c on a well-formed layout.
pub mod Contents
use ministudo_guibuilder.Prelude.{
  ℕ, zero, suc, ◌+◌, ◌≤◌, ◌<◌, ◌≡◌, refl, sym, ap, ◌∙◌, ◌≢◌, ◌⊎◌, inl, inr, Bool, true, false, ◌&&◌,
  ◌||◌, Option, none, some, List, [], ◌∷◌, map, arith, ltb, ◌==◌, if◌then◌else◌, Bool-cases,
  Option-cases, length, get_elem?, modify, replicate, length-map, length-modify, length-replicate,
  get_elem?-some, get_elem?-lt, get_elem?-modify_self, get_elem?-modify_ne, All, All-get_elem?,
  All-modify, All-replicate,
}
use mathlib.Core.Path.{subst}
use ministudo_guibuilder.Prelude.Int.{ℤ, pos, negsuc, pos_part, ltb_ℤ, leb_ℤ}
use ministudo_guibuilder.Prelude.Access.{
  Access, ok, fault, ◌>>=◌, of_option, read, Ensures, Ensures-bind, Ensures-if, Ensures-ok, read-ok,
}
use ministudo_guibuilder.GridLayout.Units.{LayoutUnit, lut_spliter, zero_unit, recalca_units}
use ministudo_guibuilder.GridLayout.Units.Shape.{request, recalca_units-request}
use ministudo_guibuilder.GridLayout.State.{
  GridCell, GridLayout, gct_unknown, gct_max, empty_cell, init_grid_layout, create_grid_layout,
  request_at, allocated, set_unit_size, grid_layout_set_row_height, grid_layout_set_col_width,
  is_spliter_at, out_of_grid, refuses, cell_at, put_cell, grid_layout_get_cell,
  grid_layout_set_cell, grid_layout_remove,
}

-- A table of `n` units, if there is one.
abbrev pub HasUnits : Option (List LayoutUnit) → ℕ → Type 0
HasUnits none n = Unit {0}
HasUnits (some us) n = length us ≡ n

-- The arrays are as long as the counts say.
pub record IsValid (g : GridLayout) : Type 0 where
  pub columns : length g.cells ≡ g.col_cnt
  pub column_lengths : All (λ c. length c ≡ g.row_cnt) g.cells
  pub row_units : HasUnits g.row_height g.row_cnt
  pub col_units : HasUnits g.col_width g.col_cnt

pub length-recalca_units : (us : List LayoutUnit) (w : ℤ) → length (recalca_units us w) ≡ length us
length-recalca_units us w =
    sym (length-map (recalca_units us w) request)
    ∙ ap length (recalca_units-request us w)
    ∙ length-map us request

length-request_at :
    (us : List LayoutUnit) (i k : ℕ) (s : ℤ) → length (request_at us i k s) ≡ length us
length-request_at us i k s = length-modify us i _

length-allocated :
    (units : Option (List LayoutUnit)) (n : ℕ) → HasUnits units n → length (allocated units n) ≡ n
length-allocated none n h = length-replicate n zero_unit
length-allocated (some us) n h = h

set_unit_size-HasUnits :
    (units : Option (List LayoutUnit)) (idx : ℤ) (n w : ℕ) (kind size : ℤ)
    → HasUnits units n
    → HasUnits (set_unit_size units idx n w kind size) n
unfolding set_unit_size
set_unit_size-HasUnits units idx n w kind size h =
    elim (Bool-cases (ltb_ℤ idx (pos 0) || leb_ℤ (pos n) idx)) [
      | inl out ↦ rw out h
      | inr in' ↦
          rw in' (length-recalca_units _ _ ∙ length-request_at _ _ _ _ ∙ length-allocated units n h)
    ]

pub init_grid_layout-IsValid :
    (g : GridLayout) (rows cols : ℕ)
    → g.row_height ≡ none
    → g.col_width ≡ none
    → IsValid (init_grid_layout g rows cols)
unfolding init_grid_layout
init_grid_layout-IsValid g rows cols hr hc = record {
  columns = length-replicate cols _;
  column_lengths =
      All-replicate (λ (c : List GridCell). length c ≡ rows) cols _
        (length-replicate rows empty_cell);
  row_units = rw hr tt;
  col_units = rw hc tt;
}

pub set_row_height-IsValid :
    (g : GridLayout) (row kind size : ℤ)
    → IsValid g
    → IsValid (grid_layout_set_row_height g row kind size)
unfolding grid_layout_set_row_height
set_row_height-IsValid g row kind size v = elim (Bool-cases (leb_ℤ (pos g.row_cnt) row)) [
  | inl out ↦ rw out v
  | inr in' ↦ rw in' (record {
    columns = v.columns;
    column_lengths = v.column_lengths;
    row_units = set_unit_size-HasUnits g.row_height row g.row_cnt g.height kind size v.row_units;
    col_units = v.col_units;
  })
]

pub set_col_width-IsValid :
    (g : GridLayout) (col kind size : ℤ)
    → IsValid g
    → IsValid (grid_layout_set_col_width g col kind size)
unfolding grid_layout_set_col_width
set_col_width-IsValid g col kind size v = elim (Bool-cases (leb_ℤ (pos g.col_cnt) col)) [
  | inl out ↦ rw out v
  | inr in' ↦ rw in' (record {
    columns = v.columns;
    column_lengths = v.column_lengths;
    row_units = v.row_units;
    col_units = set_unit_size-HasUnits g.col_width col g.col_cnt g.width kind size v.col_units;
  })
]

-- The guard of the cell functions lets every index pass.
pub out_of_grid-false : (g : GridLayout) (row col : ℤ) → out_of_grid g row col ≡ false
unfolding out_of_grid
out_of_grid-false g row col = ground arith

put_cell-IsValid :
    (g : GridLayout) (row col : ℤ) (c : GridCell) → IsValid g → IsValid (put_cell g row col c)
put_cell-IsValid g row col c v = record {
  columns = length-modify g.cells _ _ ∙ v.columns;
  column_lengths =
      All-modify (λ (d : List GridCell). length d ≡ g.row_cnt) g.cells _ _ v.column_lengths
        (λ d h. length-modify d _ _ ∙ h);
  row_units = v.row_units;
  col_units = v.col_units;
}

-- A write of the cell functions: none, or one into a cell that was read.
abbrev pub Written : GridLayout → ℤ → ℤ → GridLayout → Type 0
Written g row col g' =
    (g' ≡ g) ⊎ ((c d : GridCell) × (cell_at g row col ≡ ok c) × (g' ≡ put_cell g row col d))

pub set_cell-Written :
    (g : GridLayout) (row col kind : ℤ) (content : ℕ)
    → Ensures (grid_layout_set_cell g row col kind content) (λ r. Written g row col r.1)
unfolding grid_layout_set_cell
set_cell-Written g row col kind content = Ensures-bind (refuses g row col) _ _ λ refused _.
    Ensures-if (refused || leb_ℤ kind (pos gct_unknown) || leb_ℤ (pos gct_max) kind) _ _ _
      (inl refl) (Ensures-bind (cell_at g row col) _ _ λ c e. inr (c, _, e, refl))

remove-Written :
    (g : GridLayout) (row col : ℤ)
    → Ensures (grid_layout_remove g row col) (λ r. Written g row col r.1)
unfolding grid_layout_remove
remove-Written g row col =
    Ensures-if (out_of_grid g row col) _ _ _ (inl refl)
      (Ensures-bind (cell_at g row col) _ _ λ c e. inr (c, _, e, refl))

Written-IsValid : (g g' : GridLayout) (row col : ℤ) → IsValid g → Written g row col g' → IsValid g'
Written-IsValid g g' row col v (inl e) = subst IsValid (sym e) v
Written-IsValid g g' row col v (inr (c, d, _, e)) =
    subst IsValid (sym e) (put_cell-IsValid g row col d v)

-- Both functions that write a cell leave the layout well formed.
pub set_cell-IsValid :
    (g : GridLayout) (row col kind : ℤ) (content : ℕ) {old : ℕ} {g' : GridLayout}
    → IsValid g
    → grid_layout_set_cell g row col kind content ≡ ok (old, g')
    → IsValid g'
set_cell-IsValid g row col kind content v h =
    Written-IsValid g _ row col v
      (Ensures-ok _ (λ r. Written g row col r.1) (set_cell-Written g row col kind content) h)

pub remove-IsValid :
    (g : GridLayout) (row col : ℤ) {old : ℕ} {g' : GridLayout}
    → IsValid g
    → grid_layout_remove g row col ≡ ok (old, g')
    → IsValid g'
remove-IsValid g row col v h =
    Written-IsValid g _ row col v
      (Ensures-ok _ (λ r. Written g row col r.1) (remove-Written g row col) h)
