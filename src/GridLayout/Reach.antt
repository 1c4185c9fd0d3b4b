-- ===== src/GridLayout/Reach.antt =====
-- All layouts that the functions of mgfc/gridlayout.c can make of a new one.
use mathlib.Core.Path.{subst}
use ministudo_guibuilder.Prelude.{
  ℕ, ◌≡◌, refl, sym, inl, inr, Bool, ◌||◌, none, some, Bool-cases, some-inj,
}
use ministudo_guibuilder.Prelude.Int.{ℤ, pos, pos_part, leb_ℤ}
use ministudo_guibuilder.Prelude.Access.{ok, Ensures-ok}
use ministudo_guibuilder.GridLayout.State.{
  GridLayout, zero_layout, init_grid_layout, create_grid_layout, grid_layout_set_row_height,
  grid_layout_set_col_width, grid_layout_set_cell, grid_layout_remove,
}
use ministudo_guibuilder.GridLayout.Cells.{
  IsValid, init_grid_layout-IsValid, set_row_height-IsValid, set_col_width-IsValid,
  set_cell-IsValid, remove-IsValid,
}
use ministudo_guibuilder.GridLayout.Resize.{place_grid}
use ministudo_guibuilder.GridLayout.Resize.Shape.{place_grid-IsValid}
use ministudo_guibuilder.GridLayout.Spliter.{update_spliter_size}
use ministudo_guibuilder.GridLayout.Spliter.Valid.{update_spliter_size-IsValid}

-- One call that changes a layout and does not crash, with any arguments; `InitGridLayout`, which keeps
-- the tables of units, of a layout without any.
pub data Step (g g' : GridLayout) : Type 0 where
  row_height : (row kind size : ℤ) → g' ≡ grid_layout_set_row_height g row kind size → Step g g'
  col_width : (col kind size : ℤ) → g' ≡ grid_layout_set_col_width g col kind size → Step g g'
  set_cell :
      (row col kind : ℤ) (content old : ℕ)
      → grid_layout_set_cell g row col kind content ≡ ok (old, g')
      → Step g g'
  remove : (row col : ℤ) (old : ℕ) → grid_layout_remove g row col ≡ ok (old, g') → Step g g'
  place : (x y : ℤ) (width height : ℕ) → g' ≡ place_grid g x y width height → Step g g'
  init :
      (rows cols : ℕ)
      → g.row_height ≡ none
      → g.col_width ≡ none
      → g' ≡ init_grid_layout g rows cols
      → Step g g'
  drag : (horz : Bool) (idx : ℕ) (x y : ℤ) → update_spliter_size g horz idx x y ≡ ok g' → Step g g'

pub data Reach : GridLayout → Type 0 where
  create : {g : GridLayout} (rows cols : ℤ) → create_grid_layout rows cols ≡ some g → Reach g
  next : {g g' : GridLayout} → Reach g → Step g g' → Reach g'

Step-IsValid : {g g' : GridLayout} → Step g g' → IsValid g → IsValid g'
Step-IsValid {g} (row_height row kind size e) v =
    subst IsValid (sym e) (set_row_height-IsValid g row kind size v)
Step-IsValid {g} (col_width col kind size e) v =
    subst IsValid (sym e) (set_col_width-IsValid g col kind size v)
Step-IsValid {g} (set_cell row col kind content old e) v =
    set_cell-IsValid g row col kind content v e
Step-IsValid {g} (remove row col old e) v = remove-IsValid g row col v e
Step-IsValid {g} (place x y w h e) v = subst IsValid (sym e) (place_grid-IsValid g x y w h v)
Step-IsValid {g} (init rows cols hr hc e) v =
    subst IsValid (sym e) (init_grid_layout-IsValid g rows cols hr hc)
Step-IsValid {g} (drag horz idx x y e) v =
    Ensures-ok (update_spliter_size g horz idx x y) IsValid
      (update_spliter_size-IsValid g horz idx x y v) e

create-IsValid :
    (rows cols : ℤ) {g : GridLayout} → create_grid_layout rows cols ≡ some g → IsValid g
unfolding create_grid_layout
create-IsValid rows cols h = elim (Bool-cases (leb_ℤ rows (pos 0) || leb_ℤ cols (pos 0))) [
  | inl bad ↦ absurd (cc (rw bad at h))
  | inr good ↦
      subst IsValid (some-inj (rw good at h))
        (init_grid_layout-IsValid zero_layout (pos_part rows) (pos_part cols) refl refl)
]

-- Every layout that `CreateGridLayout` makes and that any sequence of calls of `GridLayoutSetRowHeight`,
-- `GridLayoutSetColWidth`, `GridLayoutSetCell`, `GridLayoutRemove`, `SetGridLayoutRect` and
-- `updateSpliterSize` then changes, and of `InitGridLayout` while it has no table of units, has as many
-- columns of cells, cells in each column, and units in its tables as its counts say.
pub Reach-IsValid : {g : GridLayout} → Reach g → IsValid g
Reach-IsValid (create rows cols e) = create-IsValid rows cols e
Reach-IsValid (next r s) = Step-IsValid s (Reach-IsValid r)
