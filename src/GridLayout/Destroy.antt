-- ===== src/GridLayout/Destroy.antt =====
-- `CleanupGridLayout`, `DeleteGridLayout` and `free_cell_default` of mgfc/gridlayout.c, on the layouts
-- that are in memory. What a call frees is gone: to use it again is a crash. Deleting descends on fuel,
-- one unit for each level.
pub mod Removed
use ministudo_guibuilder.Prelude.{
  ℕ, zero, suc, ◌+◌, Bool, true, false, Option, none, some, List, [], ◌∷◌, ◌++◌, ◌==◌,
  if◌then◌else◌, get_elem?,
}
use ministudo_guibuilder.Prelude.Run.{Run, done, crash, out_of_fuel, then_run, element}
use ministudo_guibuilder.GridLayout.State.{GridCell, GridLayout, gct_grid, gct_user}

-- The layouts in memory, and the user cells whose function `free` has been called, in order.
pub record Heap : Type 0 where
  pub grids : ℕ → Option GridLayout
  pub freed_users : List ℕ

abbrev pub without : ℕ → Heap → Heap
without p h = record h { grids = λ q. if q == p then none else h.grids q }

abbrev pub freeing : ℕ → Heap → Heap
freeing user h = record h { freed_users = h.freed_users ++ user ∷ [] }

-- `(*free_cell)(&cell)`.
abbrev pub FreeCell : Type 0
FreeCell = GridCell → Heap → Run Heap

-- The two loops of `CleanupGridLayout`: `n` more rows or columns.
unfoldable pub free_rows : FreeCell → List GridCell → ℕ → ℕ → Heap → Run Heap
free_rows free_cell column row zero h = done h
free_rows free_cell column row (suc n) h =
    element (get_elem? column row)
      (λ c. then_run (free_cell c h) (free_rows free_cell column (row + 1) n))

unfoldable pub free_cols : FreeCell → GridLayout → ℕ → ℕ → Heap → Run Heap
free_cols free_cell g col zero h = done h
free_cols free_cell g col (suc n) h = element (get_elem? g.cells col) (λ column.
    then_run (free_rows free_cell column 0 g.row_cnt h) (free_cols free_cell g (col + 1) n))

unfoldable pub cleanup_grid_layout : FreeCell → GridLayout → Heap → Run Heap
cleanup_grid_layout free_cell g h = free_cols free_cell g 0 g.col_cnt h

-- Whether a user cell has a type with a function `free` is not decided here.
module _ (has_free : ℕ → Bool) where
  -- `DeleteGridLayout(cell->data.grid, NULL)` is the first argument.
  unfoldable pub free_cell_default : (ℕ → Heap → Run Heap) → FreeCell
  free_cell_default deeper c h =
      if c.kind == gct_grid
      then deeper c.content h
      else if c.kind == gct_user
      then (if c.content == 0
          then crash
          else if has_free c.content
          then done (freeing c.content h)
          else done h)
      else done h

  -- `DeleteGridLayout(playout, NULL)`.
  unfoldable pub delete_grid_layout : ℕ → ℕ → Heap → Run Heap
  delete_grid_layout zero p h = out_of_fuel
  delete_grid_layout (suc fuel) p h =
      let go = element (h.grids p) (λ g.
        then_run (cleanup_grid_layout (free_cell_default (delete_grid_layout fuel)) g h)
          (λ h'. done (without p h'))) in
      if p == 0 then done h else go
