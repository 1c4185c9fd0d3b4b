-- ===== src/GridLayout/DestroyExamples.antt =====
-- Deleting nested layouts of mgfc/gridlayout.c, and the theorem about removed user cells there.
use ministudo_guibuilder.Prelude.{
  ℕ, ◌≡◌, ◌≢◌, refl, Bool, true, Option, none, some, List, [], ◌∷◌, ◌==◌, if◌then◌else◌, arith,
}
use ministudo_guibuilder.Prelude.Int.{pos}
use ministudo_guibuilder.Prelude.Access.{ok}
use ministudo_guibuilder.Prelude.Run.{Run, done, crash, out_of_fuel}
use ministudo_guibuilder.GridLayout.State.{
  GridCell, GridLayout, zero_layout, gct_hwnd, gct_grid, gct_user, out_of_grid, grid_layout_remove,
}
use ministudo_guibuilder.GridLayout.Destroy.{
  Heap, free_rows, free_cols, cleanup_grid_layout, free_cell_default, delete_grid_layout,
}
use ministudo_guibuilder.GridLayout.Destroy.Removed.{delete_removed}

program : Unit {0}
unfolding free_rows free_cols cleanup_grid_layout free_cell_default delete_grid_layout out_of_grid
    grid_layout_remove
program = tt

abbrev holding : ℕ → ℕ → GridCell
holding kind content = record { kind = kind; content = content }

-- One row of two cells: a window and a user cell; and a layout with the first one in both cells.
abbrev row_of : GridCell → GridCell → GridLayout
row_of a b = record zero_layout { row_cnt = 1; col_cnt = 2; cells = (a ∷ []) ∷ (b ∷ []) ∷ [] }

abbrev inner : GridLayout
inner = row_of (holding gct_hwnd 7) (holding gct_user 9)

abbrev emptied : GridLayout
emptied = row_of (holding gct_hwnd 7) (holding gct_user 0)

abbrev memory : GridLayout → GridLayout → Heap
memory first second = record {
  grids = λ p. if p == 1 then some first else if p == 2 then some second else none;
  freed_users = [];
}

abbrev users_freed : Run Heap → Option (List ℕ)
users_freed (done h) = some h.freed_users
users_freed crash = none
users_freed out_of_fuel = none

abbrev every : ℕ → Bool
every p = true

-- A nested layout is deleted with the one that holds it.
nested_runs :
    users_freed (
      delete_grid_layout every 3 2
        (memory inner (row_of (holding gct_user 8) (holding gct_grid 1))))
    ≡ some (8 ∷ 9 ∷ [])
unfolding program
nested_runs = refl

-- One that stands in two cells is used after it has been freed.
shared_runs :
    delete_grid_layout every 3 2 (memory inner (row_of (holding gct_grid 1) (holding gct_grid 1)))
    ≡ crash
unfolding program
shared_runs = refl

removed_runs : grid_layout_remove inner (pos 0) (pos 1) ≡ ok (9, emptied)
unfolding program
removed_runs = refl

delete_removed_example :
    delete_grid_layout every 5 1 (memory emptied inner) ≢ done (memory inner inner)
delete_removed_example =
    delete_removed every 5 1 (memory emptied inner) (memory inner inner) inner 0 1
      (holding gct_user 9 ∷ []) (holding gct_user 9) (9, emptied) (omega arith) (omega arith) refl
      refl refl removed_runs (omega arith) refl
