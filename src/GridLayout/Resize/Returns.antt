-- ===== src/GridLayout/Resize/Returns.antt =====
-- `SetGridLayoutRect` comes to an end on layouts that are nested to a finite depth.
use mathlib.Core.Option
use ministudo_guibuilder.Prelude.{
  ℕ, zero, suc, ◌≡◌, ◌≢◌, ◌⊎◌, Bool, false, Option, some, [], get_or,
}
use ministudo_guibuilder.Prelude.Int.{ℤ}
use ministudo_guibuilder.GridLayout.State.{GridCell, GridLayout, empty_cell, gct_grid}
use ministudo_guibuilder.GridLayout.Visit.{Visit}
use ministudo_guibuilder.GridLayout.Resize.{World, Run, done, crash, out_of_fuel}
use ministudo_guibuilder.GridLayout.Resize.Shape.{Shape, shapes, IsShape}

-- The run ends normally, with a result that satisfies `P`.
abbrev pub Returns : Run → (World → Type 0) → Type 0
Returns (done w) P = P w
Returns crash P = ⊥
Returns out_of_fuel P = ⊥

abbrev pub nested_cell : Shape → ℕ → ℕ → GridCell
nested_cell s r c = get_or (get_or s.cells c []) r empty_cell

-- The layout at `p`, if there is one, is nested at most `d` deep: its grid cells hold NULL or
-- layouts nested one less. Its tables and cells are as long as its counts say, and no average size
-- over no rows or columns is asked for.
abbrev pub Nested : ℕ → (ℕ → Option Shape) → ℕ → Type 0
Nested zero S p = p ≡ 0
Nested (suc d) S p =
    (p ≡ 0)
    ⊎ ((s : Shape) × (S p ≡ some s)
        × (s.zero_division ≡ false)
        × IsShape s
        × ((r c : ℕ)
            → (nested_cell s r c).kind ≡ gct_grid
            → Nested d S (nested_cell s r c).content))

abbrev pub Keeps : World → World → Type 0
Keeps w w' = shapes w' ≡ shapes w

module _ (is_window has_set_rect : ℕ → Bool) where
  -- A call for a nested grid that ends, keeping the shapes.
  abbrev Ends : ℕ → (World → ℕ → ℤ → ℤ → ℤ → ℤ → Run) → Type 0
  Ends d set_rect =
      (w : World) (p : ℕ) (x y width height : ℤ)
      → Nested d (shapes w) p
      → p ≢ 0
      → Returns (set_rect w p x y width height) (Keeps w)

  -- The condition on the nested grids, for a layout and the shapes around it.
  abbrev CellsNested : ℕ → (ℕ → Option Shape) → Shape → Type 0
  CellsNested d S s =
      (r c : ℕ) → (nested_cell s r c).kind ≡ gct_grid → Nested d S (nested_cell s r c).content
