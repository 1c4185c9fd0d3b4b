-- ===== src/FixedLayout/Finishes.antt =====
-- `_fixedlayout_setRect` of mgfc/fixedlayout.c comes to an end.
use ministudo_guibuilder.Prelude.{ℕ, ◌≡◌, Bool, Option, some}
use ministudo_guibuilder.GridLayout.State.{gct_grid}
use ministudo_guibuilder.GridLayout.Position.{Rect}
use ministudo_guibuilder.GridLayout.Resize.Shape.{Shape, shapes}
use ministudo_guibuilder.GridLayout.Resize.Returns.{Nested, Returns}
use ministudo_guibuilder.FixedLayout.Cells.{FixedCell, FixedLayout, Heap}
use ministudo_guibuilder.FixedLayout.Place.{Store, FixedRun, done, crash, out_of_fuel}
use ministudo_guibuilder.FixedLayout.Given.{Frame, AllGiven}

abbrev pub Finishes : FixedRun → (Store → Type 0) → Type 0
Finishes (done s) P = P s
Finishes crash P = ⊥
Finishes out_of_fuel P = ⊥

-- The grids in all cells are nested `depth` deep at most.
abbrev pub GridsNested : ℕ → (ℕ → Option Shape) → Heap → Type 0
GridsNested depth S cells =
    (p : ℕ) (c : FixedCell) → cells p ≡ some c → c.cell_type ≡ gct_grid → Nested depth S c.content

module _ (is_window has_set_rect : ℕ → Bool) (d : ℕ) where
  -- What the loop from `p` on leaves behind.
  abbrev Gave : Rect → ℕ → ℕ → Store → Store → Type 0
  Gave r n p s s' =
      (shapes s'.world ≡ shapes s.world)
      × Frame r s.cells s'.cells
      × AllGiven r s.cells s'.cells n p
