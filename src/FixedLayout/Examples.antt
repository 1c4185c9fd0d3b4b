-- ===== src/FixedLayout/Examples.antt =====
-- A fixed layout with one window, runs of the code on it, and the theorems there.
use ministudo_guibuilder.Prelude.{
  ℕ, ◌≤◌, ◌≡◌, ◌≢◌, refl, inl, inr, Bool, true, none, some, [], ◌∷◌, arith,
}
use ministudo_guibuilder.Prelude.Int.{ℤ, pos, negsuc, ◌+ℤ◌, ◌-ℤ◌, ◌*ℤ◌, ◌/ℤ◌, wrap}
use ministudo_guibuilder.Prelude.Access.{ok, fault}
use ministudo_guibuilder.GridLayout.Units.{LayoutUnit}
use ministudo_guibuilder.GridLayout.Resize.{World, move_window}
use ministudo_guibuilder.FixedLayout.Cells.{
  CellRect, FixedCell, FixedLayout, Heap, put_fixed, fixed_layout_init, fixed_layout_insert,
  clear_loop, fixed_layout_clear, out_of_fuel, fixedlayout_show,
}
use ministudo_guibuilder.FixedLayout.Place.{
  calca_size, fixed_layout_calca, fixed_layout_calcsize, Store, fixed_layout_move_cell, place_loop,
  fixedlayout_set_rect,
}
use ministudo_guibuilder.FixedLayout.Sizes.{fixed_layout_calca-inside}
use ministudo_guibuilder.FixedLayout.Lists.{
  Linked, fixed_layout_insert-Linked, fixedlayout_show_endless, fixed_layout_clear_freed,
}
use ministudo_guibuilder.FixedLayout.Finishes.{Finishes}

program : Unit {0}
unfolding ◌+ℤ◌ ◌-ℤ◌ ◌*ℤ◌ ◌/ℤ◌ wrap fixed_layout_insert clear_loop fixed_layout_clear
    fixedlayout_show calca_size fixed_layout_calca fixed_layout_calcsize fixed_layout_move_cell
    place_loop fixedlayout_set_rect
program = tt

abbrev pixels : ℤ → LayoutUnit
pixels n = record { kind = 0; logic_size = n; current_size = 0 }

-- Ten pixels from the left, a quarter down; up to twenty pixels from the right, half as high.
abbrev place : CellRect
place = record {
  x = pixels (pos 10);
  y = record { kind = 1; logic_size = pos 25; current_size = 0 };
  w = pixels (negsuc 19);
  h = record { kind = 1; logic_size = pos 50; current_size = 0 };
}

abbrev button : FixedCell
button = record { rect = place; cell_type = 1; content = 7; next = 0 }

abbrev empty_heap : Heap
empty_heap p = none

abbrev one_cell : Heap
one_cell = put_fixed empty_heap 5 button

abbrev layout : FixedLayout
layout = record fixed_layout_init { head = 5 }

abbrev no_grids : World
no_grids = record { grids = λ p. none; requests = [] }

abbrev store : Store
store = record { cells = one_cell; world = no_grids }

abbrev every : ℕ → Bool
every p = true

insert_runs :
    fixed_layout_insert empty_heap fixed_layout_init 5 (pos 1) (some place) 7
    ≡ ok (true, one_cell, layout)
unfolding program
insert_runs = refl

set_rect_runs :
    Finishes
      (fixedlayout_set_rect every every 1 2 store layout (pos 100) (pos 0) (pos 300) (pos 200)).1
      (λ s. s.world.requests ≡ move_window 7 (pos 110) (pos 50) (pos 280) (pos 100) ∷ [])
unfolding program
set_rect_runs = refl

fixed_layout_calca-inside_example :
    (100 ≤ (fixed_layout_calca (pos 100) (pos 400) (pixels (negsuc 19))).current_size)
    × ((fixed_layout_calca (pos 100) (pos 400) (pixels (negsuc 19))).current_size ≤ 400)
fixed_layout_calca-inside_example =
    fixed_layout_calca-inside 100 300 (pixels (negsuc 19)) (omega arith)
      (inl (refl, (omega arith, omega arith)))

fixed_layout_insert-Linked_example :
    (cells' : Heap) × (pfl' : FixedLayout) × (fixed_layout_insert one_cell layout 6
        (pos 2)
        (some place)
        8
      ≡ ok (true, cells', pfl'))
    × (cells' pfl'.head ≡ some (record { rect = place; cell_type = 2; content = 8; next = 5 }))
    × ((q : ℕ) → q ≢ 6 → cells' q ≡ one_cell q)
    × Linked cells' 1 5
    × Linked cells' 2 pfl'.head
fixed_layout_insert-Linked_example =
    fixed_layout_insert-Linked one_cell layout 6 2 8 1 place (omega arith) refl (omega arith)
      (omega arith) (omega arith) (inr (button, refl, refl))

fixedlayout_show_endless_example : fixedlayout_show every 1000 one_cell 5 true ≡ out_of_fuel
fixedlayout_show_endless_example =
    fixedlayout_show_endless every one_cell 5 button true (omega arith) refl 1000

fixed_layout_clear_freed_example : fixed_layout_clear 2 one_cell layout ≡ fault
fixed_layout_clear_freed_example = fixed_layout_clear_freed 1 one_cell layout (omega arith)
