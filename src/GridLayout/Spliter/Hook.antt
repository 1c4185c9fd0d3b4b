-- ===== src/GridLayout/Spliter/Hook.antt =====
-- `GridLayoutHookProc` of mgfc/gridlayout.c: what a window with a layout does with its messages.
use ministudo_guibuilder.Prelude.{ℕ, Bool, false, [], ◌==◌, if◌then◌else◌}
use ministudo_guibuilder.Prelude.Int.{ℤ, pos}
use ministudo_guibuilder.GridLayout.Resize.{World, Run, set_grid_layout_rect}
use ministudo_guibuilder.GridLayout.Spliter.Drag.{Message, Drag, Outcome, result, process_spliter}

-- MSG_CSIZECHANGED with the new size, or a message with a point.
pub data WindowMessage : Type 0 where
  size_changed : (width height : ℤ) → WindowMessage
  message : Message → (x y : ℤ) → WindowMessage

-- SetGridLayoutRect returns nothing; the answer is 0.
abbrev pub resized : Drag → Run → Outcome
resized d (Run.done w) = result false d w []
resized d Run.crash = Outcome.crash
resized d Run.out_of_fuel = Outcome.out_of_fuel

-- Code outside, as in `process_spliter`.
module _ (is_window has_set_rect : ℕ → Bool) (to_gridlayout : ℕ → ℕ)
    (client_x client_y : ℤ → ℤ) where
  abbrev pub dispatch : ℕ → World → Drag → ℕ → WindowMessage → Outcome
  dispatch fuel w d p (size_changed width height) =
      resized d (set_grid_layout_rect is_window has_set_rect fuel w p (pos 0) (pos 0) width height)
  dispatch fuel w d p (message msg x y) =
      process_spliter is_window has_set_rect to_gridlayout client_x client_y fuel w d p msg x y

  unfoldable pub grid_layout_hook_proc : ℕ → World → Drag → ℕ → WindowMessage → Outcome
  grid_layout_hook_proc fuel w d p m = if p == 0 then result false d w [] else dispatch fuel w d p m
