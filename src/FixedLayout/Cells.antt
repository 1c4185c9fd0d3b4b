-- ===== src/FixedLayout/Cells.antt =====
-- The cells of a fixed layout and their list, in mgfc/fixedlayout.c: `FixedLayoutInit`,
-- `FixedLayoutInsert`, `FixedLayoutClear`, and showing the cells. Cells lie at addresses; address 0
-- is NULL, and an address that holds no cell is not allocated.
use ministudo_guibuilder.Prelude.{
  ℕ, zero, suc, Bool, true, false, ◌&&◌, ◌||◌, Option, none, some, List, [], ◌∷◌, ◌==◌,
  if◌then◌else◌,
}
use ministudo_guibuilder.Prelude.Int.{ℤ, pos, pos_part, leb_ℤ}
use ministudo_guibuilder.Prelude.Access.{Access, ok, fault, ◌>>=◌, of_option}
use ministudo_guibuilder.GridLayout.Units.{LayoutUnit}
use ministudo_guibuilder.GridLayout.State.{gct_hwnd, gct_grid, gct_user, gct_max}

pub record CellRect : Type 0 where
  pub x : LayoutUnit
  pub y : LayoutUnit
  pub w : LayoutUnit
  pub h : LayoutUnit

-- `content` is the union `data`: a window or the address of a layout or of a user cell.
pub record FixedCell : Type 0 where
  pub rect : CellRect
  pub cell_type : ℕ
  pub content : ℕ
  pub next : ℕ

pub record FixedLayout : Type 0 where
  pub head : ℕ
  pub x : ℤ
  pub y : ℤ
  pub w : ℤ
  pub h : ℤ

abbrev pub Heap : Type 0
Heap = ℕ → Option FixedCell

abbrev pub put_fixed : Heap → ℕ → FixedCell → Heap
put_fixed cells p c = λ q. if q == p then some c else cells q

abbrev pub free_fixed : Heap → ℕ → Heap
free_fixed cells p = λ q. if q == p then none else cells q

-- `FixedLayoutInit`, without the table of functions.
abbrev pub fixed_layout_init : FixedLayout
fixed_layout_init = record { head = 0; x = pos 0; y = pos 0; w = pos 0; h = pos 0 }

-- `FixedLayoutInsert`, with the address that `malloc` returns. It is not checked, and nothing can
-- be stored at NULL.
unfoldable pub fixed_layout_insert :
    Heap → FixedLayout → ℕ → ℤ → Option CellRect → ℕ → Access (Bool × Heap × FixedLayout)
fixed_layout_insert cells pfl p kind none celldata = ok (false, cells, pfl)
fixed_layout_insert cells pfl p kind (some rect) celldata =
    if celldata == 0 || leb_ℤ kind (pos 0) || leb_ℤ (pos gct_max) kind
    then ok (false, cells, pfl)
    else if p == 0
    then fault
    else ok (
      true,
      put_fixed cells p
          (record { rect = rect; cell_type = pos_part kind; content = celldata; next = pfl.head }),
      record pfl { head = p },
    )

-- The loop of `FixedLayoutClear`: `pcell->next` is read when `pcell` has been freed. On fuel, one
-- unit for each cell.
unfoldable pub clear_loop : ℕ → Heap → ℕ → Access Heap
clear_loop zero cells p = fault
clear_loop (suc fuel) cells p =
    if p == 0
    then ok cells
    else (of_option (free_fixed cells p p) >>= λ c. clear_loop fuel (free_fixed cells p) c.next)

unfoldable pub fixed_layout_clear : ℕ → Heap → FixedLayout → Access (Heap × FixedLayout)
fixed_layout_clear fuel cells pfl =
    clear_loop fuel cells pfl.head >>= λ rest. ok (rest, record pfl { head = 0 })

-- `ShowWindow`, `GridLayoutShow` and the function `show` of a user cell, as they are called.
pub data Show : Type 0 where
  show_window : ℕ → Bool → Show
  show_grid : ℕ → Bool → Show
  show_user : ℕ → Bool → Show

pub data Shown : Type 0 where
  shown : List Show → Shown
  crash : Shown
  out_of_fuel : Shown

abbrev pub then_show : List Show → Shown → Shown
then_show [] s = s
then_show (a ∷ acts) (shown rest) = shown (a ∷ rest)
then_show (a ∷ acts) crash = crash
then_show (a ∷ acts) out_of_fuel = out_of_fuel

module _ (has_show : ℕ → Bool) where
  abbrev pub show_cell : FixedCell → Bool → List Show
  show_cell c visible =
      if c.cell_type == gct_hwnd
      then show_window c.content visible ∷ []
      else if c.cell_type == gct_grid
      then show_grid c.content visible ∷ []
      else if c.cell_type == gct_user && has_show c.content
      then show_user c.content visible ∷ []
      else []

  abbrev pub show_at : Option FixedCell → Bool → Shown → Shown
  show_at none visible rest = crash
  show_at (some c) visible rest = then_show (show_cell c visible) rest

  -- `_fixedlayout_show`. The loop does not move on to the next cell.
  unfoldable pub fixedlayout_show : ℕ → Heap → ℕ → Bool → Shown
  fixedlayout_show zero cells p visible = out_of_fuel
  fixedlayout_show (suc fuel) cells p visible =
      let rest = fixedlayout_show fuel cells p visible in
      if p == 0 then shown [] else show_at (cells p) visible rest
