-- ===== src/GridLayout/Spliter/Drag/Found.antt =====
-- `getSpliterInfo` of mgfc/gridlayout.c finds a splitter of a layout, not of NULL.
use ministudo_guibuilder.Prelude.{
  ℕ, zero, suc, ◌≢◌, inl, inr, Bool, true, false, Option, none, some, arith, ◌==◌, Bool-cases,
}
use ministudo_guibuilder.Prelude.Int.{ℤ, pos, pos_part}
use ministudo_guibuilder.GridLayout.State.{GridLayout, is_spliter_at, cell_at}
use ministudo_guibuilder.Prelude.Access.{Access, ok, fault}
use ministudo_guibuilder.GridLayout.Position.{get_row_col_by_pos}
use ministudo_guibuilder.GridLayout.Spliter.{
  Search, found, not_found, get_spliter_info, search_cell, search_at, search_layout, nested_grid,
  searching,
}

-- A splitter that was found lies in a layout, not at NULL.
abbrev pub LeadsSomewhere : Search → Type 0
LeadsSomewhere (found info) = info.grid ≢ 0
LeadsSomewhere not_found = Unit
LeadsSomewhere Search.crash = Unit
LeadsSomewhere Search.out_of_fuel = Unit

searching-LeadsSomewhere :
    {A : Type 0} (a : Access A) (f : A → Search)
    → ((x : A) → LeadsSomewhere (f x))
    → LeadsSomewhere (searching a f)
searching-LeadsSomewhere (ok a) f h = h a
searching-LeadsSomewhere fault f h = tt

module _ (to_gridlayout : ℕ → ℕ) (grids : ℕ → Option GridLayout) where
  search_cell-LeadsSomewhere :
      (deeper : ℕ → Search) (gl : GridLayout) (p : ℕ) (hit : Bool) (row col : ℕ)
      → ((q : ℕ) → q ≢ 0 → LeadsSomewhere (deeper q))
      → p ≢ 0
      → LeadsSomewhere (search_cell to_gridlayout grids deeper gl p hit row col)
  unfolding search_cell
  search_cell-LeadsSomewhere deeper gl p false row col ih ne = tt
  search_cell-LeadsSomewhere deeper gl p true row col ih ne =
      searching-LeadsSomewhere (is_spliter_at gl.col_width (pos col)) _ λ in_column.
        elim (Bool-cases in_column) [
          | inl c ↦ rw c ne
          | inr c ↦ rw c (
              searching-LeadsSomewhere (is_spliter_at gl.row_height (pos row)) _ λ in_row.
                elim (Bool-cases in_row) [
                  | inl r ↦ rw r ne
                  | inr r ↦ rw r (
                      searching-LeadsSomewhere (cell_at gl (pos row) (pos col)) _ λ c.
                        elim (Bool-cases (nested_grid to_gridlayout c == 0)) [
                          | inl null ↦ rw null tt
                          | inr there ↦ rw there (ih _ (ground arith))
                        ])
                ])
        ]

  search_layout-LeadsSomewhere :
      (deeper : ℕ → Search) (x y : ℤ) (p : ℕ) (g : Option GridLayout)
      → ((q : ℕ) → q ≢ 0 → LeadsSomewhere (deeper q))
      → p ≢ 0
      → LeadsSomewhere (search_layout to_gridlayout grids deeper x y p g)
  search_layout-LeadsSomewhere deeper x y p none ih ne = tt
  search_layout-LeadsSomewhere deeper x y p (some gl) ih ne = at_point (get_row_col_by_pos gl x y)
    where
      at_point :
          (r : Access (Bool × ℤ × ℤ)) → LeadsSomewhere (search_at to_gridlayout grids deeper gl p r)
      at_point fault = tt
      at_point (ok (hit, row, col)) =
          search_cell-LeadsSomewhere deeper gl p hit (pos_part row) (pos_part col) ih ne

  pub get_spliter_info-LeadsSomewhere :
      (fuel : ℕ) (x y : ℤ) (p : ℕ)
      → p ≢ 0
      → LeadsSomewhere (get_spliter_info to_gridlayout grids fuel x y p)
  unfolding get_spliter_info
  get_spliter_info-LeadsSomewhere zero x y p ne = tt
  get_spliter_info-LeadsSomewhere (suc fuel) x y p ne =
      search_layout-LeadsSomewhere (get_spliter_info to_gridlayout grids fuel x y) x y p (grids p)
        (get_spliter_info-LeadsSomewhere fuel x y) ne
