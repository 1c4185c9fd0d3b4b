-- ===== src/GridLayout/Visit/Once.antt =====
-- Every cell outside the splitters is visited once.
use ministudo_guibuilder.Prelude.{
  ℕ, zero, suc, ◌+◌, ◌≡◌, refl, sym, ap, ◌∙◌, inl, inr, Bool, true, false, not, ◌&&◌, List, [], ◌∷◌,
  ◌++◌, arith, ◌==◌, ltb, leb, Bool-cases,
}
use mathlib.Core.Path.{subst, ap₂}
use ministudo_guibuilder.Prelude.Int.{ℤ, pos, ◌+ℤ◌}
use ministudo_guibuilder.Prelude.Access.{ok}
use ministudo_guibuilder.GridLayout.State.{GridLayout}
use ministudo_guibuilder.GridLayout.Cells.{IsValid}
use ministudo_guibuilder.GridLayout.Visit.{Visit, divides_by_zero, deal_cell_with_position}
use ministudo_guibuilder.GridLayout.Visit.InRange.{
  is_spliter, row_extent, col_extent, row_visits, col_visits, deal_cell_with_position-ok,
}

abbrev pub bit : Bool → ℕ
bit true = 1
bit false = 0

-- How often a walk visits a cell.
abbrev pub times : ℕ → ℕ → List Visit → ℕ
times r c [] = 0
times r c (w ∷ ws) = bit (w.row == r && w.col == c) + times r c ws

times-append : (r c : ℕ) (vs ws : List Visit) → times r c (vs ++ ws) ≡ times r c vs + times r c ws
times-append r c [] ws = omega arith
times-append r c (v ∷ vs) ws = omega (arith, times-append r c vs ws)

module _ (g : GridLayout) (r c : ℕ) where
  abbrev pub is_open : Bool
  is_open = not (is_spliter g.row_height r) && not (is_spliter g.col_width c)

  times-row_visits_other :
      (col : ℕ) (left right : ℤ) (n row : ℕ) (top : ℤ)
      → (col == c) ≡ false
      → times r c (row_visits g col left right n row top) ≡ 0
  unfolding row_visits
  times-row_visits_other col left right zero row top h = refl
  times-row_visits_other col left right (suc n) row top h =
      ground
        (arith, times-row_visits_other col left right n (row + 1) (top +ℤ pos (row_extent g row)) h)

  times-row_visits :
      (left right : ℤ) (n row : ℕ) (top : ℤ)
      → times r c (row_visits g c left right n row top)
        ≡ bit (leb row r && ltb r (row + n) && not (is_spliter g.row_height r))
  unfolding row_visits
  times-row_visits left right zero row top = ground arith
  times-row_visits left right (suc n) row top = elim (Bool-cases (row == r)) [
    | inl here ↦
        let e : row ≡ r = ground arith in
        let later = times-row_visits left right n (row + 1) (top +ℤ pos (row_extent g row)) in
        ground (arith, later, ap (is_spliter g.row_height) e)
    | inr other ↦
        ground (arith, times-row_visits left right n (row + 1) (top +ℤ pos (row_extent g row)))
  ]

  -- A column that the walk enters.
  times-column :
      (col : ℕ) (left right : ℤ)
      → is_spliter g.col_width col ≡ false
      → times r c (row_visits g col left right g.row_cnt 0 g.y)
        ≡ bit (col == c && ltb r g.row_cnt && is_open)
  times-column col left right cells = elim (Bool-cases (col == c)) [
    | inl here ↦
        let e : col ≡ c = ground arith in
        subst
          (λ k.
            times r c (row_visits g k left right g.row_cnt 0 g.y)
            ≡ bit (k == c && ltb r g.row_cnt && is_open))
          (sym e)
          (times-row_visits left right g.row_cnt 0 g.y
            ∙ ground (arith, ap (is_spliter g.col_width) e))
    | inr other ↦ rw other (times-row_visits_other col left right g.row_cnt 0 g.y other)
  ]

  -- What the columns from `col` on contribute, split off the first of them.
  passed :
      (n col : ℕ)
      → is_spliter g.col_width col ≡ true
      → bit (leb (col + 1) c && ltb c (col + 1 + n) && ltb r g.row_cnt && is_open)
        ≡ bit (leb col c && ltb c (col + suc n) && ltb r g.row_cnt && is_open)
  passed n col bar = elim (Bool-cases (col == c)) [
    | inl here ↦ let e : col ≡ c = ground arith in ground (arith, ap (is_spliter g.col_width) e)
    | inr other ↦ ground arith
  ]

  added :
      (n col : ℕ)
      → bit (col == c && ltb r g.row_cnt && is_open)
          + bit (leb (col + 1) c && ltb c (col + 1 + n) && ltb r g.row_cnt && is_open)
        ≡ bit (leb col c && ltb c (col + suc n) && ltb r g.row_cnt && is_open)
  added n col = ground arith

  times-col_visits :
      (n col : ℕ) (left : ℤ)
      → times r c (col_visits g n col left)
        ≡ bit (leb col c && ltb c (col + n) && ltb r g.row_cnt && is_open)
  unfolding col_visits
  times-col_visits zero col left = ground arith
  times-col_visits (suc n) col left =
      let right = left +ℤ pos (col_extent g col) in
      let later = times-col_visits n (col + 1) right in
      elim (Bool-cases (is_spliter g.col_width col)) [
        | inl bar ↦ rw bar (later ∙ passed n col bar)
        | inr cells ↦ rw cells (
            times-append r c (row_visits g col left right g.row_cnt 0 g.y)
              (col_visits g n (col + 1) right)
            ∙ ap₂ ◌+◌ (times-column col left right cells) later
            ∙ added n col)
      ]

  -- On a well-formed layout, unless an average over no rows or no columns is asked for, the walk that
  -- moves the cells calls back once for each cell outside the splitters, and for no other.
  pub deal_cell_with_position-once :
      IsValid g
      → divides_by_zero g ≡ false
      → (vs : List Visit) × (deal_cell_with_position g ≡ ok vs)
        × (times r c vs ≡ bit (ltb c g.col_cnt && ltb r g.row_cnt && is_open))
  deal_cell_with_position-once v fine = (
    col_visits g g.col_cnt 0 g.x,
    deal_cell_with_position-ok g v fine,
    times-col_visits g.col_cnt 0 g.x ∙ ground arith,
  )
