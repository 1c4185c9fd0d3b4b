-- ===== src/GridLayout/Destroy/Removed.antt =====
-- Deleting a layout of mgfc/gridlayout.c from which a user cell has been removed.
use ministudo_guibuilder.Prelude.{
  ℕ, zero, suc, ◌+◌, ◌≤◌, ◌<◌, ◌≡◌, ◌≢◌, refl, sym, ap, ◌∙◌, inl, inr, Bool, false, Option, none,
  some, List, ◌==◌, get_elem?, arith, Bool-cases, modify, get_elem?-modify_self, some-inj,
}
use mathlib.Core.Path.{subst}
use ministudo_guibuilder.Prelude.Int.{pos}
use ministudo_guibuilder.Prelude.Access.{ok}
use ministudo_guibuilder.Prelude.Run.{Run, done, crash, out_of_fuel, then_run, element}
use ministudo_guibuilder.GridLayout.State.{
  GridCell, GridLayout, gct_user, grid_layout_remove, out_of_grid, put_cell,
}
use ministudo_guibuilder.GridLayout.Destroy.{
  Heap, FreeCell, without, free_rows, free_cols, cleanup_grid_layout, free_cell_default,
  delete_grid_layout,
}

ok-inj {ℓ} : {A : Type ℓ} {x y : A} → ok x ≡ ok y → x ≡ y
ok-inj h = cc

then_run-done {ℓ κ} :
    {A : Type ℓ} {B : Type κ} (m : Run A) (f : A → Run B) {b : B}
    → then_run m f ≡ done b
    → (a : A) × (m ≡ done a) × (f a ≡ done b)
then_run-done (done a) f h = (a, refl, h)
then_run-done crash f h = cc h
then_run-done out_of_fuel f h = cc h

element-done {ℓ κ} :
    {A : Type ℓ} {B : Type κ} (o : Option A) (f : A → Run B) {b : B}
    → element o f ≡ done b
    → (a : A) × (o ≡ some a) × (f a ≡ done b)
element-done none f h = cc h
element-done (some a) f h = (a, refl, h)

module _ (free_cell : FreeCell) where
  free_rows-all :
      (column : List GridCell) (row n i : ℕ) (h h' : Heap) {c : GridCell}
      → free_rows free_cell column row n h ≡ done h'
      → row ≤ i
      → i < row + n
      → get_elem? column i ≡ some c
      → (g : Heap) × (g' : Heap) × (free_cell c g ≡ done g')
  unfolding free_rows
  free_rows-all column row zero i h h' e lo hi at = absurd (omega arith)
  free_rows-all column row (suc n) i h h' {c} e lo hi at =
      let (c', here, e1) =
        element-done (get_elem? column row)
          (λ c. then_run (free_cell c h) (free_rows free_cell column (row + 1) n)) e in
      let (h1, freed, more) =
        then_run-done (free_cell c' h) (free_rows free_cell column (row + 1) n) e1 in
      elim (Bool-cases (row == i)) [
        | inl first ↦
            let same : row ≡ i = ground arith in
            let cell : c' ≡ c = some-inj (sym here ∙ ap (get_elem? column) same ∙ at) in
            (h, h1, subst (λ x. free_cell x h ≡ done h1) cell freed)
        | inr later ↦ free_rows-all column (row + 1) n i h1 h' more (ground arith) (omega arith) at
      ]

  free_cols-all :
      (g : GridLayout) (col n j i : ℕ) (h h' : Heap) {column : List GridCell} {c : GridCell}
      → free_cols free_cell g col n h ≡ done h'
      → col ≤ j
      → j < col + n
      → i < g.row_cnt
      → get_elem? g.cells j ≡ some column
      → get_elem? column i ≡ some c
      → (k : Heap) × (k' : Heap) × (free_cell c k ≡ done k')
  unfolding free_cols
  free_cols-all g col zero j i h h' e lo hi inside at cell = absurd (omega arith)
  free_cols-all g col (suc n) j i h h' {column} {c} e lo hi inside at cell =
      let (column', here, e1) =
        element-done (get_elem? g.cells col)
          (λ column.
            then_run (free_rows free_cell column 0 g.row_cnt h) (free_cols free_cell g (col + 1) n))
          e in
      let (h1, freed, more) =
        then_run-done (free_rows free_cell column' 0 g.row_cnt h)
          (free_cols free_cell g (col + 1) n) e1 in
      elim (Bool-cases (col == j)) [
        | inl first ↦
            let same : col ≡ j = ground arith in
            let one : column' ≡ column = some-inj (sym here ∙ ap (get_elem? g.cells) same ∙ at) in
            free_rows-all column' 0 g.row_cnt i h h1 freed (omega arith) (omega arith)
              (ap (λ x. get_elem? x i) one ∙ cell)
        | inr later ↦
            free_cols-all g (col + 1) n j i h1 h' more (ground arith) (omega arith) inside at cell
      ]

-- `free_cell_default` uses the pointer of a user cell without a test for NULL.
free_cell_default-null :
    (has_free : ℕ → Bool) (deeper : ℕ → Heap → Run Heap) (c : GridCell) (h : Heap)
    → c.kind ≡ gct_user
    → c.content ≡ 0
    → free_cell_default has_free deeper c h ≡ crash
unfolding free_cell_default
free_cell_default-null has_free deeper c h kind null = rw (kind, null) refl

emptied : GridLayout → ℕ → ℕ → GridCell → GridLayout
emptied g row col c = put_cell g (pos row) (pos col) (record c { content = 0 })

not_refused : (g : GridLayout) (row col : ℕ) → out_of_grid g (pos row) (pos col) ≡ false
unfolding out_of_grid
not_refused g row col = ground arith

grid_layout_remove-inside :
    (g : GridLayout) (row col : ℕ) {column : List GridCell} {c : GridCell}
    → get_elem? g.cells col ≡ some column
    → get_elem? column row ≡ some c
    → grid_layout_remove g (pos row) (pos col) ≡ ok (c.content, emptied g row col c)
unfolding grid_layout_remove emptied
grid_layout_remove-inside g row col at cell = rw (not_refused g row col, at, cell) refl

-- After GridLayoutRemove has taken the object out of a user cell, deleting the layout never comes to its
-- end, for whatever fuel: the cell is still a user cell, and its pointer is NULL.
pub delete_removed :
    (has_free : ℕ → Bool) (fuel p : ℕ) (h h' : Heap) (g : GridLayout) (row col : ℕ)
    (column : List GridCell) (c : GridCell) (r : ℕ × GridLayout)
    → col < g.col_cnt
    → row < g.row_cnt
    → get_elem? g.cells col ≡ some column
    → get_elem? column row ≡ some c
    → c.kind ≡ gct_user
    → grid_layout_remove g (pos row) (pos col) ≡ ok r
    → p ≢ 0
    → h.grids p ≡ some r.1
    → delete_grid_layout has_free fuel p h ≢ done h'
unfolding delete_grid_layout cleanup_grid_layout emptied
delete_removed has_free zero p h h' g row col column c r cl rl at cell kind removed ne stored e =
    cc e
delete_removed has_free (suc fuel) p h h' g row col column c r cl rl at cell kind removed ne stored
      e =
    let null : (p == 0) ≡ false = ground arith in
    let free = free_cell_default has_free (delete_grid_layout has_free fuel) in
    let after : r.1 ≡ emptied g row col c =
      ap (λ (t : ℕ × GridLayout). t.1)
        (ok-inj (sym removed ∙ grid_layout_remove-inside g row col at cell)) in
    let (l, there, e1) =
      element-done (h.grids p)
        (λ l. then_run (cleanup_grid_layout free l h) (λ k. done (without p k))) (rw null at e) in
    let (k, cleaned, e2) =
      then_run-done (cleanup_grid_layout free l h) (λ k. done (without p k)) e1 in
    let same : l ≡ emptied g row col c = some-inj (sym there ∙ stored) ∙ after in
    let cells : free_cols free (emptied g row col c) 0 g.col_cnt h ≡ done k =
      subst (λ l. cleanup_grid_layout free l h ≡ done k) same cleaned in
    let (k1, k2, freed) =
      free_cols-all free (emptied g row col c) 0 g.col_cnt col row h k cells (omega arith)
        (omega arith) rl
        (get_elem?-modify_self g.cells col (λ cs. modify cs row (λ _. record c { content = 0 })) at)
        (get_elem?-modify_self column row (λ _. record c { content = 0 }) cell) in
    crashes
      (free_cell_default-null has_free (delete_grid_layout has_free fuel) (record c { content = 0 })
        k1 kind refl)
      freed
  where
    crashes : {run : Run Heap} {k : Heap} → run ≡ crash → run ≡ done k → ⊥
    crashes p q = cc (p, q)
