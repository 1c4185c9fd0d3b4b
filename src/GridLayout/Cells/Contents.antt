-- ===== src/GridLayout/Cells/Contents.antt =====
-- What the cells hold after `GridLayoutSetCell`.
use mathlib.Core.Path.{subst}
use ministudo_guibuilder.Prelude.{
  ℕ, zero, suc, ◌≤◌, ◌<◌, ◌≡◌, refl, sym, ap, ◌≢◌, ◌⊎◌, inl, inr, true, false, ◌||◌, none, some,
  List, [], ◌∷◌, arith, Bool-cases, ◌==◌, length, get_elem?, modify, get_elem?-some,
  get_elem?-modify_self, get_elem?-modify_ne, All-get_elem?,
}
use ministudo_guibuilder.Prelude.Int.{ℤ, pos, negsuc, leb_ℤ}
use ministudo_guibuilder.Prelude.Access.{
  Access, ok, fault, ◌>>=◌, of_option, read, Ensures-ok, read-ok,
}
use ministudo_guibuilder.GridLayout.State.{
  GridCell, GridLayout, gct_unknown, gct_max, is_spliter_at, out_of_grid, refuses, cell_at,
  put_cell, grid_layout_get_cell, grid_layout_set_cell,
}
use ministudo_guibuilder.GridLayout.Cells.{IsValid, Written, set_cell-Written, out_of_grid-false}

-- A cell that can be read: its indices are no negative numbers, and its column is there.
pub record Found (g : GridLayout) (row col : ℤ) (c : GridCell) : Type 0 where
  pub r : ℕ
  pub k : ℕ
  pub column : List GridCell
  pub row_eq : row ≡ pos r
  pub col_eq : col ≡ pos k
  pub in_column : get_elem? g.cells k ≡ some column
  pub in_row : get_elem? column r ≡ some c

-- Inversion of a bind.
bind-ok {ℓ κ} :
    {A : Type ℓ} {B : Type κ} (m : Access A) (f : A → Access B) {b : B}
    → (m >>= f) ≡ ok b
    → (a : A) × (m ≡ ok a) × (f a ≡ ok b)
bind-ok (ok a) f h = (a, refl, h)
bind-ok fault f h = cc

cell_at-Found :
    (g : GridLayout) (row col : ℤ) {c : GridCell} → cell_at g row col ≡ ok c → Found g row col c
cell_at-Found g row col h =
    let (column, e, f) = bind-ok (read g.cells col) (λ column. read column row) h in
    let (k, ek, hk) = read-ok g.cells col e in
    let (r, er, hr) = read-ok column row f in
    record { r = r; k = k; column = column; row_eq = er; col_eq = ek; in_column = hk; in_row = hr }

read-modify_ne :
    (column : List GridCell) (r : ℕ) (d : GridCell) (row : ℤ)
    → row ≢ pos r
    → read (modify column r (λ _. d)) row ≡ read column row
read-modify_ne column r d (negsuc n) ne = refl
read-modify_ne column r d (pos n) ne =
    ap of_option (get_elem?-modify_ne column r n _ (λ e. ne (ap pos (sym e))))

module _ (g : GridLayout) (r k : ℕ) (d : GridCell) {column : List GridCell} where
  put_self :
      {c : GridCell}
      → get_elem? g.cells k ≡ some column
      → get_elem? column r ≡ some c
      → cell_at (put_cell g (pos r) (pos k) d) (pos r) (pos k) ≡ ok d
  put_self hk hr = rw (get_elem?-modify_self g.cells k _ hk, get_elem?-modify_self column r _ hr)

  put-other :
      (row col : ℤ)
      → get_elem? g.cells k ≡ some column
      → (row ≢ pos r) ⊎ (col ≢ pos k)
      → cell_at (put_cell g (pos r) (pos k) d) row col ≡ cell_at g row col
  put-other row (negsuc n) hk ne = refl
  put-other row (pos n) hk (inr ne) = rw (
      get_elem?-modify_ne g.cells k n (λ (xs : List GridCell). modify xs r (λ _. d))
        (λ e. ne (ap pos (sym e))))
  put-other row (pos n) hk (inl ne) = elim (Bool-cases (n == k)) [
    | inl same ↦
        subst (λ m. cell_at (put_cell g (pos r) (pos k) d) row (pos m) ≡ cell_at g row (pos m))
          (same_lem same)
          (rw
            (get_elem?-modify_self g.cells k (λ (xs : List GridCell). modify xs r (λ _. d)) hk, hk)
            (read-modify_ne column r d row ne))
    | inr other ↦ rw (
        get_elem?-modify_ne g.cells k n (λ (xs : List GridCell). modify xs r (λ _. d))
          (ground arith))
  ]
    where
      same_lem : (n == k) ≡ true → k ≡ n
      same_lem e = ground arith

cell_at-put_cell :
    (g : GridLayout) (row col : ℤ) (c d : GridCell)
    → cell_at g row col ≡ ok c
    → cell_at (put_cell g row col d) row col ≡ ok d
cell_at-put_cell g row col c d h =
    let f = cell_at-Found g row col h in
    rw (f.row_eq, f.col_eq) (put_self g f.r f.k d f.in_column f.in_row)

cell_at-put_cell_ne :
    (g : GridLayout) (row col row' col' : ℤ) (c d : GridCell)
    → cell_at g row col ≡ ok c
    → (row' ≢ row) ⊎ (col' ≢ col)
    → cell_at (put_cell g row col d) row' col' ≡ cell_at g row' col'
cell_at-put_cell_ne g row col row' col' c d h ne =
    let f = cell_at-Found g row col h in
    rw (f.row_eq, f.col_eq)
      (put-other g f.r f.k d row' col' f.in_column (rw (f.row_eq, f.col_eq) at ne))

-- A cell of a well-formed layout can be read.
cell_at-some :
    (g : GridLayout) (r k : ℕ)
    → IsValid g
    → r < g.row_cnt
    → k < g.col_cnt
    → (c : GridCell) × (cell_at g (pos r) (pos k) ≡ ok c)
cell_at-some g r k v hr hk =
    let (column, e) = get_elem?-some g.cells k (omega arith) in
    let fits : length column ≡ g.row_cnt = All-get_elem? _ g.cells k v.column_lengths e in
    let (c, f) = get_elem?-some column r (omega arith) in (c, rw (e, f))

accepts :
    (g : GridLayout) (row col : ℤ)
    → is_spliter_at g.col_width col ≡ ok false
    → is_spliter_at g.row_height row ≡ ok false
    → refuses g row col ≡ ok false
unfolding refuses
accepts g row col hc hr = rw (out_of_grid-false g row col, hc) hr

-- What `GridLayoutSetCell` stores in a cell outside the splitters of a well-formed layout is what
-- `GridLayoutGetCell` then finds there, and the call returns what was there before.
pub set_cell-get_cell :
    (g : GridLayout) (r k kind content : ℕ)
    → IsValid g
    → r < g.row_cnt
    → k < g.col_cnt
    → is_spliter_at g.col_width (pos k) ≡ ok false
    → is_spliter_at g.row_height (pos r) ≡ ok false
    → 0 < kind
    → kind < gct_max
    → (old : ℕ) × (g' : GridLayout) × (grid_layout_get_cell g (pos r) (pos k) ≡ ok old)
      × (grid_layout_set_cell g (pos r) (pos k) (pos kind) content ≡ ok (old, g'))
      × (grid_layout_get_cell g' (pos r) (pos k) ≡ ok content)
unfolding grid_layout_get_cell grid_layout_set_cell
set_cell-get_cell g r k kind content v hr hk hc hw h0 h4 =
    let (c, e) = cell_at-some g r k v hr hk in
    let d : GridCell = record { kind = kind; content = content } in
    let open' = accepts g (pos r) (pos k) hc hw in
    (
      c.content,
      put_cell g (pos r) (pos k) d,
      rw (open', e),
      rw (open', typed, e),
      rw (
        accepts (put_cell g (pos r) (pos k) d) (pos r) (pos k) hc hw,
        cell_at-put_cell g (pos r) (pos k) c d e,
      ),
    )
  where
    typed : (leb_ℤ (pos kind) (pos gct_unknown) || leb_ℤ (pos gct_max) (pos kind)) ≡ false
    typed = ground arith

Written-get_cell :
    (g g' : GridLayout) (row col row' col' : ℤ)
    → Written g row col g'
    → (row' ≢ row) ⊎ (col' ≢ col)
    → grid_layout_get_cell g' row' col' ≡ grid_layout_get_cell g row' col'
unfolding grid_layout_get_cell refuses out_of_grid
Written-get_cell g g' row col row' col' (inl e) ne = rw e
Written-get_cell g g' row col row' col' (inr (c, d, h, e)) ne =
    subst (λ l. grid_layout_get_cell l row' col' ≡ grid_layout_get_cell g row' col') (sym e)
      (rw (cell_at-put_cell_ne g row col row' col' c d h ne))

-- A successful `GridLayoutSetCell` changes what no other cell holds.
pub set_cell-get_cell_ne :
    (g : GridLayout) (row col row' col' kind : ℤ) (content : ℕ) {old : ℕ} {g' : GridLayout}
    → grid_layout_set_cell g row col kind content ≡ ok (old, g')
    → (row' ≢ row) ⊎ (col' ≢ col)
    → grid_layout_get_cell g' row' col' ≡ grid_layout_get_cell g row' col'
set_cell-get_cell_ne g row col row' col' kind content h ne =
    Written-get_cell g _ row col row' col'
      (Ensures-ok _ (λ r. Written g row col r.1) (set_cell-Written g row col kind content) h) ne

get_elem?-none : (xs : List (List GridCell)) (n : ℕ) → length xs ≤ n → get_elem? xs n ≡ none
get_elem?-none [] n h = refl
get_elem?-none (x ∷ xs) zero h = absurd (omega arith)
get_elem?-none (x ∷ xs) (suc n) h = get_elem?-none xs n (omega arith)

-- No column index is turned away for being too large: on a layout without a table of widths whose
-- rows have no table either, `GridLayoutGetCell` and `GridLayoutSetCell` with a column that does
-- not exist read past the array of columns.
pub get_cell_unguarded :
    (g : GridLayout) (row : ℤ) (k content kind : ℕ)
    → IsValid g
    → g.col_width ≡ none
    → g.row_height ≡ none
    → 0 < kind
    → kind < gct_max
    → g.col_cnt ≤ k
    → (grid_layout_get_cell g row (pos k) ≡ fault)
      × (grid_layout_set_cell g row (pos k) (pos kind) content ≡ fault)
unfolding grid_layout_get_cell grid_layout_set_cell
get_cell_unguarded g row k content kind v hc hr h0 h4 beyond =
    let open' = accepts g row (pos k) (rw hc) (rw hr) in
    let miss = get_elem?-none g.cells k (omega arith) in (rw (open', miss), rw (open', typed, miss))
  where
    typed : (leb_ℤ (pos kind) (pos gct_unknown) || leb_ℤ (pos gct_max) (pos kind)) ≡ false
    typed = ground arith
