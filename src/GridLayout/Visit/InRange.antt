-- ===== src/GridLayout/Visit/InRange.antt =====
-- The two walks of mgfc/gridlayout.c over a well-formed layout: every read is in range.
use ministudo_guibuilder.Prelude.{
  ℕ, zero, suc, ◌+◌, ◌≤◌, ◌<◌, ◌≡◌, refl, inl, inr, Bool, true, false, Option, none, some, List, [],
  ◌∷◌, ◌++◌, ◌==◌, if◌then◌else◌, get_or, arith, length, get_elem?, All, All-append, All-get_elem?,
  Bool-cases,
}
use ministudo_guibuilder.Prelude.Int.{ℤ, pos, ◌+ℤ◌}
use ministudo_guibuilder.Prelude.Access.{Access, ok}
use ministudo_guibuilder.GridLayout.Units.{LayoutUnit, lut_spliter, zero_unit}
use ministudo_guibuilder.GridLayout.State.{GridCell, GridLayout, empty_cell, is_spliter_at, cell_at}
use ministudo_guibuilder.GridLayout.Cells.{IsValid, HasUnits}
use ministudo_guibuilder.GridLayout.Position.{Rect, unit_size}
use ministudo_guibuilder.GridLayout.Visit.{
  Visit, size_at, row_size, col_size, visit_rows, visit_cols, divides_by_zero,
  deal_cell_with_position, enum_cols, enum_rows, enum_all_cell_objs,
}

pub get_elem?-get_or {ℓ} :
    {A : Type ℓ} (xs : List A) (i : ℕ) (d : A)
    → i < length xs
    → get_elem? xs i ≡ some (get_or xs i d)
get_elem?-get_or [] i d h = elim h [ ]
get_elem?-get_or (x ∷ xs) zero d h = refl
get_elem?-get_or (x ∷ xs) (suc i) d h = get_elem?-get_or xs i d (omega arith)

-- Whether unit `i` of a table is a splitter.
abbrev pub is_spliter : Option (List LayoutUnit) → ℕ → Bool
is_spliter none i = false
is_spliter (some units) i = (get_or units i zero_unit).kind == lut_spliter

-- The cell in a row and a column.
abbrev pub cell_of : GridLayout → ℕ → ℕ → GridCell
cell_of gl row col = get_or (get_or gl.cells col []) row empty_cell

is_spliter_at-ok :
    (units : Option (List LayoutUnit)) (n i : ℕ)
    → HasUnits units n
    → i < n
    → is_spliter_at units (pos i) ≡ ok (is_spliter units i)
is_spliter_at-ok none n i has h = refl
is_spliter_at-ok (some us) n i has h = rw (get_elem?-get_or us i zero_unit (omega arith)) refl

size_at-ok :
    (units : Option (List LayoutUnit)) (extent n i : ℕ)
    → HasUnits units n
    → i < n
    → size_at units extent n i ≡ ok (unit_size units extent n i)
unfolding size_at unit_size
size_at-ok none extent n i has h = refl
size_at-ok (some us) extent n i has h = rw (get_elem?-get_or us i zero_unit (omega arith)) refl

pub cell_at-ok :
    (g : GridLayout) (row col : ℕ)
    → IsValid g
    → row < g.row_cnt
    → col < g.col_cnt
    → cell_at g (pos row) (pos col) ≡ ok (cell_of g row col)
cell_at-ok g row col v hr hc =
    let columns = v.columns in
    let column = get_elem?-get_or g.cells col [] (omega arith) in
    let rows : length (get_or g.cells col []) ≡ g.row_cnt =
      All-get_elem? (λ (c : List GridCell). length c ≡ g.row_cnt) g.cells col v.column_lengths
        column in
    rw (column, get_elem?-get_or (get_or g.cells col []) row empty_cell (omega arith)) refl

-- The walk that moves the cells, where nothing is read out of range.
module _ (g : GridLayout) where
  abbrev pub row_extent : ℕ → ℕ
  row_extent row = unit_size g.row_height g.height g.row_cnt row

  abbrev pub col_extent : ℕ → ℕ
  col_extent col = unit_size g.col_width g.width g.col_cnt col

  unfoldable pub row_visits : (col : ℕ) (left right : ℤ) (n row : ℕ) (top : ℤ) → List Visit
  row_visits col left right zero row top = []
  row_visits col left right (suc n) row top =
      let bottom = top +ℤ pos (row_extent row) in
      let rest = row_visits col left right n (row + 1) bottom in
      let rect : Rect = record { left = left; top = top; right = right; bottom = bottom } in
      if is_spliter g.row_height row
      then rest
      else record { row = row; col = col; rect = rect } ∷ rest

  unfoldable pub col_visits : (n col : ℕ) (left : ℤ) → List Visit
  col_visits zero col left = []
  col_visits (suc n) col left =
      let right = left +ℤ pos (col_extent col) in
      let rest = col_visits n (col + 1) right in
      if is_spliter g.col_width col then rest else row_visits col left right g.row_cnt 0 g.y ++ rest

  abbrev pub InGrid : Visit → Type 0
  InGrid w = (w.row < g.row_cnt) × (w.col < g.col_cnt)

  row_visits-InGrid :
      (col : ℕ) (left right : ℤ) (n row : ℕ) (top : ℤ)
      → col < g.col_cnt
      → row + n ≤ g.row_cnt
      → All InGrid (row_visits col left right n row top)
  unfolding row_visits
  row_visits-InGrid col left right zero row top hc hr = tt
  row_visits-InGrid col left right (suc n) row top hc hr =
      let later =
        row_visits-InGrid col left right n (row + 1) (top +ℤ pos (row_extent row)) hc
          (omega arith) in
      elim (Bool-cases (is_spliter g.row_height row)) [
        | inl bar ↦ rw bar later
        | inr cell ↦ rw cell ((omega arith, hc), later)
      ]

  pub col_visits-InGrid :
      (n col : ℕ) (left : ℤ) → col + n ≤ g.col_cnt → All InGrid (col_visits n col left)
  unfolding col_visits
  col_visits-InGrid zero col left h = tt
  col_visits-InGrid (suc n) col left h =
      let right = left +ℤ pos (col_extent col) in
      let later = col_visits-InGrid n (col + 1) right (omega arith) in
      elim (Bool-cases (is_spliter g.col_width col)) [
        | inl bar ↦ rw bar later
        | inr cells ↦ rw cells (
            All-append InGrid (row_visits col left right g.row_cnt 0 g.y) _
              (row_visits-InGrid col left right g.row_cnt 0 g.y (omega arith) (omega arith)) later)
      ]

  module _ (v : IsValid g) where
    visit_rows-ok :
        (col : ℕ) (left right : ℤ) (n row : ℕ) (top : ℤ)
        → row + n ≤ g.row_cnt
        → visit_rows g col left right n row top ≡ ok (row_visits col left right n row top)
    unfolding visit_rows row_visits row_size
    visit_rows-ok col left right zero row top h = refl
    visit_rows-ok col left right (suc n) row top h =
        rw
          (
            size_at-ok g.row_height g.height g.row_cnt row v.row_units (omega arith),
            is_spliter_at-ok g.row_height g.row_cnt row v.row_units (omega arith),
            visit_rows-ok col left right n (row + 1) (top +ℤ pos (row_extent row)) (omega arith),
          )
          refl

    visit_cols-ok :
        (n col : ℕ) (left : ℤ)
        → col + n ≤ g.col_cnt
        → visit_cols g n col left ≡ ok (col_visits n col left)
    unfolding visit_cols col_visits col_size
    visit_cols-ok zero col left h = refl
    visit_cols-ok (suc n) col left h =
        let right = left +ℤ pos (col_extent col) in
        rw
          (
            size_at-ok g.col_width g.width g.col_cnt col v.col_units (omega arith),
            is_spliter_at-ok g.col_width g.col_cnt col v.col_units (omega arith),
            visit_rows-ok col left right g.row_cnt 0 g.y (omega arith),
            visit_cols-ok n (col + 1) right (omega arith),
          )
          (elim (Bool-cases (is_spliter g.col_width col)) [
            | inl bar ↦ rw bar refl
            | inr cells ↦ rw cells refl
          ])

    -- The walk reads nothing out of range.
    pub deal_cell_with_position-ok :
        divides_by_zero g ≡ false → deal_cell_with_position g ≡ ok (col_visits g.col_cnt 0 g.x)
    unfolding deal_cell_with_position
    deal_cell_with_position-ok fine = rw fine (visit_cols-ok g.col_cnt 0 g.x (omega arith))

-- The walk over the objects, with a callback that never stops it.
module _ (g : GridLayout) (v : IsValid g) where
  -- What the walk calls back for lies in the layout, and the walk came to its end.
  abbrev pub Whole : List (ℕ × ℕ) × Bool → Type 0
  Whole r = All (λ at. (at.0 < g.row_cnt) × (at.1 < g.col_cnt)) r.0 × (r.1 ≡ true)

  abbrev pub Covered : Access (List (ℕ × ℕ) × Bool) → Type 0
  Covered a = (r : List (ℕ × ℕ) × Bool) × (a ≡ ok r) × Whole r

  enum_cols-Covered :
      (row n col : ℕ)
      → row < g.row_cnt
      → col + n ≤ g.col_cnt
      → Covered (enum_cols g (λ row col. true) row n col)
  unfolding enum_cols
  enum_cols-Covered row zero col hr hc = (([], true), refl, (tt, refl))
  enum_cols-Covered row (suc n) col hr hc =
      let (rest, e, (inside, whole)) = enum_cols-Covered row n (col + 1) hr (omega arith) in
      elim (Bool-cases ((cell_of g row col).kind == 0)) [
        | inl free ↦ (rest, rw (cell_at-ok g row col v hr (omega arith), free) e, (inside, whole))
        | inr taken ↦ (
          ((row, col) ∷ rest.0, rest.1),
          rw (cell_at-ok g row col v hr (omega arith), taken, e) refl,
          (((hr, omega arith), inside), whole),
        )
      ]

  enum_rows-Covered :
      (n row : ℕ) → row + n ≤ g.row_cnt → Covered (enum_rows g (λ row col. true) n row)
  unfolding enum_rows
  enum_rows-Covered zero row h = (([], true), refl, (tt, refl))
  enum_rows-Covered (suc n) row h =
      let (first, e, (inside, whole)) =
        enum_cols-Covered row g.col_cnt 0 (omega arith) (omega arith) in
      let (rest, f, (more, end)) = enum_rows-Covered n (row + 1) (omega arith) in
      (
        (first.0 ++ rest.0, rest.1),
        rw (e, whole, f) refl,
        (
          All-append (λ (at : ℕ × ℕ). (at.0 < g.row_cnt) × (at.1 < g.col_cnt)) first.0 rest.0 inside
              more,
          end,
        ),
      )

  pub enum_all-Covered : Covered (enum_all_cell_objs g (λ row col. true))
  unfolding enum_all_cell_objs
  enum_all-Covered = enum_rows-Covered g.row_cnt 0 (omega arith)
