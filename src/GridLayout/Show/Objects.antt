-- ===== src/GridLayout/Show/Objects.antt =====
-- The objects that `GridLayoutShow` of mgfc/gridlayout.c reaches.
use ministudo_guibuilder.Prelude.{
  ℕ, zero, suc, ◌<◌, ◌≡◌, refl, sym, ap, ◌⊎◌, inl, inr, Bool, true, false, Option, none, some, List,
  [], ◌∷◌, ◌++◌, map, arith, ◌==◌, All, Bool-cases,
}
use ministudo_guibuilder.Prelude.Int.{pos}
use ministudo_guibuilder.Prelude.Access.{Access, ok, fault}
use ministudo_guibuilder.GridLayout.State.{
  GridCell, GridLayout, gct_hwnd, gct_grid, gct_user, cell_at,
}
use ministudo_guibuilder.GridLayout.Cells.{IsValid}
use ministudo_guibuilder.GridLayout.Visit.{enum_all_cell_objs}
use ministudo_guibuilder.GridLayout.Visit.InRange.{cell_of, cell_at-ok, enum_all-Covered}
use ministudo_guibuilder.GridLayout.Show.{
  ShowRequest, show_window, show_user, ShowRun, done, crash, out_of_fuel, followed_by,
  gridlayout_show, show_at, show_all, show_cells, show_layout, grid_layout_show,
}

-- The layout at `p`, if there is one, is nested at most `d` deep, and all layouts are well formed.
abbrev pub Depth : ℕ → (ℕ → Option GridLayout) → ℕ → Type 0
Depth zero grids p = p ≡ 0
Depth (suc d) grids p =
    (p ≡ 0)
    ⊎ ((g : GridLayout) × (grids p ≡ some g)
        × IsValid g
        × ((r c : ℕ) → (cell_of g r c).kind ≡ gct_grid → Depth d grids (cell_of g r c).content))

abbrev pub Ends : ShowRun → Type 0
Ends run = (acts : List ShowRequest) × (run ≡ done acts)

Ends-followed_by : (s t : ShowRun) → Ends s → Ends t → Ends (followed_by s t)
Ends-followed_by s t (acts, e) (more, f) = (acts ++ more, rw (e, f))

-- The same request for the other way.
abbrev pub hide : ShowRequest → ShowRequest
hide (show_window w visible) = show_window w false
hide (show_user u visible) = show_user u false

abbrev pub hidden : ShowRun → ShowRun
hidden (done acts) = done (map hide acts)
hidden crash = crash
hidden out_of_fuel = out_of_fuel

map-append : (xs ys : List ShowRequest) → map hide (xs ++ ys) ≡ map hide xs ++ map hide ys
map-append [] ys = refl
map-append (x ∷ xs) ys = ap (◌∷◌ (hide x)) (map-append xs ys)

hidden-followed_by : (s t : ShowRun) → hidden (followed_by s t) ≡ followed_by (hidden s) (hidden t)
hidden-followed_by (done acts) (done more) = ap done (map-append acts more)
hidden-followed_by (done acts) crash = refl
hidden-followed_by (done acts) out_of_fuel = refl
hidden-followed_by crash t = refl
hidden-followed_by out_of_fuel t = refl

module _ (has_show : ℕ → Bool) where
  gridlayout_show-Ends :
      (visible : Bool) (deeper : ℕ → ShowRun) (c : GridCell)
      → (c.kind ≡ gct_grid → Ends (deeper c.content))
      → Ends (gridlayout_show has_show visible deeper c)
  unfolding gridlayout_show
  gridlayout_show-Ends visible deeper c ends = elim (Bool-cases (c.kind == gct_hwnd)) [
    | inl window ↦ rw window (_, refl)
    | inr a ↦ rw a (elim (Bool-cases (c.kind == gct_grid)) [
      | inl grid ↦ rw grid (ends (ground arith))
      | inr b ↦ rw b (elim (Bool-cases (c.kind == gct_user)) [
        | inr other ↦ rw other (_, refl)
        | inl user ↦ rw user (elim (Bool-cases (has_show c.content)) [
          | inl e ↦ rw e (_, refl)
          | inr e ↦ rw e (_, refl)
        ])
      ])
    ])
  ]

  show_cells-Ends :
      (visible : Bool) (deeper : ℕ → ShowRun) (g : GridLayout) (at : List (ℕ × ℕ))
      → ((r c : ℕ) → (cell_of g r c).kind ≡ gct_grid → Ends (deeper (cell_of g r c).content))
      → IsValid g
      → All (λ at. (at.0 < g.row_cnt) × (at.1 < g.col_cnt)) at
      → Ends (show_cells has_show visible deeper g at)
  unfolding show_cells
  show_cells-Ends visible deeper g [] ends v inside = ([], refl)
  show_cells-Ends visible deeper g ((r, c) ∷ at) ends v ((hr, hc), inside) =
      Ends-followed_by _ _
        (rw (cell_at-ok g r c v hr hc)
          (gridlayout_show-Ends visible deeper (cell_of g r c) (ends r c)))
        (show_cells-Ends visible deeper g at ends v inside)

  -- On well-formed layouts nested to a finite depth, with fuel for that depth, `GridLayoutShow` comes to
  -- its end without a crash, so that no cell is read out of range.
  pub grid_layout_show-Ends :
      (visible : Bool) (d : ℕ) (grids : ℕ → Option GridLayout) (p : ℕ)
      → Depth d grids p
      → (acts : List ShowRequest) × (grid_layout_show has_show visible (suc d) grids p ≡ done acts)
  unfolding grid_layout_show
  grid_layout_show-Ends visible zero grids p null = rw null ([], refl)
  grid_layout_show-Ends visible (suc d) grids p (inl null) = rw null ([], refl)
  grid_layout_show-Ends visible (suc d) grids p (inr (g, there, valid, nested)) =
      let (r, walked, (inside, whole)) = enum_all-Covered g valid in
      elim (Bool-cases (p == 0)) [
        | inl null ↦ rw null ([], refl)
        | inr busy ↦
            rw (busy, there, walked)
              (show_cells-Ends visible (grid_layout_show has_show visible (suc d) grids) g _
                (λ r c kind. grid_layout_show-Ends visible d grids _ (nested r c kind)) valid
                inside)
      ]

  gridlayout_show-hidden :
      (up down : ℕ → ShowRun) (c : GridCell)
      → ((p : ℕ) → down p ≡ hidden (up p))
      → gridlayout_show has_show false down c ≡ hidden (gridlayout_show has_show true up c)
  unfolding gridlayout_show
  gridlayout_show-hidden up down c same = elim (Bool-cases (c.kind == gct_hwnd)) [
    | inl window ↦ rw window
    | inr a ↦ rw a (elim (Bool-cases (c.kind == gct_grid)) [
      | inl grid ↦ rw grid (same c.content)
      | inr b ↦ rw b (elim (Bool-cases (c.kind == gct_user)) [
        | inr other ↦ rw other
        | inl user ↦
            rw user (elim (Bool-cases (has_show c.content)) [ inl e ↦ rw e | inr e ↦ rw e ])
      ])
    ])
  ]

  show_at-hidden :
      (up down : ℕ → ShowRun) (c : Access GridCell)
      → ((p : ℕ) → down p ≡ hidden (up p))
      → show_at has_show false down c ≡ hidden (show_at has_show true up c)
  show_at-hidden up down fault same = refl
  show_at-hidden up down (ok c) same = gridlayout_show-hidden up down c same

  show_cells-hidden :
      (up down : ℕ → ShowRun) (g : GridLayout) (at : List (ℕ × ℕ))
      → ((p : ℕ) → down p ≡ hidden (up p))
      → show_cells has_show false down g at ≡ hidden (show_cells has_show true up g at)
  unfolding show_cells
  show_cells-hidden up down g [] same = refl
  show_cells-hidden up down g ((r, c) ∷ at) same =
      let c' = cell_at g (pos r) (pos c) in
      rw (show_at-hidden up down c' same, show_cells-hidden up down g at same)
        (sym (hidden-followed_by (show_at has_show true up c') _))

  show_layout-hidden :
      (up down : ℕ → ShowRun) (g : Option GridLayout)
      → ((p : ℕ) → down p ≡ hidden (up p))
      → show_layout has_show false down g ≡ hidden (show_layout has_show true up g)
  show_layout-hidden up down none same = refl
  show_layout-hidden up down (some g) same = walked (enum_all_cell_objs g (λ row col. true))
    where
      walked :
          (a : Access (List (ℕ × ℕ) × Bool))
          → show_all has_show false down g a ≡ hidden (show_all has_show true up g a)
      walked fault = refl
      walked (ok r) = show_cells-hidden up down g r.0 same

  -- Hiding a layout asks the same objects as showing it does, in the same order.
  pub grid_layout_show-hidden :
      (fuel : ℕ) (grids : ℕ → Option GridLayout) (p : ℕ)
      → grid_layout_show has_show false fuel grids p
        ≡ hidden (grid_layout_show has_show true fuel grids p)
  unfolding grid_layout_show
  grid_layout_show-hidden zero grids p = refl
  grid_layout_show-hidden (suc fuel) grids p = elim (Bool-cases (p == 0)) [
    | inl null ↦ rw null
    | inr busy ↦ rw busy (
        show_layout-hidden (grid_layout_show has_show true fuel grids)
          (grid_layout_show has_show false fuel grids) (grids p)
          (grid_layout_show-hidden fuel grids))
  ]
