-- ===== src/GridLayout/Spliter/Drag/Bars.antt =====
-- The bar of a drag: it is on the screen while a splitter is dragged, at the last point of the
-- mouse, and nowhere else.
use ministudo_guibuilder.Prelude.{
  ℕ, ◌≡◌, ◌≢◌, refl, sym, ap, inl, inr, Bool, true, false, not, ◌&&◌, Option, none, some, List, [],
  ◌∷◌, arith, ◌==◌, Bool-cases, Option-cases,
}
use mathlib.Core.Option
use mathlib.Core.Path.{subst}
use ministudo_guibuilder.Prelude.Int.{ℤ, eqb_ℤ}
use ministudo_guibuilder.GridLayout.State.{GridLayout}
use ministudo_guibuilder.GridLayout.Resize.{World, Run, done}
use ministudo_guibuilder.GridLayout.Spliter.{SpliterInfo, Search, found, not_found}
use ministudo_guibuilder.GridLayout.Spliter.Drag.{
  Message, mouse_move, button_down, button_up, other, Action, Box, default_cursor, fill_box,
  release_capture, size_cursor, result, extent, bar_box, draw_spliter_bar, with_layout, Drag,
  Outcome, step, crash, out_of_fuel, is_inner, hover, look, dropped, dragging, idle,
  process_spliter,
}
use ministudo_guibuilder.GridLayout.Spliter.Drag.Found.{
  LeadsSomewhere, get_spliter_info-LeadsSomewhere,
}

abbrev pub same_box : Box → Box → Bool
same_box b c = eqb_ℤ b.x c.x && eqb_ℤ b.y c.y && eqb_ℤ b.width c.width && eqb_ℤ b.height c.height

abbrev pub draws : Box → Action → Bool
draws b (fill_box c) = same_box b c
draws b _ = false

-- Exclusive or.
abbrev pub differ : Bool → Bool → Bool
differ true b = not b
differ false b = b

pub differ_self : (b : Bool) → differ b b ≡ false
differ_self true = refl
differ_self false = refl

differ-false : (b : Bool) → differ b false ≡ b
differ-false true = refl
differ-false false = refl

pub differ_assoc : (a b c : Bool) → differ (differ a b) c ≡ differ a (differ b c)
differ_assoc true true true = refl
differ_assoc true true false = refl
differ_assoc true false c = refl
differ_assoc false b c = refl

-- Whether a list of actions leaves a box drawn where there was none.
abbrev pub left_drawn : Box → List Action → Bool
left_drawn b [] = false
left_drawn b (a ∷ acts) = differ (draws b a) (left_drawn b acts)

-- The extent of the layout that is dragged.
abbrev pub dragged_extent : World → Drag → Option Box
dragged_extent w d = Option.map extent (w.grids d.grid)

abbrev pub is_bar : Box → Drag → Option Box → Bool
is_bar b d none = false
is_bar b d (some gl) = same_box b (bar_box gl d.is_horz d.old_x d.old_y)

-- Whether the box is the bar of what is dragged, for a layout of that extent.
abbrev pub shows : Box → Drag → Option Box → Bool
shows b d gl = not (d.grid == 0) && is_bar b d gl

-- The outcome, if it is one, has drawn what separates the two states.
abbrev pub Redraws : Box → World → Drag → Outcome → Type 0
Redraws b w d (step r) =
    left_drawn b r.actions
    ≡ differ (shows b d (dragged_extent w d)) (shows b r.drag (dragged_extent w r.drag))
Redraws b w d crash = Unit
Redraws b w d out_of_fuel = Unit

unchanged :
    (b : Box) (w : World) (d : Drag)
    → false ≡ differ (shows b d (dragged_extent w d)) (shows b d (dragged_extent w d))
unchanged b w d = sym (differ_self (shows b d (dragged_extent w d)))

hover-Redraws :
    (b : Box) (d : Drag) (w : World) (down : Bool) (x y : ℤ) (info : SpliterInfo)
    (g : Option GridLayout)
    → w.grids info.grid ≡ g
    → (d.grid == 0) ≡ true
    → (info.grid == 0) ≡ false
    → Redraws b w d (hover d w down x y info g)
hover-Redraws b d w down x y info none at h k = tt
hover-Redraws b d w down x y info (some g) at h k = elim (Bool-cases (is_inner g info)) [
  | inr outer ↦ rw (outer, h)
  | inl inner ↦ elim (Bool-cases down) [
    | inr up ↦ rw (inner, up, h)
    | inl pressed ↦ rw (inner, pressed, h, k, at) (differ-false _)
  ]
]

look-Redraws :
    (b : Box) (d : Drag) (w : World) (down : Bool) (x y : ℤ) (s : Search)
    → (d.grid == 0) ≡ true
    → LeadsSomewhere s
    → Redraws b w d (look d w down x y s)
look-Redraws b d w down x y (found info) h k =
    hover-Redraws b d w down x y info (w.grids info.grid) refl h (ground arith)
look-Redraws b d w down x y not_found h k = unchanged b w d
look-Redraws b d w down x y Search.crash h k = tt
look-Redraws b d w down x y Search.out_of_fuel h k = tt

module _ (is_window has_set_rect : ℕ → Bool) (to_gridlayout : ℕ → ℕ) (client_x client_y : ℤ → ℤ)
    (b : Box) where
  dropped-Redraws :
      (w : World) (d : Drag) (g : GridLayout) (r : Run)
      → w.grids d.grid ≡ some g
      → (d.grid == 0) ≡ false
      → Redraws b w d (
          dropped d
            (draw_spliter_bar g d.is_horz d.old_x d.old_y ∷ default_cursor ∷ release_capture ∷ [])
            r)
  dropped-Redraws w d g (done w') at h = rw (h, at)
  dropped-Redraws w d g Run.crash at h = tt
  dropped-Redraws w d g Run.out_of_fuel at h = tt

  pulled-Redraws :
      (w : World) (d : Drag) (g : GridLayout) (x y : ℤ)
      → w.grids d.grid ≡ some g
      → (d.grid == 0) ≡ false
      → Redraws b w d (
          result true
            (record d { old_x = x; old_y = y })
            w
            (size_cursor d.is_horz
              ∷ draw_spliter_bar g d.is_horz d.old_x d.old_y
              ∷ draw_spliter_bar g d.is_horz x y
              ∷ []))
  pulled-Redraws w d g x y at h = rw (h, at) (ap (differ _) (differ-false _))

  with_layout-Redraws :
      (w : World) (d : Drag) (f : GridLayout → Outcome)
      → ((g : GridLayout) → w.grids d.grid ≡ some g → Redraws b w d (f g))
      → Redraws b w d (with_layout (w.grids d.grid) f)
  with_layout-Redraws w d f h = elim (Option-cases (w.grids d.grid)) [
    | inl freed ↦ subst (λ o. Redraws b w d (with_layout o f)) (sym freed) tt
    | inr (g, at) ↦ subst (λ o. Redraws b w d (with_layout o f)) (sym at) (h g at)
  ]

  dragging-Redraws :
      (fuel : ℕ) (w : World) (d : Drag) (msg : Message) (x y : ℤ)
      → (d.grid == 0) ≡ false
      → Redraws b w d
          (dragging is_window has_set_rect to_gridlayout client_x client_y fuel w d msg x y)
  unfolding dragging
  dragging-Redraws fuel w d mouse_move x y h =
      with_layout-Redraws w d _ (λ g at. pulled-Redraws w d g (client_x x) (client_y y) at h)
  dragging-Redraws fuel w d button_up x y h =
      with_layout-Redraws w d _ (λ g at. dropped-Redraws w d g _ at h)
  dragging-Redraws fuel w d button_down x y h = unchanged b w d
  dragging-Redraws fuel w d other x y h = unchanged b w d

  idle-Redraws :
      (fuel : ℕ) (w : World) (d : Drag) (p : ℕ) (msg : Message) (x y : ℤ)
      → (d.grid == 0) ≡ true
      → p ≢ 0
      → Redraws b w d
          (idle is_window has_set_rect to_gridlayout client_x client_y fuel w d p msg x y)
  unfolding idle
  idle-Redraws fuel w d p mouse_move x y h ne =
      look-Redraws b d w false x y _ h
        (get_spliter_info-LeadsSomewhere to_gridlayout w.grids fuel x y p ne)
  idle-Redraws fuel w d p button_down x y h ne =
      look-Redraws b d w true x y _ h
        (get_spliter_info-LeadsSomewhere to_gridlayout w.grids fuel x y p ne)
  idle-Redraws fuel w d p button_up x y h ne = unchanged b w d
  idle-Redraws fuel w d p other x y h ne = unchanged b w d

  -- Every message that is handled without a crash draws boxes so that afterwards a box is on the screen
  -- exactly if it is the bar where a splitter is dragged to, if that was so before.
  pub process_spliter-Redraws :
      (fuel : ℕ) (w : World) (d : Drag) (p : ℕ) (msg : Message) (x y : ℤ)
      → p ≢ 0
      → Redraws b w d (
          process_spliter is_window has_set_rect to_gridlayout client_x client_y fuel w d p msg x y)
  unfolding process_spliter
  process_spliter-Redraws fuel w d p msg x y ne = elim (Bool-cases (d.grid == 0)) [
    | inl h ↦ rw h (idle-Redraws fuel w d p msg x y h ne)
    | inr h ↦ rw h (dragging-Redraws fuel w d msg x y h)
  ]
