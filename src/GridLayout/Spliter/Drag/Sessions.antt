-- ===== src/GridLayout/Spliter/Drag/Sessions.antt =====
-- Sequences of mouse messages that `processSpliter` of mgfc/gridlayout.c handles.
use mathlib.Core.Path.{subst, ap₂}
use ministudo_guibuilder.Prelude.{
  ℕ, ◌≡◌, ◌≢◌, refl, sym, ap, ◌∙◌, inl, inr, Bool, Bool-cases, Option, none, arith, ◌==◌, List, [],
  ◌∷◌, ◌++◌,
}
use ministudo_guibuilder.Prelude.Int.{ℤ}
use ministudo_guibuilder.GridLayout.Resize.{World}
use ministudo_guibuilder.GridLayout.Spliter.Drag.{
  Message, Action, Box, Drag, Result, step, process_spliter, no_drag,
}
use ministudo_guibuilder.GridLayout.Spliter.Drag.Bars.{
  draws, differ, dragged_extent, differ_assoc, differ_self, left_drawn, shows, Redraws,
  process_spliter-Redraws,
}

left_drawn-append :
    (b : Box) (xs ys : List Action)
    → left_drawn b (xs ++ ys) ≡ differ (left_drawn b xs) (left_drawn b ys)
left_drawn-append b [] ys = refl
left_drawn-append b (a ∷ xs) ys =
    ap (differ (draws b a)) (left_drawn-append b xs ys)
    ∙ sym (differ_assoc (draws b a) (left_drawn b xs) (left_drawn b ys))

module _ (is_window has_set_rect : ℕ → Bool) (to_gridlayout : ℕ → ℕ)
    (client_x client_y : ℤ → ℤ) where
  -- The states that a sequence of messages leads to, with the extent that the layout dragged had when
  -- its bar was drawn, and all actions so far. Between the messages the layouts may change, but not the
  -- extent of the one that is dragged.
  pub data Session : Drag → Option Box → List Action → Type 0 where
    start : Session no_drag none []
    handle :
        {d d' : Drag} {gl gl' : Option Box} {acts acts' : List Action} (fuel : ℕ) (w : World)
        (p : ℕ) (msg : Message) (x y : ℤ) (r : Result)
        → Session d gl acts
        → p ≢ 0
        → (d.grid ≢ 0 → dragged_extent w d ≡ gl)
        → process_spliter is_window has_set_rect to_gridlayout client_x client_y fuel w d p msg x y
          ≡ step r
        → d' ≡ r.drag
        → gl' ≡ dragged_extent w r.drag
        → acts' ≡ acts ++ r.actions
        → Session d' gl' acts'

  shows-extent :
      (b : Box) (w : World) (d : Drag) (gl : Option Box)
      → (d.grid ≢ 0 → dragged_extent w d ≡ gl)
      → shows b d gl ≡ shows b d (dragged_extent w d)
  shows-extent b w d gl same = elim (Bool-cases (d.grid == 0)) [
    | inl idle ↦ rw idle refl
    | inr busy ↦ ap (shows b d) (sym (same (ground arith)))
  ]

  -- After any sequence of handled messages during which the layout that is dragged keeps its place and
  -- extent, a box is on the screen exactly if it is the bar, four pixels wide and across that layout, at
  -- the point to which a splitter is being dragged; when nothing is dragged, none is left.
  pub Session-bars :
      (b : Box) {d : Drag} {gl : Option Box} {acts : List Action}
      → Session d gl acts
      → left_drawn b acts ≡ shows b d gl
  Session-bars b start = refl
  Session-bars b (handle {d} {gl = gl} {acts = before} fuel w p msg x y r s ne same e ed eg ea) =
      let old = shows b d (dragged_extent w d) in
      let new = shows b r.drag (dragged_extent w r.drag) in
      let drawn : left_drawn b r.actions ≡ differ old new = subst (Redraws b w d) e (
        process_spliter-Redraws is_window has_set_rect to_gridlayout client_x client_y b fuel w d p
          msg x y ne) in
      ap (left_drawn b) ea
      ∙ left_drawn-append b before r.actions
      ∙ ap₂ differ (Session-bars b s ∙ shows-extent b w d gl same) drawn
      ∙ sym (differ_assoc old old new)
      ∙ ap (λ z. differ z new) (differ_self old)
      ∙ ap₂ (shows b) (sym ed) (sym eg)
