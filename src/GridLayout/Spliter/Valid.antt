-- ===== src/GridLayout/Spliter/Valid.antt =====
-- `updateSpliterSize` of mgfc/gridlayout.c keeps a layout well formed.
use ministudo_guibuilder.Prelude.{
  ℕ, ◌+◌, ◌-◌, ◌≡◌, refl, ◌∙◌, inl, inr, true, false, List, ltb, length, length-modify, Bool-cases,
  none, some, Option, Bool,
}
use mathlib.Core.Path.{subst}
use ministudo_guibuilder.Prelude.Int.{ℤ, pos, negsuc}
use ministudo_guibuilder.Prelude.Access.{Ensures, Ensures-bind, Ensures-ok}
use ministudo_guibuilder.GridLayout.Units.{LayoutUnit}
use ministudo_guibuilder.GridLayout.State.{GridLayout}
use ministudo_guibuilder.GridLayout.Cells.{IsValid, HasUnits, length-recalca_units}
use ministudo_guibuilder.GridLayout.Spliter.{
  idx_before, idx_after, drag_before, drag_after, update_units, update_table, update_spliter_size,
}

length-drag_before :
    (us : List LayoutUnit) (b s w xy : ℤ) → length (drag_before us b s w xy) ≡ length us
unfolding drag_before
length-drag_before us (negsuc n) s w xy = refl
length-drag_before us (pos i) s w xy = length-modify us i _

length-drag_after :
    (us : List LayoutUnit) (i : ℕ) (s w xy : ℤ) → length (drag_after us i s w xy) ≡ length us
unfolding drag_after
length-drag_after us i s w xy = elim (Bool-cases (ltb i (length us))) [
  | inl is ↦ rw is (length-modify us i _)
  | inr not' ↦ rw not'
]

length-update_units :
    (us : List LayoutUnit) (idx w : ℕ) (start xy : ℤ)
    → Ensures (update_units us idx start w xy) (λ vs. length vs ≡ length us)
unfolding update_units
length-update_units us idx w start xy =
    Ensures-bind (idx_after us (idx_before us idx) (length us - (idx + 1)) (idx + 1)) _
      (λ vs. length vs ≡ length us)
      λ after _.
        length-recalca_units _ (pos w)
        ∙ length-drag_after _ after start (pos w) xy
        ∙ length-drag_before us (idx_before us idx) start (pos w) xy

length-update_table :
    (units : Option (List LayoutUnit)) (n idx w : ℕ) (start xy : ℤ)
    → HasUnits units n
    → Ensures (update_table units idx start w xy) (λ vs. length vs ≡ n)
length-update_table none n idx w start xy h = tt
length-update_table (some us) n idx w start xy h =
    subst (λ m. Ensures (update_units us idx start w xy) (λ vs. length vs ≡ m)) h
      (length-update_units us idx w start xy)

-- A drag that does not crash leaves the layout well formed.
pub update_spliter_size-IsValid :
    (g : GridLayout) (horz : Bool) (idx : ℕ) (x y : ℤ)
    → IsValid g
    → Ensures (update_spliter_size g horz idx x y) IsValid
unfolding update_spliter_size
update_spliter_size-IsValid g true idx x y v =
    let fits = length-update_table g.row_height g.row_cnt idx g.height g.y y v.row_units in
    Ensures-bind (update_table g.row_height idx g.y g.height y) _ IsValid λ us e. record {
      columns = v.columns;
      column_lengths = v.column_lengths;
      row_units = Ensures-ok _ (λ vs. length vs ≡ g.row_cnt) fits e;
      col_units = v.col_units;
    }
update_spliter_size-IsValid g false idx x y v =
    let fits = length-update_table g.col_width g.col_cnt idx g.width g.x x v.col_units in
    Ensures-bind (update_table g.col_width idx g.x g.width x) _ IsValid λ us e. record {
      columns = v.columns;
      column_lengths = v.column_lengths;
      row_units = v.row_units;
      col_units = Ensures-ok _ (λ vs. length vs ≡ g.col_cnt) fits e;
    }
