-- ===== src/FixedLayout/Lists.antt =====
-- The list of cells of a fixed layout in mgfc/fixedlayout.c: inserting, placing, showing, clearing.
use ministudo_guibuilder.Prelude.{
  ℕ, zero, suc, ◌<◌, ◌≡◌, ◌≢◌, refl, sym, ap, ◌∙◌, ◌⊎◌, inl, inr, Bool, true, false, ◌||◌, none,
  some, List, [], ◌∷◌, arith, ◌==◌,
}
use ministudo_guibuilder.Prelude.Int.{pos, leb_ℤ}
use ministudo_guibuilder.Prelude.Access.{ok, fault}
use ministudo_guibuilder.GridLayout.State.{gct_max}
use ministudo_guibuilder.FixedLayout.Cells.{
  CellRect, FixedCell, FixedLayout, Heap, put_fixed, fixed_layout_insert, clear_loop,
  fixed_layout_clear, Show, out_of_fuel, then_show, show_cell, fixedlayout_show,
}

-- The addresses from `p` on lead to NULL through `n` cells at most.
abbrev pub Linked : Heap → ℕ → ℕ → Type 0
Linked cells zero p = p ≡ 0
Linked cells (suc n) p = (p ≡ 0) ⊎ ((c : FixedCell) × (cells p ≡ some c) × Linked cells n c.next)

put-ne : (cells : Heap) (p q : ℕ) (c : FixedCell) → q ≢ p → put_fixed cells p c q ≡ cells q
put-ne cells p q c ne = rw other
  where
    other : (q == p) ≡ false
    other = ground arith

-- A cell in memory that was free disturbs no list.
Linked-put_fixed :
    (cells : Heap) (n p q : ℕ) (c : FixedCell)
    → cells q ≡ none
    → Linked cells n p
    → Linked (put_fixed cells q c) n p
Linked-put_fixed cells zero p q c free end = end
Linked-put_fixed cells (suc n) p q c free (inl end) = inl end
Linked-put_fixed cells (suc n) p q c free (inr (d, e, more)) =
    inr (d, put-ne cells q p c different ∙ e, Linked-put_fixed cells n d.next q c free more)
  where
    different : p ≢ q
    different same = cc (sym e ∙ ap cells same ∙ free)

-- `FixedLayoutInsert` of a cell with a valid type and some content, at an address that `malloc` has
-- just made available, succeeds: the cell stands first, behind it follows the list that was there, and
-- no other address has changed, so that every cell of that list is as it was.
pub fixed_layout_insert-Linked :
    (cells : Heap) (pfl : FixedLayout) (p kind celldata n : ℕ) (rect : CellRect)
    → p ≢ 0
    → cells p ≡ none
    → celldata ≢ 0
    → 0 < kind
    → kind < gct_max
    → Linked cells n pfl.head
    → (cells' : Heap) × (pfl' : FixedLayout) × (fixed_layout_insert cells pfl p
          (pos kind)
          (some rect)
          celldata
        ≡ ok (true, cells', pfl'))
      × (cells' pfl'.head
          ≡ some (record { rect = rect; cell_type = kind; content = celldata; next = pfl.head }))
      × ((q : ℕ) → q ≢ p → cells' q ≡ cells q)
      × Linked cells' n pfl.head
      × Linked cells' (suc n) pfl'.head
unfolding fixed_layout_insert
fixed_layout_insert-Linked cells pfl p kind celldata n rect ne free full low high linked =
    let c : FixedCell = record {
      rect = rect;
      cell_type = kind;
      content = celldata;
      next = pfl.head;
    } in
    let there : put_fixed cells p c p ≡ some c = rw same in
    let behind = Linked-put_fixed cells n pfl.head p c free linked in
    (
      put_fixed cells p c,
      record pfl { head = p },
      rw (no_null, typed, not_null),
      there,
      (λ q other. put-ne cells p q c other),
      behind,
      inr (c, there, behind),
    )
  where
    same : (p == p) ≡ true
    same = ground arith

    no_null : (celldata == 0) ≡ false
    no_null = ground arith

    typed : (leb_ℤ (pos kind) (pos 0) || leb_ℤ (pos gct_max) (pos kind)) ≡ false
    typed = ground arith

    not_null : (p == 0) ≡ false
    not_null = ground arith

-- Showing a layout that has a cell never comes to an end.
pub fixedlayout_show_endless :
    (has_show : ℕ → Bool) (cells : Heap) (p : ℕ) (c : FixedCell) (visible : Bool)
    → p ≢ 0
    → cells p ≡ some c
    → (fuel : ℕ) → fixedlayout_show has_show fuel cells p visible ≡ out_of_fuel
unfolding fixedlayout_show
fixedlayout_show_endless has_show cells p c visible ne e zero = refl
fixedlayout_show_endless has_show cells p c visible ne e (suc fuel) =
    rw (not_null, e, fixedlayout_show_endless has_show cells p c visible ne e fuel)
      (stuck (show_cell has_show c visible))
  where
    not_null : (p == 0) ≡ false
    not_null = ground arith

    stuck : (acts : List Show) → then_show acts out_of_fuel ≡ out_of_fuel
    stuck [] = refl
    stuck (a ∷ acts) = refl

-- Clearing a layout that has a cell reads that cell after it has been freed.
pub fixed_layout_clear_freed :
    (fuel : ℕ) (cells : Heap) (pfl : FixedLayout)
    → pfl.head ≢ 0
    → fixed_layout_clear (suc fuel) cells pfl ≡ fault
unfolding fixed_layout_clear clear_loop
fixed_layout_clear_freed fuel cells pfl ne = rw (not_null, freed)
  where
    not_null : (pfl.head == 0) ≡ false
    not_null = ground arith

    freed : (pfl.head == pfl.head) ≡ true
    freed = ground arith
