-- ===== src/FixedLayout/Given.antt =====
-- The cells of a fixed layout that `_fixedlayout_setRect` of mgfc/fixedlayout.c has given their places.
use mathlib.Core.Path.{subst}
use ministudo_guibuilder.Prelude.{
  ℕ, zero, suc, ◌≡◌, refl, sym, ap, ◌∙◌, ◌⊎◌, inl, inr, true, some, arith, ◌==◌, Bool-cases,
  some-inj,
}
use ministudo_guibuilder.Prelude.Int.{ℤ}
use ministudo_guibuilder.GridLayout.Units.{LayoutUnit, lut_pixel, lut_percent, to_uint16}
use ministudo_guibuilder.GridLayout.Position.{Rect}
use ministudo_guibuilder.FixedLayout.Cells.{FixedCell, Heap, put_fixed}
use ministudo_guibuilder.FixedLayout.Place.{calca_size, fixed_layout_calca, fixed_layout_calcsize}

-- The stores to a unit in pixels or per cent; the new size takes no part in computing it again.
abbrev sized : ℤ → ℤ → LayoutUnit → LayoutUnit
sized from to u = record u { current_size = to_uint16 (calca_size from to u) }

calca-cases :
    (from to : ℤ) (u : LayoutUnit)
    → (((v : LayoutUnit) → v.kind ≡ u.kind → fixed_layout_calca from to v ≡ sized from to v)
        ⊎ (fixed_layout_calca from to u ≡ u))
unfolding fixed_layout_calca
calca-cases from to u = elim (Bool-cases (u.kind == lut_pixel)) [
  | inl pixel ↦ inl (λ v e. rw (e, pixel) refl)
  | inr a ↦ elim (Bool-cases (u.kind == lut_percent)) [
    | inl percent ↦ inl (λ v e. rw (e, a, percent) refl)
    | inr b ↦ inr (rw (a, b) refl)
  ]
]

sized_twice : (from to : ℤ) (u : LayoutUnit) → sized from to (sized from to u) ≡ sized from to u
unfolding calca_size
sized_twice from to u = refl

calca_twice :
    (from to : ℤ) (u : LayoutUnit)
    → fixed_layout_calca from to (fixed_layout_calca from to u) ≡ fixed_layout_calca from to u
calca_twice from to u = elim (calca-cases from to u) [
  | inr same ↦ ap (fixed_layout_calca from to) same
  | inl new ↦
      ap (fixed_layout_calca from to) (new u refl)
      ∙ new (sized from to u) refl
      ∙ sized_twice from to u
      ∙ sym (new u refl)
]

calcsize_twice :
    (r : Rect) (c : FixedCell)
    → fixed_layout_calcsize r (fixed_layout_calcsize r c) ≡ fixed_layout_calcsize r c
unfolding fixed_layout_calcsize
calcsize_twice r c = simp calca_twice

module _ (r : Rect) where
  -- From `p` on, through `n` cells at most: every cell has the place computed for it.
  abbrev pub AllGiven : Heap → Heap → ℕ → ℕ → Type 0
  AllGiven cells cells' zero p = p ≡ 0
  AllGiven cells cells' (suc n) p =
      (p ≡ 0)
      ⊎ ((c : FixedCell) × (cells p ≡ some c)
          × (cells' p ≡ some (fixed_layout_calcsize r c))
          × AllGiven cells cells' n c.next)

  -- A cell is as it was, or has the place computed for it.
  abbrev pub Frame : Heap → Heap → Type 0
  Frame cells cells' =
      (q : ℕ) (d : FixedCell)
      → cells q ≡ some d
      → (cells' q ≡ some d) ⊎ (cells' q ≡ some (fixed_layout_calcsize r d))

  -- One cell has been given its place, and then the others.
  module _ (cells cells' : Heap) (p : ℕ) (c : FixedCell) (there : cells p ≡ some c)
      (frame : Frame (put_fixed cells p (fixed_layout_calcsize r c)) cells') where
    pub given_here : cells' p ≡ some (fixed_layout_calcsize r c)
    given_here = elim (frame p (fixed_layout_calcsize r c) (rw same refl)) [
      | inl stays ↦ stays
      | inr again ↦ again ∙ ap some (calcsize_twice r c)
    ]
      where
        same : (p == p) ≡ true
        same = ground arith

    pub Frame-put : Frame cells cells'
    Frame-put q d at = elim (Bool-cases (q == p)) [
      | inr other ↦ frame q d (rw other at)
      | inl same ↦
          let place : q ≡ p = ground arith in
          let is : c ≡ d = some-inj (sym there ∙ ap cells (sym place) ∙ at) in
          inr (ap cells' place ∙ given_here ∙ ap (λ k. some (fixed_layout_calcsize r k)) is)
    ]

    pub AllGiven-put :
        (n q : ℕ)
        → AllGiven (put_fixed cells p (fixed_layout_calcsize r c)) cells' n q
        → AllGiven cells cells' n q
    AllGiven-put zero q end = end
    AllGiven-put (suc n) q (inl end) = inl end
    AllGiven-put (suc n) q (inr (d, at, given, more)) = elim (Bool-cases (q == p)) [
      | inr other ↦ inr (d, rw other at at, given, AllGiven-put n d.next more)
      | inl same ↦
          let place : q ≡ p = ground arith in
          let is : fixed_layout_calcsize r c ≡ d = some-inj (rw same at at) in
          let next : d.next ≡ c.next = ap (λ k. k.next) (sym is) ∙ kept in
          inr (
            c,
            ap cells place ∙ there,
            ap cells' place ∙ given_here,
            subst (AllGiven cells cells' n) next (AllGiven-put n d.next more),
          )
    ]
      where
        kept : (fixed_layout_calcsize r c).next ≡ c.next
        kept = unfold fixed_layout_calcsize in refl
