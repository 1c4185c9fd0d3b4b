-- ===== src/GridLayout/Units/Twice.antt =====
-- Laying out twice: the second call of `recalca_units` changes nothing.
use ministudo_guibuilder.Prelude.{
  ℕ, zero, suc, ◌<◌, ◌≡◌, refl, ap, ◌∙◌, inl, inr, List, map, arith, ◌==◌, Bool-cases,
}
use mathlib.Core.Path.{ap₂}
use ministudo_guibuilder.Prelude.Int.{ℤ, pos, negsuc}
use ministudo_guibuilder.GridLayout.Units.{LayoutUnit, first_loop, share_unit, recalca_units}
use ministudo_guibuilder.GridLayout.Units.Bounds.{
  averages, averages-first_loop, averages-share, share_size,
}
use ministudo_guibuilder.GridLayout.Units.Sums.{
  fixed, recent, recalca_units-map, recalca_units-fixed,
}
use ministudo_guibuilder.GridLayout.Units.Shape.{
  first_loop-twice, first_loop-share, map-share-twice,
}

module _ (us : List LayoutUnit) (w : ℕ) (positive : 0 < w) where
  abbrev rest : ℕ
  rest = recent us w positive

  abbrev pass : List LayoutUnit
  pass = fixed us w positive

  abbrev size : ℕ
  size = share_size rest (averages us)

  abbrev shared : List LayoutUnit
  shared = map (share_unit size) pass

  -- The first loop on the shared units.
  again : first_loop w shared 0 w ≡ (shared, (first_loop w us 0 w).1, rest)
  again = first_loop-share w size pass 0 w ∙ rw (first_loop-twice w us 0 w)

  again_left : recent shared w positive ≡ rest
  again_left = ap (λ r. r.2) again

  same_size : share_size (recent shared w positive) (averages shared) ≡ size
  same_size = ap₂ share_size again_left (averages-share size pass ∙ averages-first_loop w us 0 w)

  twice_left :
      0 < rest → recalca_units (recalca_units us (pos w)) (pos w) ≡ recalca_units us (pos w)
  twice_left h = rw (recalca_units-map us w positive h) (
      recalca_units-map shared w positive (omega (arith, again_left))
      ∙ ap (λ s. map (share_unit s) (fixed shared w positive)) same_size
      ∙ ap (λ xs. map (share_unit size) xs) (ap (λ r. r.0) again)
      ∙ map-share-twice size pass)

  pass_left : recent pass w positive ≡ rest
  pass_left = ap (λ r. r.2) (first_loop-twice w us 0 w)

  twice_out : rest ≡ 0 → recalca_units (recalca_units us (pos w)) (pos w) ≡ recalca_units us (pos w)
  twice_out h = rw (recalca_units-fixed us w positive h) (
      recalca_units-fixed pass w positive (omega (arith, pass_left))
      ∙ ap (λ r. r.0) (first_loop-twice w us 0 w))

  twice_positive : recalca_units (recalca_units us (pos w)) (pos w) ≡ recalca_units us (pos w)
  twice_positive = elim (Bool-cases (rest == 0)) [
    | inl out ↦ twice_out (ground arith)
    | inr left ↦ twice_left (ground arith)
  ]

-- For every width, laying out a second time changes no unit.
pub recalca_units-twice :
    (us : List LayoutUnit) (width : ℤ)
    → recalca_units (recalca_units us width) width ≡ recalca_units us width
unfolding recalca_units
recalca_units-twice us (pos zero) = refl
recalca_units-twice us (pos (suc n)) = twice_positive us (suc n) (omega arith)
recalca_units-twice us (negsuc n) = rw stays stays
  where
    stays : recalca_units us (negsuc n) ≡ us
    stays = ground arith
