-- ===== src/GridLayout/Units/Sums.antt =====
-- How much of the width `recalca_units` hands out.
use ministudo_guibuilder.Prelude.{
  ℕ, zero, suc, ◌+◌, ◌*◌, ◌/◌, ◌%◌, ◌^◌, ◌≤◌, ◌<◌, ◌≡◌, ap, ◌∙◌, inl, inr, false, List, map, arith,
  ◌==◌, Bool-cases,
}
use mathlib.Core.Path.{subst}
use native.Mathlib.Nat.{mul-div-le, lt-mul-div-succ, div-le_self, mod-eq_of_lt, lt_of_le_of_lt}
use ministudo_guibuilder.Prelude.Int.{pos, leb_ℤ, wrap_pos}
use ministudo_guibuilder.GridLayout.Units.{
  LayoutUnit, first_loop, share_unit, spread, recalca_units,
}
use ministudo_guibuilder.GridLayout.Units.Bounds.{
  total, fixed_total, averages, average_total, first_loop-fixed_total, first_loop-averages,
  averages-first_loop, average_total-first_loop, total-split, fixed_total-share,
  average_total-share, share_size, spread-map,
}

mod-le : (n : ℕ) → n % 2 ^ 16 ≤ n
mod-le n = omega arith

mul_mono : (k : ℕ) {a b : ℕ} → a ≤ b → k * a ≤ k * b
mul_mono k h = grind arith

share_size_lem : (recent avgs : ℕ) → 0 < avgs → share_size recent avgs ≡ recent / avgs % 2 ^ 16
share_size_lem recent avgs h = rw (nonzero) (wrap_pos (recent / avgs) (2 ^ 16) (omega arith))
  where
    nonzero : (avgs == 0) ≡ false
    nonzero = ground arith

share_size-le : (recent avgs : ℕ) → avgs * share_size recent avgs ≤ recent
share_size-le recent zero = omega arith
share_size-le recent (suc k) =
    rw (share_size_lem recent (suc k) (omega arith))
      (omega (arith, mul-div-le recent (suc k), mul_mono (suc k) (mod-le (recent / suc k))))

-- Less than one unit for each average unit is lost to rounding.
share_size-lt :
    (recent avgs : ℕ) → 0 < avgs → recent < 2 ^ 16 → recent < avgs * share_size recent avgs + avgs
share_size-lt recent avgs h small =
    rw (share_size_lem recent avgs h, mod-eq_of_lt (lt_of_le_of_lt (div-le_self recent avgs) small))
      (omega (arith, lt-mul-div-succ recent h))

-- What the whole function does, from the end of its first loop.
module _ (us : List LayoutUnit) (w : ℕ) (positive : 0 < w) where
  abbrev pub fixed : List LayoutUnit
  fixed = (first_loop w us 0 w).0

  abbrev pub recent : ℕ
  recent = (first_loop w us 0 w).2

  spent : fixed_total fixed + recent ≡ w
  spent = first_loop-fixed_total w us 0 w

  recalca_units-spread : recalca_units us (pos w) ≡ spread fixed (averages us) recent
  unfolding recalca_units
  recalca_units-spread =
      rw (lemma, first_loop-averages w us 0 w) (ap (λ n. spread fixed n recent) (omega arith))
    where
      lemma : leb_ℤ (pos w) (pos 0) ≡ false
      lemma = ground arith

  pub recalca_units-map :
      0 < recent
      → recalca_units us (pos w) ≡ map (share_unit (share_size recent (averages us))) fixed
  recalca_units-map h =
      recalca_units-spread
      ∙ subst (λ n. spread fixed n recent ≡ map (share_unit (share_size recent n)) fixed)
          (averages-first_loop w us 0 w) (spread-map fixed recent h)

  pub recalca_units-fixed : recent ≡ 0 → recalca_units us (pos w) ≡ fixed
  unfolding spread
  recalca_units-fixed h = recalca_units-spread ∙ rw h

  -- The units with a size of their own get no more than the width.
  pub fixed_total-recalca_units : fixed_total (recalca_units us (pos w)) ≡ fixed_total fixed
  fixed_total-recalca_units = elim (Bool-cases (recent == 0)) [
    | inl out ↦ rw (recalca_units-fixed (ground arith))
    | inr more ↦ rw (recalca_units-map (ground arith)) (fixed_total-share _ fixed)
  ]

  -- While something is left the whole row fits into the width.
  pub total-recalca_units-le : 0 < recent → total (recalca_units us (pos w)) ≤ w
  total-recalca_units-le h = rw (recalca_units-map h) (
      omega (
        arith,
        total-split (map (share_unit (share_size recent (averages us))) fixed),
        fixed_total-share (share_size recent (averages us)) fixed,
        average_total-share (share_size recent (averages us)) fixed,
        ap (λ (n : ℕ). n * share_size recent (averages us)) (averages-first_loop w us 0 w),
        share_size-le recent (averages us),
        spent,
      ))

  pub total-recalca_units-gt :
      0 < recent → 0 < averages us → w < 2 ^ 16 → w < total (recalca_units us (pos w)) + averages us
  total-recalca_units-gt h some_average small = rw (recalca_units-map h) (
      omega (
        arith,
        total-split (map (share_unit (share_size recent (averages us))) fixed),
        fixed_total-share (share_size recent (averages us)) fixed,
        average_total-share (share_size recent (averages us)) fixed,
        ap (λ (n : ℕ). n * share_size recent (averages us)) (averages-first_loop w us 0 w),
        share_size-lt recent (averages us),
        spent,
      ))

  pub total-recalca_units_out : recent ≡ 0 → total (recalca_units us (pos w)) ≡ w + average_total us
  total-recalca_units_out h =
      rw (recalca_units-fixed h)
        (omega (arith, total-split fixed, average_total-first_loop w us 0 w, spent))

-- The units that have a size of their own never get more than the width in all, whatever sizes
-- they ask for, negative ones included.
pub recalca_units-fixed_total-le :
    (us : List LayoutUnit) (w : ℕ) → 0 < w → fixed_total (recalca_units us (pos w)) ≤ w
recalca_units-fixed_total-le us w h = omega (arith, fixed_total-recalca_units us w h, spent us w h)

-- If the units with a size of their own leave something of a width below 2^16 and there are units
-- without, the sizes add up to the width, less a rounding loss smaller than the number of the
-- units without a size of their own.
pub recalca_units-fills :
    (us : List LayoutUnit) (w : ℕ)
    → 0 < w
    → w < 2 ^ 16
    → 0 < averages us
    → fixed_total (recalca_units us (pos w)) < w
    → (total (recalca_units us (pos w)) ≤ w) × (w < total (recalca_units us (pos w)) + averages us)
recalca_units-fills us w h small some_average room =
    (total-recalca_units-le us w h left, total-recalca_units-gt us w h left some_average small)
  where
    left : 0 < recent us w h
    left = omega (arith, fixed_total-recalca_units us w h, spent us w h)

-- If they leave nothing, the units without a size of their own keep the sizes that they had, so
-- that the sizes add up to the width and those old sizes.
pub recalca_units_stale :
    (us : List LayoutUnit) (w : ℕ)
    → 0 < w
    → fixed_total (recalca_units us (pos w)) ≡ w
    → total (recalca_units us (pos w)) ≡ w + average_total us
recalca_units_stale us w h full = total-recalca_units_out us w h left
  where
    left : recent us w h ≡ 0
    left = omega (arith, fixed_total-recalca_units us w h, spent us w h)
