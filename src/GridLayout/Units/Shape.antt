-- ===== src/GridLayout/Units/Shape.antt =====
-- What `recalca_units` leaves alone, and that a second call changes nothing.
use ministudo_guibuilder.Prelude.{
  ℕ, ◌≡◌, refl, ◌∙◌, inl, inr, List, [], ◌∷◌, map, arith, ◌==◌, Bool-cases,
}
use mathlib.Core.Path.{ap₂}
use ministudo_guibuilder.Prelude.Int.{ℤ, pos, leb_ℤ}
use ministudo_guibuilder.GridLayout.Units.{
  LayoutUnit, is_average, wanted, granted, fix_unit, left_over, count_average, first_loop,
  share_unit, uncount_average, second_loop, spread, recalca_units,
}

-- A unit without its current size.
abbrev pub request : LayoutUnit → ℕ × ℤ
request u = (u.kind, u.logic_size)

fix_unit-request : (w r : ℕ) (u : LayoutUnit) → request (fix_unit w r u) ≡ request u
unfolding fix_unit
fix_unit-request w r u = ground arith

share_unit-request : (s : ℕ) (u : LayoutUnit) → request (share_unit s u) ≡ request u
unfolding share_unit
share_unit-request s u = ground arith

first_loop-request :
    (w : ℕ) (us : List LayoutUnit) (avgs recent : ℕ)
    → map request (first_loop w us avgs recent).0 ≡ map request us
unfolding first_loop
first_loop-request w [] avgs recent = refl
first_loop-request w (u ∷ us) avgs recent =
    ap₂ ◌∷◌ (fix_unit-request w recent u)
      (first_loop-request w us (count_average u avgs) (left_over w recent u))

second_loop-request :
    (s : ℕ) (us : List LayoutUnit) (avgs : ℕ) → map request (second_loop s us avgs) ≡ map request us
unfolding second_loop
second_loop-request s [] avgs = refl
second_loop-request s (u ∷ us) avgs = elim (Bool-cases (avgs == 0)) [
  | inl done ↦ rw done
  | inr more ↦
      rw more (ap₂ ◌∷◌ (share_unit-request s u) (second_loop-request s us (uncount_average u avgs)))
]

spread-request :
    (us : List LayoutUnit) (avgs recent : ℕ) → map request (spread us avgs recent) ≡ map request us
unfolding spread
spread-request us avgs recent = elim (Bool-cases (recent == 0)) [
  | inl done ↦ rw done
  | inr more ↦ rw more (second_loop-request _ us _)
]

-- `recalca_units` writes no `type` and no `logic_size`, and keeps the number of units.
pub recalca_units-request :
    (us : List LayoutUnit) (width : ℤ) → map request (recalca_units us width) ≡ map request us
unfolding recalca_units
recalca_units-request us width = elim (Bool-cases (leb_ℤ width (pos 0))) [
  | inl none' ↦ rw none'
  | inr some' ↦ rw some' (spread-request _ _ _ ∙ first_loop-request _ us 0 _)
]

fix_unit-granted : (w r : ℕ) (u : LayoutUnit) → granted w r (fix_unit w r u) ≡ granted w r u
unfolding fix_unit granted wanted
fix_unit-granted w r u = elim (Bool-cases (is_average u)) [
  | inl shares ↦ rw shares
  | inr asks ↦ rw asks
]

fix_unit-is_average : (w r : ℕ) (u : LayoutUnit) → is_average (fix_unit w r u) ≡ is_average u
unfolding fix_unit is_average
fix_unit-is_average w r u = ground arith

fix_unit-twice : (w r : ℕ) (u : LayoutUnit) → fix_unit w r (fix_unit w r u) ≡ fix_unit w r u
unfolding fix_unit granted wanted is_average
fix_unit-twice w r u = ground arith

left_over-fix_unit : (w r : ℕ) (u : LayoutUnit) → left_over w r (fix_unit w r u) ≡ left_over w r u
unfolding left_over
left_over-fix_unit w r u = rw (fix_unit-is_average w r u, fix_unit-granted w r u)

count_average-fix_unit :
    (w r a : ℕ) (u : LayoutUnit) → count_average (fix_unit w r u) a ≡ count_average u a
unfolding count_average
count_average-fix_unit w r a u = rw (fix_unit-is_average w r u)

pub first_loop-twice :
    (w : ℕ) (us : List LayoutUnit) (avgs recent : ℕ)
    → first_loop w (first_loop w us avgs recent).0 avgs recent ≡ first_loop w us avgs recent
unfolding first_loop
first_loop-twice w [] avgs recent = refl
first_loop-twice w (u ∷ us) avgs recent = rw (
  count_average-fix_unit w recent avgs u,
  left_over-fix_unit w recent u,
  fix_unit-twice w recent u,
  first_loop-twice w us (count_average u avgs) (left_over w recent u),
)

fix_unit-share_unit :
    (w r s : ℕ) (u : LayoutUnit) → fix_unit w r (share_unit s u) ≡ share_unit s (fix_unit w r u)
unfolding fix_unit share_unit granted wanted is_average
fix_unit-share_unit w r s u = ground arith

left_over-share_unit :
    (w r s : ℕ) (u : LayoutUnit) → left_over w r (share_unit s u) ≡ left_over w r u
unfolding share_unit left_over granted wanted is_average
left_over-share_unit w r s u = ground arith

count_average-share_unit :
    (s a : ℕ) (u : LayoutUnit) → count_average (share_unit s u) a ≡ count_average u a
unfolding share_unit count_average is_average
count_average-share_unit s a u = ground arith

share_unit-twice : (s : ℕ) (u : LayoutUnit) → share_unit s (share_unit s u) ≡ share_unit s u
unfolding share_unit is_average
share_unit-twice s u = ground arith

pub map-share-twice :
    (s : ℕ) (us : List LayoutUnit)
    → map (share_unit s) (map (share_unit s) us) ≡ map (share_unit s) us
map-share-twice s [] = refl
map-share-twice s (u ∷ us) = ap₂ ◌∷◌ (share_unit-twice s u) (map-share-twice s us)

pub first_loop-share :
    (w s : ℕ) (us : List LayoutUnit) (avgs recent : ℕ)
    → first_loop w (map (share_unit s) us) avgs recent ≡ (
      map (share_unit s) (first_loop w us avgs recent).0,
      (first_loop w us avgs recent).1,
      (first_loop w us avgs recent).2,
    )
unfolding first_loop
first_loop-share w s [] avgs recent = refl
first_loop-share w s (u ∷ us) avgs recent = rw (
  count_average-share_unit s avgs u,
  left_over-share_unit w recent s u,
  fix_unit-share_unit w recent s u,
  first_loop-share w s us (count_average u avgs) (left_over w recent u),
)
