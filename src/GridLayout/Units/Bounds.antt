-- ===== src/GridLayout/Units/Bounds.antt =====
-- The two loops of `recalca_units`: what they add up to.
use ministudo_guibuilder.Prelude.{
  ℕ, ◌+◌, ◌*◌, ◌/◌, ◌≤◌, ◌<◌, ◌≡◌, refl, sym, false, inl, inr, List, [], ◌∷◌, map, arith, ◌==◌,
  if◌then◌else◌, Bool-cases,
}
use ministudo_guibuilder.Prelude.Int.{pos}
use ministudo_guibuilder.GridLayout.Units.{
  LayoutUnit, is_average, granted, fix_unit, left_over, count_average, first_loop, share_unit,
  uncount_average, second_loop, spread, to_uint16,
}

-- The sum of all sizes, and of those of the units with a size of their own.
abbrev pub total : List LayoutUnit → ℕ
total [] = 0
total (u ∷ us) = u.current_size + total us

abbrev pub fixed_total : List LayoutUnit → ℕ
fixed_total [] = 0
fixed_total (u ∷ us) = (if is_average u then 0 else u.current_size) + fixed_total us

abbrev pub averages : List LayoutUnit → ℕ
averages [] = 0
averages (u ∷ us) = (if is_average u then 1 else 0) + averages us

fix_unit-is_average : (w r : ℕ) (u : LayoutUnit) → is_average (fix_unit w r u) ≡ is_average u
unfolding fix_unit is_average
fix_unit-is_average w r u = ground arith

granted-le : (w r : ℕ) (u : LayoutUnit) → granted w r u ≤ r
unfolding granted
granted-le w r u = ground arith

fix_unit-left_over :
    (w r : ℕ) (u : LayoutUnit)
    → (if is_average u then 0 else (fix_unit w r u).current_size) + left_over w r u ≡ r
unfolding fix_unit left_over
fix_unit-left_over w r u = ground (arith, granted-le w r u)

-- The first loop spends what it takes from `recent`.
pub first_loop-fixed_total :
    (w : ℕ) (us : List LayoutUnit) (avgs recent : ℕ)
    → fixed_total (first_loop w us avgs recent).0 + (first_loop w us avgs recent).2 ≡ recent
unfolding first_loop
first_loop-fixed_total w [] avgs recent = omega arith
first_loop-fixed_total w (u ∷ us) avgs recent = rw (fix_unit-is_average w recent u) (
    omega (
      arith,
      fix_unit-left_over w recent u,
      first_loop-fixed_total w us (count_average u avgs) (left_over w recent u),
    ))

-- It counts the average units.
pub first_loop-averages :
    (w : ℕ) (us : List LayoutUnit) (avgs recent : ℕ)
    → (first_loop w us avgs recent).1 ≡ avgs + averages us
unfolding first_loop count_average
first_loop-averages w [] avgs recent = omega arith
first_loop-averages w (u ∷ us) avgs recent =
    ground (arith, first_loop-averages w us (count_average u avgs) (left_over w recent u))

-- It does not touch them.
pub averages-first_loop :
    (w : ℕ) (us : List LayoutUnit) (avgs recent : ℕ)
    → averages (first_loop w us avgs recent).0 ≡ averages us
unfolding first_loop
averages-first_loop w [] avgs recent = refl
averages-first_loop w (u ∷ us) avgs recent = rw (
  fix_unit-is_average w recent u,
  averages-first_loop w us (count_average u avgs) (left_over w recent u),
)

-- The sizes that the average units had before.
abbrev pub average_total : List LayoutUnit → ℕ
average_total [] = 0
average_total (u ∷ us) = (if is_average u then u.current_size else 0) + average_total us

fix_unit-average :
    (w r : ℕ) (u : LayoutUnit)
    → (if is_average u then (fix_unit w r u).current_size else 0)
      ≡ (if is_average u then u.current_size else 0)
unfolding fix_unit
fix_unit-average w r u = ground arith

pub average_total-first_loop :
    (w : ℕ) (us : List LayoutUnit) (avgs recent : ℕ)
    → average_total (first_loop w us avgs recent).0 ≡ average_total us
unfolding first_loop
average_total-first_loop w [] avgs recent = refl
average_total-first_loop w (u ∷ us) avgs recent = rw (
  fix_unit-is_average w recent u,
  fix_unit-average w recent u,
  average_total-first_loop w us (count_average u avgs) (left_over w recent u),
)

pub total-split : (us : List LayoutUnit) → total us ≡ fixed_total us + average_total us
total-split [] = omega arith
total-split (u ∷ us) = ground (arith, total-split us)

share_unit-is_average : (s : ℕ) (u : LayoutUnit) → is_average (share_unit s u) ≡ is_average u
unfolding share_unit is_average
share_unit-is_average s u = ground arith

share_unit_self : (s : ℕ) (u : LayoutUnit) → is_average u ≡ false → share_unit s u ≡ u
unfolding share_unit
share_unit_self s u h = rw h

map-share-none : (s : ℕ) (us : List LayoutUnit) → averages us ≡ 0 → map (share_unit s) us ≡ us
map-share-none s [] h = refl
map-share-none s (u ∷ us) h = elim (Bool-cases (is_average u)) [
  | inl yes' ↦ absurd (ground arith)
  | inr no' ↦ rw (share_unit_self s u no', map-share-none s us (ground arith))
]

-- With enough average units to come, the second loop reaches them all.
pub second_loop-map :
    (s : ℕ) (us : List LayoutUnit) (avgs : ℕ)
    → averages us ≤ avgs
    → second_loop s us avgs ≡ map (share_unit s) us
unfolding second_loop
second_loop-map s [] avgs h = refl
second_loop-map s (u ∷ us) avgs h = elim (Bool-cases (avgs == 0)) [
  | inl done ↦ rw done (sym (map-share-none s (u ∷ us) (ground arith)))
  | inr more ↦ rw more (rw (second_loop-map s us (uncount_average u avgs) left))
]
  where
    left : averages us ≤ uncount_average u avgs
    left = unfold uncount_average in ground arith

fixed-share :
    (s : ℕ) (u : LayoutUnit)
    → (if is_average u then 0 else (share_unit s u).current_size)
      ≡ (if is_average u then 0 else u.current_size)
unfolding share_unit
fixed-share s u = ground arith

pub fixed_total-share :
    (s : ℕ) (us : List LayoutUnit) → fixed_total (map (share_unit s) us) ≡ fixed_total us
fixed_total-share s [] = refl
fixed_total-share s (u ∷ us) =
    rw (share_unit-is_average s u, fixed_total-share s us, fixed-share s u)

average-share :
    (s : ℕ) (u : LayoutUnit)
    → (if is_average u then (share_unit s u).current_size else 0)
      ≡ (if is_average u then 1 else 0) * s
unfolding share_unit
average-share s u = ground arith

pub average_total-share :
    (s : ℕ) (us : List LayoutUnit) → average_total (map (share_unit s) us) ≡ averages us * s
average_total-share s [] = omega arith
average_total-share s (u ∷ us) =
    rw (share_unit-is_average s u, average_total-share s us, average-share s u) (omega arith)

-- The size of each average unit, from what is left over.
abbrev pub share_size : ℕ → ℕ → ℕ
share_size recent avgs = to_uint16 (pos (recent / (if avgs == 0 then 1 else avgs)))

pub spread-map :
    (us : List LayoutUnit) (recent : ℕ)
    → 0 < recent
    → spread us (averages us) recent ≡ map (share_unit (share_size recent (averages us))) us
unfolding spread
spread-map us recent h = rw (ne0) (second_loop-map _ us _ (ground arith))
  where
    ne0 : (recent == 0) ≡ false
    ne0 = ground arith

pub averages-share : (s : ℕ) (us : List LayoutUnit) → averages (map (share_unit s) us) ≡ averages us
averages-share s [] = refl
averages-share s (u ∷ us) = rw (share_unit-is_average s u, averages-share s us)
