-- ===== src/GridLayout/Position/Index.antt =====
-- `get_idx_by_pos` finds the unit that a distance from the edge falls into. Unit `k` takes the
-- distances above where it begins, up to and including where it ends.
use ministudo_guibuilder.Prelude.{
  ℕ, zero, suc, ◌+◌, ◌-◌, ◌≤◌, ◌<◌, ◌≡◌, refl, sym, ap, ◌∙◌, inl, inr, List, [], ◌∷◌, arith,
  Bool-cases, lt→ltb, ltb, length,
}
use mathlib.Core.Path.{subst}
use ministudo_guibuilder.Prelude.Int.{ℤ, pos, negsuc, ◌-ℤ◌, ◌≤ℤ◌, ◌<ℤ◌}
use ministudo_guibuilder.GridLayout.Units.{LayoutUnit}
use ministudo_guibuilder.GridLayout.Units.Bounds.{total}
use ministudo_guibuilder.GridLayout.Position.{idx_loop, get_idx_by_pos, get_pos_from_unit}

pub get_pos_from_unit-zero : (us : List LayoutUnit) → get_pos_from_unit us 0 ≡ 0
unfolding get_pos_from_unit
get_pos_from_unit-zero [] = refl
get_pos_from_unit-zero (u ∷ us) = refl

step_back : (i : ℕ) → pos (i + 1) -ℤ pos 1 ≡ pos i
unfolding ◌-ℤ◌
step_back i = ground arith

before-first : pos 0 -ℤ pos 1 ≡ negsuc 0
unfolding ◌-ℤ◌
before-first = refl

idx_loop-stop :
    (us : List LayoutUnit) (at : ℤ) (i w : ℕ) → at ≤ℤ pos w → idx_loop us at i w ≡ pos i -ℤ pos 1
unfolding idx_loop
idx_loop-stop [] at i w h = ground arith
idx_loop-stop (u ∷ us) at i w h = ground arith

-- The loop, entered at index `i` with `w` before the point reached.
idx_loop-hit :
    (us : List LayoutUnit) (p i w k : ℕ)
    → k < length us
    → w + get_pos_from_unit us k < p
    → p ≤ w + get_pos_from_unit us (suc k)
    → idx_loop us (pos p) i w ≡ pos (i + k)
unfolding idx_loop get_pos_from_unit
idx_loop-hit [] p i w k h lo hi = elim h [ ]
idx_loop-hit (u ∷ us) p i w zero h lo hi = rw (lt→ltb (w + 0) (p + 0) (omega arith)) (
    idx_loop-stop us (pos p) (i + 1) (w + u.current_size) (omega (arith, get_pos_from_unit-zero us))
    ∙ step_back i
    ∙ ap pos (omega arith))
idx_loop-hit (u ∷ us) p i w (suc k) h lo hi = rw (lt→ltb (w + 0) (p + 0) (omega arith)) (
    idx_loop-hit us p (i + 1) (w + u.current_size) k (omega arith) (omega arith) (omega arith)
    ∙ ap pos (omega arith))

idx_loop-past :
    (us : List LayoutUnit) (p i w : ℕ) → w + total us < p → idx_loop us (pos p) i w ≡ negsuc 0
unfolding idx_loop
idx_loop-past [] p i w h = ground arith
idx_loop-past (u ∷ us) p i w h =
    rw (lt→ltb (w + 0) (p + 0) (omega arith))
      (idx_loop-past us p (i + 1) (w + u.current_size) (omega arith))

-- A distance above where unit `k` begins and not above where it ends is found in unit `k`.
pub get_idx_by_pos-hit :
    (us : List LayoutUnit) (p k : ℕ)
    → k < length us
    → get_pos_from_unit us k < p
    → p ≤ get_pos_from_unit us (suc k)
    → get_idx_by_pos us (pos p) ≡ pos k
unfolding get_idx_by_pos
get_idx_by_pos-hit us p k h lo hi =
    idx_loop-hit us p 0 0 k h (omega arith) (omega arith) ∙ ap pos (omega arith)

-- A distance that is not positive is found in no unit, the edge of the layout included.
pub get_idx_by_pos-le-zero :
    (us : List LayoutUnit) (at : ℤ) → at ≤ℤ pos 0 → get_idx_by_pos us at ≡ negsuc 0
unfolding get_idx_by_pos
get_idx_by_pos-le-zero us at h = idx_loop-stop us at 0 0 h ∙ before-first

-- Nor is one beyond the last unit.
pub get_idx_by_pos-past :
    (us : List LayoutUnit) (p : ℕ) → total us < p → get_idx_by_pos us (pos p) ≡ negsuc 0
unfolding get_idx_by_pos
get_idx_by_pos-past us p h = idx_loop-past us p 0 0 (omega arith)

-- The units between them cover the distances from 1 to the total.
pub locate :
    (us : List LayoutUnit) (p : ℕ)
    → 0 < p
    → p ≤ total us
    → (k : ℕ) × (k < length us) × (get_pos_from_unit us k < p) × (p ≤ get_pos_from_unit us (suc k))
unfolding get_pos_from_unit
locate [] p h le = absurd (omega arith)
locate (u ∷ us) p h le = elim (Bool-cases (ltb u.current_size p)) [
  | inr here ↦ (0, omega arith, omega arith, ground arith)
  | inl later ↦
      let (k, inside, lo, hi) = locate us (p - u.current_size) (ground arith) (ground arith) in
      (suc k, omega arith, ground arith, ground arith)
]

pos-injective : {m n : ℕ} → pos m ≡ pos n → m ≡ n
pos-injective h = cc

-- Where unit `k` begins and ends, around a distance.
abbrev pub Within : List LayoutUnit → ℤ → ℕ → Type 0
Within us at k =
    (k < length us)
    × (pos (get_pos_from_unit us k) <ℤ at)
    × (at ≤ℤ pos (get_pos_from_unit us (suc k)))

found-positive :
    (us : List LayoutUnit) (p k : ℕ)
    → 0 < p
    → p ≤ total us
    → get_idx_by_pos us (pos p) ≡ pos k
    → Within us (pos p) k
found-positive us p k h le e =
    let (j, inside, lo, hi) = locate us p h le in
    subst (Within us (pos p)) (pos-injective (sym (get_idx_by_pos-hit us p j inside lo hi) ∙ e))
      (inside, omega arith, omega arith)

-- The other way round, an index that `get_idx_by_pos` returns and that is not -1 is that of a unit
-- that begins below the distance and does not end below it.
pub get_idx_by_pos-Within :
    (us : List LayoutUnit) (at : ℤ) (k : ℕ) → get_idx_by_pos us at ≡ pos k → Within us at k
get_idx_by_pos-Within us (negsuc n) k e =
    absurd (cc (sym e ∙ get_idx_by_pos-le-zero us (negsuc n) (omega arith)))
get_idx_by_pos-Within us (pos p) k e = elim (Bool-cases (ltb 0 p)) [
  | inr edge ↦ absurd (cc (sym e ∙ get_idx_by_pos-le-zero us (pos p) (ground arith)))
  | inl inside ↦ elim (Bool-cases (ltb (total us) p)) [
    | inl past ↦ absurd (cc (sym e ∙ get_idx_by_pos-past us p (ground arith)))
    | inr covered ↦ found-positive us p k (ground arith) (ground arith) e
  ]
]
