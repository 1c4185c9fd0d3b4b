-- ===== src/FixedLayout/Sizes.antt =====
-- Where `_fixed_layout_calca` of mgfc/fixedlayout.c places an edge.
use ministudo_guibuilder.Prelude.{
  ℕ, zero, suc, ◌+◌, ◌*◌, ◌/◌, ◌^◌, ◌≤◌, ◌<◌, ◌≡◌, refl, ◌∙◌, ◌⊎◌, inl, inr, true, false,
  Bool-cases, arith,
}
use ministudo_guibuilder.Prelude.Int.{
  ℤ, pos, negsuc, pos_part, neg_part, sub_ℕ, ◌+ℤ◌, ◌-ℤ◌, ◌*ℤ◌, ◌/ℤ◌, leb_ℤ, wrap, -ℤ_parts,
  eq_of_parts,
}
use ministudo_guibuilder.GridLayout.Units.{LayoutUnit, lut_pixel, lut_percent, to_uint16}
use ministudo_guibuilder.FixedLayout.Place.{calca_size, fixed_layout_calca}

-- No more than `most` units of either sign are asked for.
abbrev pub AtMost : ℕ → ℤ → Type 0
AtMost most z = (pos_part z ≤ most) × (neg_part z ≤ most)

-- What a unit may ask for in an extent.
abbrev pub Fits : ℕ → LayoutUnit → Type 0
Fits extent u =
    ((u.kind ≡ lut_pixel) × AtMost extent u.logic_size)
    ⊎ ((u.kind ≡ lut_percent) × AtMost 100 u.logic_size)

percent-le : (d n : ℕ) → n ≤ 100 → d * n ≤ d * 100
percent-le zero n h = omega arith
percent-le (suc d) n h = omega (arith, percent-le d n h)

share-le : (d n : ℕ) → n ≤ 100 → d * n / 100 ≤ d
share-le d n h = omega (arith, percent-le d n h)

-- What the share of an extent is, for a unit of either sign.
share_eq :
    (from d : ℕ) (z : ℤ)
    → (pos (from + d) -ℤ pos from) *ℤ z /ℤ 100 ≡ sub_ℕ (d * pos_part z / 100) (d * neg_part z / 100)
unfolding ◌*ℤ◌ ◌/ℤ◌
share_eq from d z = rw (extent) (ground arith)
  where
    extent : pos (from + d) -ℤ pos from ≡ pos d
    extent = eq_of_parts _ _ (omega (arith, -ℤ_parts (pos (from + d)) (pos from)))

-- Between the two edges.
abbrev Inside : ℕ → ℕ → ℤ → Type 0
Inside from d z = (from ≤ pos_part z) × (pos_part z ≤ from + d) × (neg_part z ≡ 0)

-- A number of one sign has no part of the other.
one_sign : (z : ℤ) → leb_ℤ (pos 0) z ≡ true → neg_part z ≡ 0
one_sign (pos n) h = refl
one_sign (negsuc n) h = absurd (ground arith)

other_sign : (z : ℤ) → leb_ℤ (pos 0) z ≡ false → pos_part z ≡ 0
other_sign (pos n) h = absurd (ground arith)
other_sign (negsuc n) h = refl

after-Inside :
    (from d p : ℕ) (z : ℤ) → pos_part z ≡ p → neg_part z ≡ 0 → p ≤ d → Inside from d (pos from +ℤ z)
unfolding ◌+ℤ◌
after-Inside from d p z e f h = rw (e, f) (ground arith)

before-Inside :
    (from d q : ℕ) (z : ℤ)
    → pos_part z ≡ 0
    → neg_part z ≡ q
    → q ≤ d
    → Inside from d (pos (from + d) +ℤ z)
unfolding ◌+ℤ◌
before-Inside from d q z e f h = rw (e, f) (ground arith)

-- The share first, as the code has it.
share-Inside :
    (from d p : ℕ) (z : ℤ) → pos_part z ≡ p → neg_part z ≡ 0 → p ≤ d → Inside from d (z +ℤ pos from)
unfolding ◌+ℤ◌
share-Inside from d p z e f h = rw (e, f) (ground arith)

share_back-Inside :
    (from d q : ℕ) (z : ℤ)
    → pos_part z ≡ 0
    → neg_part z ≡ q
    → q ≤ d
    → Inside from d (z +ℤ pos (from + d))
unfolding ◌+ℤ◌
share_back-Inside from d q z e f h = rw (e, f) (ground arith)

calca_size-Inside :
    (from d : ℕ) (u : LayoutUnit)
    → Fits d u
    → Inside from d (calca_size (pos from) (pos (from + d)) u)
unfolding calca_size
calca_size-Inside from d u (inl (kind, (most, least))) =
    elim (Bool-cases (leb_ℤ (pos 0) u.logic_size)) [
      | inl plus ↦ rw (kind, plus) (after-Inside from d _ u.logic_size refl (one_sign _ plus) most)
      | inr minus ↦
          rw (kind, minus) (before-Inside from d _ u.logic_size (other_sign _ minus) refl least)
    ]
calca_size-Inside from d u (inr (kind, (most, least))) =
    elim (Bool-cases (leb_ℤ (pos 0) u.logic_size)) [
      | inl plus ↦
          let share = share-le d (pos_part u.logic_size) most in
          rw (kind, plus, share_eq from d u.logic_size, one_sign u.logic_size plus)
            (share-Inside from d (d * pos_part u.logic_size / 100) _ (ground arith) (ground arith)
              share)
      | inr minus ↦
          let share = share-le d (neg_part u.logic_size) least in
          rw (kind, minus, share_eq from d u.logic_size, other_sign u.logic_size minus)
            (share_back-Inside from d (d * neg_part u.logic_size / 100) _ (ground arith)
              (ground arith) share)
    ]

stored : (z : ℤ) → neg_part z ≡ 0 → pos_part z < 2 ^ 16 → to_uint16 z ≡ pos_part z
unfolding wrap
stored (pos n) h small = ground arith
stored (negsuc n) h small = absurd (ground arith)

size_eq :
    (from to : ℤ) (d : ℕ) (u : LayoutUnit)
    → Fits d u
    → (fixed_layout_calca from to u).current_size ≡ to_uint16 (calca_size from to u)
unfolding fixed_layout_calca
size_eq from to d u (inl (kind, size)) = rw kind
size_eq from to d u (inr (kind, size)) = rw kind

-- Between edges that are no negative numbers and fit 16 bits, a unit that asks for no more pixels
-- than there are, or for at most 100 per cent, of either sign, is placed between the edges.
pub fixed_layout_calca-inside :
    (from d : ℕ) (u : LayoutUnit)
    → from + d < 2 ^ 16
    → Fits d u
    → (from ≤ (fixed_layout_calca (pos from) (pos (from + d)) u).current_size)
      × ((fixed_layout_calca (pos from) (pos (from + d)) u).current_size ≤ from + d)
fixed_layout_calca-inside from d u small fits =
    let (low, high, sign) = calca_size-Inside from d u fits in
    let kept =
      size_eq (pos from) (pos (from + d)) d u fits
      ∙ stored (calca_size (pos from) (pos (from + d)) u) sign (omega arith) in
    (omega arith, omega arith)

-- A unit in pixels counted from an edge that lies further left than it reaches gets the size that
-- is left when the negative number is stored in 16 bits.
pub fixed_layout_calca_wraps :
    (k n : ℕ) (to : ℤ) (u : LayoutUnit)
    → k < 2 ^ 16
    → n ≤ k
    → u.kind ≡ lut_pixel
    → u.logic_size ≡ pos n
    → (fixed_layout_calca (negsuc k) to u).current_size + (k + 1) ≡ 2 ^ 16 + n
unfolding fixed_layout_calca calca_size ◌+ℤ◌ wrap
fixed_layout_calca_wraps k n to u small less kind size = rw (kind, size) (ground arith)
