-- ===== src/GridLayout/Spliter/Update.antt =====
-- The two units beside a splitter, in `updateSpliterSize`.
use ministudo_guibuilder.Prelude.{
  ℕ, zero, suc, ◌+◌, ◌-◌, ◌^◌, ◌<◌, ◌≡◌, ◌≢◌, refl, ap, ◌∙◌, inl, inr, true, false, List, [], ◌∷◌,
  arith, ◌==◌, get_or, get_elem?, modify, length, length-modify, Bool-cases, lt→ltb, some,
}
use ministudo_guibuilder.Prelude.Int.{
  ℤ, pos, negsuc, ◌+ℤ◌, leb_ℤ, +ℤ_parts, -ℤ_parts, wrap_signed, eq_of_parts,
}
use ministudo_guibuilder.Prelude.Access.{ok, fault}
use ministudo_guibuilder.GridLayout.Units.{
  LayoutUnit, lut_pixel, lut_spliter, zero_unit, to_int14, recalca_units,
}
use ministudo_guibuilder.GridLayout.Position.{get_pos_from_unit}
use ministudo_guibuilder.GridLayout.Spliter.{
  idx_before, idx_after, dragged_unit, drag_before, drag_after, update_units,
}

get_elem?-get_or :
    (us : List LayoutUnit) (i : ℕ) → i < length us → get_elem? us i ≡ some (get_or us i zero_unit)
get_elem?-get_or [] i h = elim h [ ]
get_elem?-get_or (u ∷ us) zero h = refl
get_elem?-get_or (u ∷ us) (suc i) h = get_elem?-get_or us i (omega arith)

-- The unit found before the splitter is none itself.
idx_before-pos :
    (us : List LayoutUnit) (idx b : ℕ)
    → idx_before us idx ≡ pos b
    → (b < idx) × (((get_or us b zero_unit).kind == lut_spliter) ≡ false)
unfolding idx_before
idx_before-pos us zero b e = absurd (cc e)
idx_before-pos us (suc i) b e = elim (Bool-cases ((get_or us i zero_unit).kind == lut_spliter)) [
  | inl more ↦ let (lt, is) = idx_before-pos us i b (rw more at e) in (omega arith, is)
  | inr here ↦
      let same : pos i ≡ pos b = rw here at e in
      (
        ground arith,
        ap (λ (n : ℕ). (get_or us n zero_unit).kind == lut_spliter) (ground arith) ∙ here,
      )
]

-- So the loop that looks for a unit after the splitter stops at once: it tests the other unit.
pub idx_after-first :
    (us : List LayoutUnit) (idx b n i : ℕ)
    → idx < length us
    → idx_before us idx ≡ pos b
    → idx_after us (idx_before us idx) n i ≡ ok i
unfolding idx_after
idx_after-first us idx b zero i h e = refl
idx_after-first us idx b (suc n) i h e =
    let (lt, is) = idx_before-pos us idx b e in rw (e, get_elem?-get_or us b (omega arith), is)

idx_after-unguarded : (us : List LayoutUnit) (n i : ℕ) → 0 < n → idx_after us (negsuc 0) n i ≡ fault
unfolding idx_after
idx_after-unguarded us zero i h = elim h [ ]
idx_after-unguarded us (suc n) i h = refl

-- If there are splitters only before the one that is dragged, and a unit after it, the test of
-- that loop reads the unit at -1.
pub update_units_unguarded :
    (us : List LayoutUnit) (idx w : ℕ) (start xy : ℤ)
    → idx + 1 < length us
    → idx_before us idx ≡ negsuc 0
    → update_units us idx start w xy ≡ fault
unfolding update_units
update_units_unguarded us idx w start xy h e =
    rw (e, idx_after-unguarded us (length us - (idx + 1)) (idx + 1) (omega arith))

to_int14-small : (n : ℕ) → n < 2 ^ 13 → to_int14 (pos n) ≡ pos n
unfolding wrap_signed
to_int14-small n h = ground arith

get_or-modify_self :
    (us : List LayoutUnit) (i : ℕ) (f : LayoutUnit → LayoutUnit)
    → i < length us
    → get_or (modify us i f) i zero_unit ≡ f (get_or us i zero_unit)
get_or-modify_self [] i f h = elim h [ ]
get_or-modify_self (u ∷ us) zero f h = refl
get_or-modify_self (u ∷ us) (suc i) f h = get_or-modify_self us i f (omega arith)

get_or-modify_ne :
    (us : List LayoutUnit) (i j : ℕ) (f : LayoutUnit → LayoutUnit)
    → i ≢ j
    → get_or (modify us i f) j zero_unit ≡ get_or us j zero_unit
get_or-modify_ne [] i j f h = refl
get_or-modify_ne (u ∷ us) zero zero f h = absurd (h refl)
get_or-modify_ne (u ∷ us) zero (suc j) f h = refl
get_or-modify_ne (u ∷ us) (suc i) zero f h = refl
get_or-modify_ne (u ∷ us) (suc i) (suc j) f h = get_or-modify_ne us i j f (λ e. h (ap suc e))

dragged_pixel :
    (u : LayoutUnit) (n : ℕ) (w : ℤ)
    → u.kind ≡ lut_pixel
    → 0 < n
    → n < 2 ^ 13
    → dragged_unit (pos n) w u ≡ record u { logic_size = pos n }
unfolding dragged_unit
dragged_pixel u n w k h small =
    rw (is_pixel, positive) (ap (λ z. record u { logic_size = z }) (to_int14-small n small))
  where
    is_pixel : (u.kind == lut_pixel) ≡ true
    is_pixel = ground arith

    positive : leb_ℤ (pos n) (pos 0) ≡ false
    positive = ground arith

dragged_unit-size :
    (u : LayoutUnit) (room w : ℤ) → (dragged_unit room w u).current_size ≡ u.current_size
unfolding dragged_unit
dragged_unit-size u room w = ground arith

-- The drag writes no size.
get_pos-modify :
    (us : List LayoutUnit) (i k : ℕ) (room w : ℤ)
    → get_pos_from_unit (modify us i (dragged_unit room w)) k ≡ get_pos_from_unit us k
unfolding get_pos_from_unit
get_pos-modify [] i k room w = refl
get_pos-modify (u ∷ us) zero zero room w = refl
get_pos-modify (u ∷ us) zero (suc k) room w = rw (dragged_unit-size u room w)
get_pos-modify (u ∷ us) (suc i) zero room w = refl
get_pos-modify (u ∷ us) (suc i) (suc k) room w = rw (get_pos-modify us i k room w)

module _ (us : List LayoutUnit) (b w p q : ℕ) (start : ℤ) (inside : suc (suc b) < length us)
    (before_pixel : (get_or us b zero_unit).kind ≡ lut_pixel)
    (after_pixel : (get_or us (suc (suc b)) zero_unit).kind ≡ lut_pixel) (room_before : 0 < p)
    (room_after : 0 < q) (small_before : p < 2 ^ 13) (small_after : q < 2 ^ 13)
    (splits : get_pos_from_unit us b + p + q
      ≡ get_pos_from_unit us (suc (suc b)) + (get_or us (suc (suc b)) zero_unit).current_size) where
  abbrev mouse : ℤ
  mouse = start +ℤ pos (get_pos_from_unit us b + p)

  abbrev dragged : List LayoutUnit
  dragged =
      modify (modify us b (λ u. record u { logic_size = pos p })) (suc (suc b))
        (λ u. record u { logic_size = pos q })

  before_is : idx_before us (suc b) ≡ pos b
  unfolding idx_before
  before_is = rw not_bar
    where
      not_bar : ((get_or us b zero_unit).kind == lut_spliter) ≡ false
      not_bar = ground arith

  before_lem :
      drag_before us (pos b) start (pos w) mouse ≡ modify us b (dragged_unit (pos p) (pos w))
  unfolding drag_before
  before_lem =
      ap (λ z. modify us b (dragged_unit z (pos w)))
        (eq_of_parts _ _ (omega (arith, +ℤ_parts, -ℤ_parts)))

  after_lem :
      drag_after (modify us b (dragged_unit (pos p) (pos w))) (suc (suc b)) start (pos w) mouse
      ≡ modify
          (modify us b (dragged_unit (pos p) (pos w)))
          (suc (suc b))
          (dragged_unit (pos q) (pos w))
  unfolding drag_after
  after_lem =
      let same = get_or-modify_ne us b (suc (suc b)) (dragged_unit (pos p) (pos w)) (omega arith) in
      rw
        (
          length-modify us b (dragged_unit (pos p) (pos w)),
          lt→ltb (suc (suc b)) (length us) inside,
          same,
          get_pos-modify us b (suc (suc b)) (pos p) (pos w),
        )
        (ap
          (λ z.
            modify (modify us b (dragged_unit (pos p) (pos w))) (suc (suc b))
              (dragged_unit z (pos w)))
          (eq_of_parts _ _ (omega (arith, +ℤ_parts, -ℤ_parts))))

  abbrev after_drag : List LayoutUnit
  after_drag =
      modify (modify us b (dragged_unit (pos p) (pos w))) (suc (suc b))
        (dragged_unit (pos q) (pos w))

  first_after :
      idx_after us (idx_before us (suc b)) (length us - (suc b + 1)) (suc b + 1) ≡ ok (suc (suc b))
  first_after =
      idx_after-first us (suc b) b (length us - (suc b + 1)) (suc b + 1) (omega arith) before_is
      ∙ ap ok (omega arith)

  update_units-drag : update_units us (suc b) start w mouse ≡ ok (recalca_units after_drag (pos w))
  unfolding update_units
  update_units-drag =
      rw (first_after, before_is)
        (ap (λ vs. ok (recalca_units vs (pos w)))
          (ap (λ vs. drag_after vs (suc (suc b)) start (pos w) mouse) before_lem ∙ after_lem))

  -- Dragging the splitter between two units in pixels to a point between their outer edges, less than
  -- 8192 pixels from either, makes
  -- the unit before it ask for the distance from its outer edge to the point, and the unit after
  -- it for the distance from the point to its outer edge; then the table is computed anew.
  pub update_units-requests :
      (vs : List LayoutUnit) × (update_units us (suc b) start w mouse
        ≡ ok (recalca_units vs (pos w)))
      × ((get_or vs b zero_unit).logic_size ≡ pos p)
      × ((get_or vs (suc (suc b)) zero_unit).logic_size ≡ pos q)
  update_units-requests =
      let first = modify us b (dragged_unit (pos p) (pos w)) in
      (
        after_drag,
        update_units-drag,
        ap (λ u. u.logic_size)
            (get_or-modify_ne first (suc (suc b)) b (dragged_unit (pos q) (pos w)) (omega arith)
              ∙ get_or-modify_self us b (dragged_unit (pos p) (pos w)) (omega arith)
              ∙ dragged_pixel (get_or us b zero_unit) p (pos w) before_pixel room_before
                  small_before),
        ap (λ u. u.logic_size)
            (get_or-modify_self first (suc (suc b)) (dragged_unit (pos q) (pos w))
                (omega (arith, length-modify us b (dragged_unit (pos p) (pos w))))
              ∙ ap (dragged_unit (pos q) (pos w))
                  (get_or-modify_ne us b (suc (suc b)) (dragged_unit (pos p) (pos w)) (omega arith))
              ∙ dragged_pixel (get_or us (suc (suc b)) zero_unit) q (pos w) after_pixel room_after
                  small_after),
      )
