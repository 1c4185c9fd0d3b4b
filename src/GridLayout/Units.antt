-- ===== src/GridLayout/Units.antt =====
-- LAYOUT_UNIT and `recalca_units` of mgfc/gridlayout.c: the widths of the columns (or the heights
-- of the rows) of a grid. An array of `n` units is a list of length `n`, so `n` is no argument.
pub mod Bounds
pub mod Sums
pub mod Shape
pub mod Twice
use ministudo_guibuilder.Prelude.{
  ℕ, zero, suc, ◌+◌, ◌-◌, ◌/◌, ◌^◌, Bool, true, false, not, ◌&&◌, Option, none, some, List, [], ◌∷◌,
  ltb, ◌==◌, if◌then◌else◌, replicate,
}
use ministudo_guibuilder.Prelude.Int.{ℤ, pos, pos_part, ◌*ℤ◌, ◌/ℤ◌, leb_ℤ, eqb_ℤ, wrap, wrap_signed}

abbrev pub lut_pixel : ℕ
lut_pixel = 0

abbrev pub lut_percent : ℕ
lut_percent = 1

abbrev pub lut_spliter : ℕ
lut_spliter = 2

abbrev pub spliter_size : ℕ
spliter_size = 4

-- `type` has two bits, `logic_size` fourteen with a sign, `current_size` sixteen.
pub record LayoutUnit : Type 0 where
  pub kind : ℕ
  pub logic_size : ℤ
  pub current_size : ℕ

-- What a store to each of the last two fields keeps.
abbrev pub to_uint16 : ℤ → ℕ
to_uint16 a = wrap a (2 ^ 16)

abbrev pub to_int14 : ℤ → ℤ
to_int14 a = wrap_signed a (2 ^ 13)

-- A unit without a size of its own shares what the others leave.
unfoldable pub is_average : LayoutUnit → Bool
is_average u = not (u.kind == lut_spliter) && eqb_ℤ u.logic_size (pos 0)

-- The three assignments to `current_size` in the first loop.
unfoldable pub wanted : ℕ → LayoutUnit → ℕ
wanted width u =
    if u.kind == lut_pixel
    then to_uint16 u.logic_size
    else if u.kind == lut_spliter
    then spliter_size
    else to_uint16 (u.logic_size *ℤ pos width /ℤ 100)

-- The size stored, cut down to what is left. `recent` is never negative: it starts positive and
-- loses at most itself.
unfoldable pub granted : ℕ → ℕ → LayoutUnit → ℕ
granted width recent u = let size = wanted width u in if ltb recent size then recent else size

unfoldable pub fix_unit : ℕ → ℕ → LayoutUnit → LayoutUnit
fix_unit width recent u =
    if is_average u then u else record u { current_size = granted width recent u }

unfoldable pub left_over : ℕ → ℕ → LayoutUnit → ℕ
left_over width recent u = if is_average u then recent else recent - granted width recent u

unfoldable pub count_average : LayoutUnit → ℕ → ℕ
count_average u avgs = if is_average u then avgs + 1 else avgs

-- The first loop: the units, `avgs` and `recent` at its end.
unfoldable pub first_loop : ℕ → List LayoutUnit → ℕ → ℕ → List LayoutUnit × ℕ × ℕ
first_loop width [] avgs recent = ([], avgs, recent)
first_loop width (u ∷ us) avgs recent =
    let r = first_loop width us (count_average u avgs) (left_over width recent u) in
    (fix_unit width recent u ∷ r.0, r.1, r.2)

unfoldable pub share_unit : ℕ → LayoutUnit → LayoutUnit
share_unit size u = if is_average u then record u { current_size = size } else u

unfoldable pub uncount_average : LayoutUnit → ℕ → ℕ
uncount_average u avgs = if is_average u then avgs - 1 else avgs

-- The second loop, which stops when `avgs` is used up.
unfoldable pub second_loop : ℕ → List LayoutUnit → ℕ → List LayoutUnit
second_loop size [] avgs = []
second_loop size (u ∷ us) avgs =
    let rest = second_loop size us (uncount_average u avgs) in
    if avgs == 0 then u ∷ us else share_unit size u ∷ rest

-- From `if(recent <= 0)` on. `avg_size` is stored in sixteen bits.
unfoldable pub spread : List LayoutUnit → ℕ → ℕ → List LayoutUnit
spread units avgs recent =
    if recent == 0
    then units
    else (let n : ℕ = if avgs == 0 then 1 else avgs in
        second_loop (to_uint16 (pos (recent / n))) units n)

-- `recalca_units` with a table. A width that is not positive changes nothing.
unfoldable pub recalca_units : List LayoutUnit → ℤ → List LayoutUnit
recalca_units units width =
    let w = pos_part width in
    let r = first_loop w units 0 w in if leb_ℤ width (pos 0) then units else spread r.0 r.1 r.2

abbrev pub zero_unit : LayoutUnit
zero_unit = record { kind = 0; logic_size = pos 0; current_size = 0 }
