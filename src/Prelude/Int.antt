-- ===== src/Prelude/Int.antt =====
-- Signed integers over the native numbers, and C's operations on them: division that truncates
-- towards zero, comparison, and the conversions that a store to a bit field makes.
use native.Mathlib.Nat.{zero-div, div-eq_of_lt-le}
use ministudo_guibuilder.Prelude.{
  ℕ, suc, ◌+◌, ◌-◌, ◌*◌, ◌/◌, ◌%◌, ◌^◌, ◌≤◌, ◌<◌, ◌≡◌, refl, Bool, not, arith, ltb, leb, ◌==◌,
  if◌then◌else◌,
}

-- `negsuc n` is -(n + 1).
pub data ℤ : Type 0 where
  pos : ℕ → ℤ
  negsuc : ℕ → ℤ

abbrev pub pos_part : ℤ → ℕ
pos_part (pos n) = n
pos_part (negsuc n) = 0

abbrev pub neg_part : ℤ → ℕ
neg_part (pos n) = 0
neg_part (negsuc n) = suc n

-- a - b, as an integer.
abbrev pub sub_ℕ : ℕ → ℕ → ℤ
sub_ℕ a b = if leb b a then pos (a - b) else negsuc (b - a - 1)

infixl 65 ◌+ℤ◌ ◌-ℤ◌
infixl 70 ◌*ℤ◌ ◌/ℤ◌
infix 50 ◌≤ℤ◌ ◌<ℤ◌
unfoldable pub ◌+ℤ◌ : ℤ → ℤ → ℤ
a +ℤ b = sub_ℕ (pos_part a + pos_part b) (neg_part a + neg_part b)

unfoldable pub ◌-ℤ◌ : ℤ → ℤ → ℤ
a -ℤ b = sub_ℕ (pos_part a + neg_part b) (neg_part a + pos_part b)

unfoldable pub ◌*ℤ◌ : ℤ → ℤ → ℤ
a *ℤ b =
    sub_ℕ (pos_part a * pos_part b + neg_part a * neg_part b)
      (pos_part a * neg_part b + neg_part a * pos_part b)

-- `a / b` for a positive divisor: C truncates towards zero.
unfoldable pub ◌/ℤ◌ : ℤ → ℕ → ℤ
a /ℤ b = sub_ℕ (pos_part a / b) (neg_part a / b)

abbrev pub ◌≤ℤ◌ : ℤ → ℤ → Type 0
a ≤ℤ b = pos_part a + neg_part b ≤ pos_part b + neg_part a

abbrev pub ◌<ℤ◌ : ℤ → ℤ → Type 0
a <ℤ b = pos_part a + neg_part b < pos_part b + neg_part a

abbrev pub ltb_ℤ : ℤ → ℤ → Bool
ltb_ℤ a b = ltb (pos_part a + neg_part b) (pos_part b + neg_part a)

abbrev pub leb_ℤ : ℤ → ℤ → Bool
leb_ℤ a b = leb (pos_part a + neg_part b) (pos_part b + neg_part a)

abbrev pub eqb_ℤ : ℤ → ℤ → Bool
eqb_ℤ a b = pos_part a + neg_part b == pos_part b + neg_part a

-- The remainder that a conversion to an unsigned type of `m` values leaves.
unfoldable pub wrap : ℤ → ℕ → ℕ
wrap a m = (pos_part a + (m - neg_part a % m)) % m

-- The value of a signed bit field of `2 * h` values after a store.
unfoldable pub wrap_signed : ℤ → ℕ → ℤ
unfolding wrap
wrap_signed a h = let r = wrap a (2 * h) in if ltb r h then pos r else negsuc (2 * h - r - 1)

-- One lemma for each operation lets `omega` work with the operations shut.
pub +ℤ_parts :
    (a b : ℤ)
    → pos_part (a +ℤ b) + neg_part a + neg_part b ≡ neg_part (a +ℤ b) + pos_part a + pos_part b
unfolding ◌+ℤ◌
+ℤ_parts a b = ground arith

pub -ℤ_parts :
    (a b : ℤ)
    → pos_part (a -ℤ b) + neg_part a + pos_part b ≡ neg_part (a -ℤ b) + pos_part a + neg_part b
unfolding ◌-ℤ◌
-ℤ_parts a b = ground arith

pub eq_of_parts : (a b : ℤ) → pos_part a + neg_part b ≡ pos_part b + neg_part a → a ≡ b
eq_of_parts a b h = ground arith

pub ruleset int_laws = (arith, +ℤ_parts, -ℤ_parts, eq_of_parts)

pub wrap-lt : (a : ℤ) (m : ℕ) → 0 < m → wrap a m < m
unfolding wrap
wrap-lt a m h = omega arith

pub wrap_pos : (n m : ℕ) → 0 < m → wrap (pos n) m ≡ n % m
unfolding wrap
wrap_pos n m h = grind arith

-- A number above one that is not negative.
pub pos_of_lt : (z : ℤ) (s : ℕ) → pos s <ℤ z → z ≡ pos (pos_part z)
pos_of_lt (pos n) s h = refl
pos_of_lt (negsuc n) s h = absurd (omega arith)

pub neg_part_of_lt : (z : ℤ) (s : ℕ) → pos s <ℤ z → neg_part z ≡ 0
neg_part_of_lt (pos n) s h = refl
neg_part_of_lt (negsuc n) s h = absurd (omega arith)

-- Exact division and truncated division agree where the quotient is known.
pub quotient : (p q k : ℕ) → k * q ≤ p → p < (k + 1) * q → pos p /ℤ q ≡ pos k
unfolding ◌/ℤ◌
quotient p q k lo hi = rw (zero-div q, div-eq_of_lt-le q lo hi) (ground arith)
