-- ===== src/Prelude/Run.antt =====
-- Computations that may read out of bounds, and loops on fuel that may use it up.
use mathlib.Core.Option.{Option, none, some}

pub data Run {ℓ} (A : Type ℓ) : Type ℓ where
  done : A → Run A
  crash : Run A
  out_of_fuel : Run A

abbrev pub then_run {ℓ κ} : {A : Type ℓ} {B : Type κ} → Run A → (A → Run B) → Run B
then_run (done a) f = f a
then_run crash f = crash
then_run out_of_fuel f = out_of_fuel

-- An element of an array, or a crash.
abbrev pub element {ℓ κ} : {A : Type ℓ} {B : Type κ} → Option A → (A → Run B) → Run B
element none f = crash
element (some a) f = f a
