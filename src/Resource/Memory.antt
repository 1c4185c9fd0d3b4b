-- ===== src/Resource/Memory.antt =====
-- Mapped memory, as tools/res2c/resource.c reads it: pointers into the bytes of a file, numbers of
-- four bytes with the lowest first (the files are read on the machine they were made for), and
-- strings that a zero ends.
use ministudo_guibuilder.Prelude.{
  ℕ, zero, suc, ◌+◌, ◌*◌, ◌<◌, ◌≡◌, refl, Bool, true, false, ◌&&◌, Option, none, some, List, [],
  ◌∷◌, length, get_elem?, get_elem?-lt, ◌==◌,
}
use ministudo_guibuilder.Prelude.Access.{Access, ok, fault, ◌>>=◌, of_option}

pub record Pointer : Type 0 where
  pub bytes : List ℕ
  pub offset : ℕ

abbrev pub advance : Pointer → ℕ → Pointer
advance p n = record p { offset = p.offset + n }

abbrev pub byte_at : Pointer → ℕ → Access ℕ
byte_at p i = of_option (get_elem? p.bytes (p.offset + i))

-- `Uint32`, `i` bytes behind a pointer.
unfoldable pub uint32_at : Pointer → ℕ → Access ℕ
uint32_at p i = do
  a ← byte_at p i
  b ← byte_at p (i + 1)
  c ← byte_at p (i + 2)
  d ← byte_at p (i + 3)
  ok (a + 256 * b + 65536 * c + 16777216 * d)

-- The bytes up to the first zero.
abbrev pub up_to_zero : List ℕ → Access (List ℕ)
up_to_zero [] = fault
up_to_zero (zero ∷ bs) = ok []
up_to_zero (suc b ∷ bs) = up_to_zero bs >>= λ cs. ok (suc b ∷ cs)

abbrev pub drop : ℕ → List ℕ → List ℕ
drop zero bs = bs
drop (suc n) [] = []
drop (suc n) (b ∷ bs) = drop n bs

abbrev pub c_string : Pointer → ℕ → Access (List ℕ)
c_string p i = up_to_zero (drop (p.offset + i) p.bytes)

-- `strcmp` is 0.
abbrev pub same_string : List ℕ → List ℕ → Bool
same_string [] [] = true
same_string [] (c ∷ cs) = false
same_string (b ∷ bs) [] = false
same_string (b ∷ bs) (c ∷ cs) = b == c && same_string bs cs

bind-read :
    {B : Type 0} (o : Option ℕ) (f : ℕ → Access B) {v : B}
    → (of_option o >>= f) ≡ ok v
    → (a : ℕ) × (o ≡ some a)
bind-read none f h = absurd (cc h)
bind-read (some a) f h = (a, refl)

-- A read that succeeds lies within the bytes.
pub uint32_at-lt :
    (p : Pointer) (i : ℕ) {v : ℕ} → uint32_at p i ≡ ok v → p.offset + i < length p.bytes
unfolding uint32_at
uint32_at-lt p i h =
    let (a, e) = bind-read (get_elem? p.bytes (p.offset + i)) _ h in
    get_elem?-lt p.bytes (p.offset + i) e
