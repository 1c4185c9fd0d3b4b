-- ===== src/Undo/Refine/Lists.antt =====
-- Lists of commands, cut and extended at their ends.
use ministudo_guibuilder.Prelude.{
  take, drop, ℕ, zero, suc, ◌+◌, ◌-◌, ◌≤◌, ◌<◌, ◌≡◌, refl, ap, some, List, [], ◌∷◌, ◌++◌, arith,
  get_elem?, length,
}

pub length-take : (n : ℕ) (xs : List ℕ) → n ≤ length xs → length (take n xs) ≡ n
length-take zero xs h = refl
length-take (suc n) [] h = absurd (omega arith)
length-take (suc n) (x ∷ xs) h = ap suc (length-take n xs (omega arith))

pub get_elem?-take :
    (n : ℕ) (xs : List ℕ) (k : ℕ) → k < n → get_elem? (take n xs) k ≡ get_elem? xs k
get_elem?-take zero xs k h = absurd (omega arith)
get_elem?-take (suc n) [] k h = refl
get_elem?-take (suc n) (x ∷ xs) zero h = refl
get_elem?-take (suc n) (x ∷ xs) (suc k) h = get_elem?-take n xs k (omega arith)

pub length-snoc : (xs : List ℕ) (c : ℕ) → length (xs ++ c ∷ []) ≡ length xs + 1
length-snoc [] c = refl
length-snoc (x ∷ xs) c = omega (arith, length-snoc xs c)

pub get_elem?-snoc_lt :
    (xs : List ℕ) (c k : ℕ) → k < length xs → get_elem? (xs ++ c ∷ []) k ≡ get_elem? xs k
get_elem?-snoc_lt [] c k h = absurd (omega arith)
get_elem?-snoc_lt (x ∷ xs) c zero h = refl
get_elem?-snoc_lt (x ∷ xs) c (suc k) h = get_elem?-snoc_lt xs c k (omega arith)

pub get_elem?-snoc_last : (xs : List ℕ) (c : ℕ) → get_elem? (xs ++ c ∷ []) (length xs) ≡ some c
get_elem?-snoc_last [] c = refl
get_elem?-snoc_last (x ∷ xs) c = get_elem?-snoc_last xs c

pub length-drop_one : (xs : List ℕ) → length (drop 1 xs) ≡ length xs - 1
length-drop_one [] = refl
length-drop_one (x ∷ xs) = omega arith

pub get_elem?-drop_one : (xs : List ℕ) (k : ℕ) → get_elem? (drop 1 xs) k ≡ get_elem? xs (suc k)
get_elem?-drop_one [] k = refl
get_elem?-drop_one (x ∷ xs) k = refl
