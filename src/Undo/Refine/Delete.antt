-- ===== src/Undo/Refine/Delete.antt =====
-- `emptyRedo` of common/defundo-redo-observer.cpp deletes what could be redone, if the commands do
-- not end just before index 0.
use ministudo_guibuilder.Prelude.{
  drop, ℕ, zero, suc, ◌+◌, ◌-◌, ◌<◌, ◌≡◌, ◌≢◌, refl, sym, ap, ◌∙◌, ◌⊎◌, inl, inr, true, false, some,
  List, [], ◌∷◌, arith, ◌==◌, get_elem?, get_or, length, Bool-cases,
}
use ministudo_guibuilder.Prelude.Run.{done}
use ministudo_guibuilder.Undo.Observer.{Observer, wrapped, delete_loop, empty_redo, destroy}
use ministudo_guibuilder.Undo.History.{History, delete_events}
use ministudo_guibuilder.Undo.Refine.{slot, Represents}

pub get_elem?-get_or : (xs : List ℕ) (k : ℕ) → k < length xs → get_elem? xs k ≡ some (get_or xs k 0)
get_elem?-get_or [] k h = elim h [ ]
get_elem?-get_or (x ∷ xs) zero h = refl
get_elem?-get_or (x ∷ xs) (suc k) h = get_elem?-get_or xs k (omega arith)

drop-get_or : (xs : List ℕ) (k : ℕ) → k < length xs → drop k xs ≡ get_or xs k 0 ∷ drop (suc k) xs
drop-get_or [] k h = elim h [ ]
drop-get_or (x ∷ xs) zero h = refl
drop-get_or (x ∷ xs) (suc k) h = drop-get_or xs k (omega arith)

pub drop-length : (xs : List ℕ) → drop (length xs) xs ≡ []
drop-length [] = refl
drop-length (x ∷ xs) = drop-length xs

module _ (n head : ℕ) (lt : head < n) where
  pub slot-lt : (k : ℕ) → k < n → slot n head k < n
  slot-lt k h = ground arith

  pub slot-inj : (k l : ℕ) → k < l → l < n → slot n head k ≢ slot n head l
  slot-inj k l h small = ground arith

  -- The index behind a slot is the next slot, or the end of the array, where the next slot is 0.
  slot-suc :
      (k : ℕ)
      → suc k < n
      → (slot n head k + 1 ≡ slot n head (suc k))
        ⊎ ((slot n head k + 1 ≡ n) × (slot n head (suc k) ≡ 0))
  slot-suc k h = elim (Bool-cases (slot n head k + 1 == n)) [
    | inl end ↦ inr (ground arith, ground arith)
    | inr more ↦ inl (ground arith)
  ]

-- The loop stands at the command `k`, which the array may have been left for.
abbrev At : Observer → ℕ → ℕ → Type 0
At o i k =
    (i ≡ slot o.maxcount o.undo_head k) ⊎ ((i ≡ o.maxcount) × (slot o.maxcount o.undo_head k ≡ 0))

module _ (o : Observer) (h : History) (r : Represents o h) where
  At-wrapped :
      (i k : ℕ) → k < o.maxcount → At o i k → wrapped o.maxcount i ≡ slot o.maxcount o.undo_head k
  At-wrapped i k small (inl here) =
      let lt = slot-lt o.maxcount o.undo_head r.head_lt k small in ground arith
  At-wrapped i k small (inr (end, first)) = ground arith

  At-ne : (i k : ℕ) → k < length h.items → At o i k → i ≢ o.redo_tail
  At-ne i k more (inl here) e =
      slot-inj o.maxcount o.undo_head r.head_lt k (length h.items) more r.few
        (sym here ∙ e ∙ r.redo_at)
  At-ne i k more (inr (end, first)) e =
      let lt = slot-lt o.maxcount o.undo_head r.head_lt (length h.items) r.few in
      let same = r.redo_at in absurd (omega arith)

  delete_loop-from :
      (fuel i n k : ℕ)
      → k + n ≡ length h.items
      → n < fuel
      → At o i k
      → (o.redo_tail ≢ 0) ⊎ ((n ≡ 0) × (i ≡ slot o.maxcount o.undo_head k))
      → delete_loop fuel o i ≡ done (delete_events (drop k h.items))
  unfolding delete_loop
  delete_loop-from zero i n k e room at ok = absurd (omega arith)
  delete_loop-from (suc fuel) i zero k e room at ok =
      let last : k ≡ length h.items = omega arith in
      let stop : i ≡ o.redo_tail = at_end at ok last in
      let test : (i == o.redo_tail) ≡ true = ground arith in
      rw test (rw (last, drop-length h.items) refl)
    where
      at_end :
          At o i k
          → (o.redo_tail ≢ 0) ⊎ ((zero ≡ 0) × (i ≡ slot o.maxcount o.undo_head k))
          → k ≡ length h.items
          → i ≡ o.redo_tail
      at_end (inl here) c last = here ∙ ap (slot o.maxcount o.undo_head) last ∙ sym r.redo_at
      at_end (inr (end, first)) (inl ne) last =
          absurd (ne (r.redo_at ∙ ap (slot o.maxcount o.undo_head) (sym last) ∙ first))
      at_end (inr _) (inr (_, here)) last =
          here ∙ ap (slot o.maxcount o.undo_head) last ∙ sym r.redo_at
  delete_loop-from (suc fuel) i (suc n) k e room at (inr (none_left, here)) = absurd (omega arith)
  delete_loop-from (suc fuel) i (suc n) k e room at (inl ne) =
      let few = r.few in
      let more : k < length h.items = omega arith in
      let apart = At-ne i k more at in
      let test : (i == o.redo_tail) ≡ false = ground arith in
      let place = At-wrapped i k (omega arith) at in
      let item = r.entries k more ∙ get_elem?-get_or h.items k more in
      let onward = slot-suc o.maxcount o.undo_head r.head_lt k (omega arith) in
      let later =
        delete_loop-from fuel (slot o.maxcount o.undo_head k + 1) n (suc k) (omega arith)
          (omega arith) onward (inl ne) in
      rw (test, place, item, drop-get_or h.items k more, later) refl

  -- `emptyRedo` deletes what could be redone, the next one first.
  pub empty_redo-drop :
      (fuel : ℕ)
      → length h.items < fuel
      → (o.redo_tail ≢ 0) ⊎ (h.position ≡ length h.items)
      → empty_redo fuel o ≡ done (delete_events (drop h.position h.items))
  unfolding empty_redo
  empty_redo-drop fuel room ok =
      delete_loop-from fuel o.undo_tail (length h.items - h.position) h.position
        (let h' = r.inside in omega arith) (omega arith) (inl r.undo_at) (which ok)
    where
      which :
          (o.redo_tail ≢ 0) ⊎ (h.position ≡ length h.items)
          → (o.redo_tail ≢ 0)
            ⊎ ((length h.items - h.position ≡ 0)
                × (o.undo_tail ≡ slot o.maxcount o.undo_head h.position))
      which (inl ne) = inl ne
      which (inr e) = inr (omega arith, r.undo_at)

  -- The destructor deletes all commands, the oldest one first.
  pub destroy-all :
      (fuel : ℕ)
      → length h.items < fuel
      → o.redo_tail ≢ 0
      → destroy fuel o ≡ done (delete_events h.items)
  unfolding destroy
  destroy-all fuel room ne =
      delete_loop-from fuel o.undo_head (length h.items) 0 (omega arith) (omega arith)
        (inl (let lt = r.head_lt in ground arith)) (inl ne)
