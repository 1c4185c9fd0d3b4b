-- ===== src/Undo/Refine/Actions.antt =====
-- Pushing, undoing and redoing in common/defundo-redo-observer.cpp do to the ring what they promise
-- of the history.
use ministudo_guibuilder.Prelude.{
  ℕ, zero, suc, ◌+◌, ◌-◌, ◌<◌, ◌≡◌, ◌≢◌, refl, sym, ap, ◌∙◌, inl, inr, true, false, List, arith,
  ◌==◌, if◌then◌else◌, get_elem?, length, Bool-cases,
}
use ministudo_guibuilder.Prelude.Run.{Run, done}
use ministudo_guibuilder.Undo.Observer.{
  Observer, Event, delete_event, execute_event, wrapped, next_index, previous_index, stored,
  store_command, empty_redo, push_command, can_undo, can_redo,
}
use ministudo_guibuilder.Undo.Observer
use ministudo_guibuilder.Undo.History.{History, undo, redo, act_history}
use ministudo_guibuilder.Undo.Refine.{slot, Represents}
use ministudo_guibuilder.Undo.Refine.Delete.{get_elem?-get_or, slot-inj}

previous_eq : (n i : ℕ) → previous_index n i ≡ (if i == 0 then n - 1 else i - 1)
previous_eq n zero = refl
previous_eq n (suc i) = ground arith

previous-slot :
    (n head k : ℕ) → head < n → suc k < n → previous_index n (slot n head (suc k)) ≡ slot n head k
previous-slot n head k lt small = rw (previous_eq n (slot n head (suc k))) (ground arith)

wrapped-slot :
    (n head k : ℕ) → head < n → suc k < n → wrapped n (slot n head k + 1) ≡ slot n head (suc k)
wrapped-slot n head k lt small = ground arith

pub next-slot :
    (n head k : ℕ) → head < n → suc k < n → next_index n (slot n head k) ≡ slot n head (suc k)
next-slot n head k lt small = ground arith

-- The result is the one promised, and the new ring holds the new history.
abbrev pub Refines : Run (Observer × List Event) → History × List Event → Type 0
Refines run promised = (o' : Observer) × (run ≡ done (o', promised.1)) × Represents o' promised.0

module _ (o : Observer) (h : History) (r : Represents o h) where
  pub undo-Refines : (room : ℕ) → Refines (Observer.undo o) (act_history room h undo)
  unfolding Observer.undo
  undo-Refines room = elim (Bool-cases (h.position == 0)) [
    | inl none_left ↦
        let first : h.position ≡ 0 = ground arith in
        let test : (o.undo_tail == o.undo_head) ≡ true =
          let at = r.undo_at in let lt = r.head_lt in ground arith in
        (o, rw (test, none_left) refl, rw none_left r)
    | inr some_left ↦ let (p, e) = predecessor h.position (ground arith) in undo_one p e
  ]
    where
      predecessor : (n : ℕ) → n ≢ 0 → (p : ℕ) × (n ≡ suc p)
      predecessor n ne = (n - 1, omega arith)

      undo_one : (p : ℕ) → h.position ≡ suc p → Refines (Observer.undo o) (act_history room h undo)
      undo_one p e =
          let few = r.few in
          let inside = r.inside in
          let lt = r.head_lt in
          let at : o.undo_tail ≡ slot o.maxcount o.undo_head (suc p) =
            r.undo_at ∙ ap (slot o.maxcount o.undo_head) e in
          let test : (o.undo_tail == o.undo_head) ≡ false = ground arith in
          let left : (h.position == 0) ≡ false = ground arith in
          let before : previous_index o.maxcount o.undo_tail ≡ slot o.maxcount o.undo_head p =
            ap (previous_index o.maxcount) at
            ∙ previous-slot o.maxcount o.undo_head p lt (omega arith) in
          let item = r.entries p (omega arith) ∙ get_elem?-get_or h.items p (omega arith) in
          let index : h.position - 1 ≡ p = omega arith in
          (
            record o { undo_tail = previous_index o.maxcount o.undo_tail },
            rw (test, left, before, item, index) refl,
            rw left (record {
              size = r.size;
              big = r.big;
              head_lt = lt;
              few = few;
              inside = omega arith;
              undo_at = before ∙ ap (slot o.maxcount o.undo_head) (sym index);
              redo_at = r.redo_at;
              entries = r.entries;
            }),
          )

  pub redo-Refines : (room : ℕ) → Refines (Observer.redo o) (act_history room h redo)
  unfolding Observer.redo
  redo-Refines room = elim (Bool-cases (h.position == length h.items)) [
    | inl none_left ↦
        let last : h.position ≡ length h.items = ground arith in
        let at : o.redo_tail ≡ o.undo_tail =
          r.redo_at ∙ ap (slot o.maxcount o.undo_head) (sym last) ∙ sym r.undo_at in
        let test : (o.redo_tail == o.undo_tail) ≡ true = ground arith in
        (o, rw (test, none_left) refl, rw none_left r)
    | inr some_left ↦
        let few = r.few in
        let inside = r.inside in
        let lt = r.head_lt in
        let more : h.position < length h.items = ground arith in
        let apart = slot-inj o.maxcount o.undo_head lt h.position (length h.items) more few in
        let undo_at = r.undo_at in
        let redo_at = r.redo_at in
        let test : (o.redo_tail == o.undo_tail) ≡ false =
          not_equal o.redo_tail o.undo_tail (λ e. apart (sym undo_at ∙ sym e ∙ redo_at)) in
        let item = r.entries h.position more ∙ get_elem?-get_or h.items h.position more in
        let place = ap (λ i. get_elem? o.commands i) undo_at ∙ item in
        let onward : wrapped o.maxcount (o.undo_tail + 1)
            ≡ slot o.maxcount o.undo_head (h.position + 1) =
          ap (λ i. wrapped o.maxcount (i + 1)) undo_at
          ∙ wrapped-slot o.maxcount o.undo_head h.position lt (omega arith)
          ∙ ap (slot o.maxcount o.undo_head) (omega arith) in
        (
          record o { undo_tail = wrapped o.maxcount (o.undo_tail + 1) },
          rw (test, some_left, place) refl,
          rw some_left (record {
            size = r.size;
            big = r.big;
            head_lt = lt;
            few = few;
            inside = omega arith;
            undo_at = onward;
            redo_at = redo_at;
            entries = r.entries;
          }),
        )
  ]
    where
      not_equal : (a b : ℕ) → a ≢ b → (a == b) ≡ false
      not_equal a b ne = ground arith
