-- ===== src/Undo/Refine/Push.antt =====
-- `pushUndoRedoCommand` of common/defundo-redo-observer.cpp does to the ring what it promises of the
-- history: with room for one more command, and with a full ring.
use ministudo_guibuilder.Prelude.{
  take, drop, ℕ, ◌+◌, ◌-◌, ◌<◌, ◌≡◌, ◌≢◌, refl, sym, ap, ◌∙◌, ◌⊎◌, inl, inr, true, false, some,
  List, [], ◌∷◌, ◌++◌, arith, ltb, ◌==◌, get_elem?, get_or, length, modify, length-modify,
  get_elem?-modify_self, get_elem?-modify_ne, get_elem?-some, Bool-cases,
}
use ministudo_guibuilder.Undo.Observer.{Observer, Event, wrapped, next_index, stored, push_command}
use ministudo_guibuilder.Undo.History.{History, delete_events, push, act_history}
use ministudo_guibuilder.Undo.Refine.{slot, Represents}
use ministudo_guibuilder.Undo.Refine.Delete.{get_elem?-get_or, slot-lt, empty_redo-drop}
use ministudo_guibuilder.Undo.Refine.Lists.{
  length-take, get_elem?-take, length-snoc, get_elem?-snoc_lt, get_elem?-snoc_last, length-drop_one,
  get_elem?-drop_one,
}
use ministudo_guibuilder.Undo.Refine.Actions.{Refines, next-slot}

-- Behind the last slot of a full ring stands the first.
next-last : (n head p : ℕ) → head < n → p + 1 ≡ n → next_index n (slot n head p) ≡ head
next-last n head p lt e = ground arith

-- The slots of a ring whose head has moved on.
moved-slot :
    (n head k : ℕ) → head < n → k + 1 < n → slot n (wrapped n (head + 1)) k ≡ slot n head (k + 1)
moved-slot n head k lt small = ground arith

moved-last : (n head p : ℕ) → head < n → p + 1 ≡ n → slot n (wrapped n (head + 1)) p ≡ head
moved-last n head p lt e = ground arith

slot-ne : (n head k l : ℕ) → head < n → k ≢ l → k < n → l < n → slot n head k ≢ slot n head l
slot-ne n head k l lt ne small small' = ground arith

module _ (o : Observer) (h : History) (r : Represents o h) (c : ℕ) where
  abbrev kept : List ℕ
  kept = take h.position h.items

  abbrev gone : List Event
  gone = delete_events (drop h.position h.items)

  kept-length : length kept ≡ h.position
  kept-length = length-take h.position h.items r.inside

  position-lt : h.position < o.maxcount
  position-lt = let few = r.few in let inside = r.inside in omega arith

  kept-entry :
      (k : ℕ)
      → k < h.position
      → get_elem? (modify o.commands o.undo_tail (λ _. c)) (slot o.maxcount o.undo_head k)
        ≡ get_elem? kept k
  kept-entry k less =
      let inside = r.inside in
      let apart =
        slot-ne o.maxcount o.undo_head h.position k r.head_lt (omega arith) position-lt
          (let lt = position-lt in omega arith) in
      get_elem?-modify_ne o.commands o.undo_tail (slot o.maxcount o.undo_head k) (λ _. c)
        (λ e. apart (sym r.undo_at ∙ e))
      ∙ r.entries k (omega arith)
      ∙ sym (get_elem?-take h.position h.items k less)

  new-entry :
      get_elem? (modify o.commands o.undo_tail (λ _. c)) (slot o.maxcount o.undo_head h.position)
      ≡ some c
  new-entry =
      let lt = slot-lt o.maxcount o.undo_head r.head_lt h.position position-lt in
      let size = r.size in
      let undo_at = r.undo_at in
      let (x, e) = get_elem?-some o.commands o.undo_tail (omega arith) in
      ap (λ i. get_elem? (modify o.commands o.undo_tail (λ _. c)) i) (sym undo_at)
      ∙ get_elem?-modify_self o.commands o.undo_tail (λ _. c) e

  -- There is room for the command.
  stored-Represents :
      h.position + 1 < o.maxcount
      → Represents (stored o c) (record { items = kept ++ c ∷ []; position = h.position + 1 })
  stored-Represents room =
      let total = length-snoc kept c in
      let len = kept-length in
      let at : next_index o.maxcount o.undo_tail ≡ slot o.maxcount o.undo_head (h.position + 1) =
        ap (next_index o.maxcount) r.undo_at
        ∙ next-slot o.maxcount o.undo_head h.position r.head_lt (omega arith)
        ∙ ap (slot o.maxcount o.undo_head) (omega arith) in
      record {
        size = length-modify o.commands o.undo_tail (λ _. c) ∙ r.size;
        big = r.big;
        head_lt = r.head_lt;
        few = omega arith;
        inside = omega arith;
        undo_at = at;
        redo_at = at ∙ ap (slot o.maxcount o.undo_head) (omega arith);
        entries = λ k less. elim (Bool-cases (ltb k h.position)) [
          | inl old ↦
              let before : k < h.position = ground arith in
              kept-entry k before ∙ sym (get_elem?-snoc_lt kept c k (omega arith))
          | inr new ↦
              let last : k ≡ h.position = ground arith in
              ap
                (λ i.
                  get_elem? (modify o.commands o.undo_tail (λ _. c))
                    (slot o.maxcount o.undo_head i))
                last
              ∙ new-entry
              ∙ sym (get_elem?-snoc_last kept c)
              ∙ ap (λ i. get_elem? (kept ++ c ∷ []) i) (len ∙ sym last)
        ];
      }

  abbrev moved : Observer
  moved = record o { undo_head = wrapped o.maxcount (o.undo_head + 1) }

  -- The ring is full: the oldest command has made room.
  moved-Represents :
      h.position + 1 ≡ o.maxcount
      → Represents
          (stored moved c)
          (record { items = drop 1 kept ++ c ∷ []; position = h.position })
  moved-Represents full =
      let total = length-snoc (drop 1 kept) c in
      let fewer = length-drop_one kept in
      let len = kept-length in
      let big = r.big in
      let lt = r.head_lt in
      let at : next_index o.maxcount o.undo_tail ≡ slot o.maxcount moved.undo_head h.position =
        ap (next_index o.maxcount) r.undo_at
        ∙ next-last o.maxcount o.undo_head h.position r.head_lt full
        ∙ sym (moved-last o.maxcount o.undo_head h.position r.head_lt full) in
      record {
        size = length-modify o.commands o.undo_tail (λ _. c) ∙ r.size;
        big = r.big;
        head_lt = ground arith;
        few = omega arith;
        inside = omega arith;
        undo_at = at;
        redo_at = at ∙ ap (slot o.maxcount moved.undo_head) (omega arith);
        entries = λ k less.
            let place = moved-slot o.maxcount o.undo_head k r.head_lt (omega arith) in
            ap (λ i. get_elem? (modify o.commands o.undo_tail (λ _. c)) i) place
            ∙ elim (Bool-cases (ltb (k + 1) h.position)) [
              | inl old ↦
                  let before : k + 1 < h.position = ground arith in
                  kept-entry (k + 1) before
                  ∙ ap (λ i. get_elem? kept i) (omega arith)
                  ∙ sym (get_elem?-drop_one kept k)
                  ∙ sym (get_elem?-snoc_lt (drop 1 kept) c k (omega arith))
              | inr new ↦
                  let last : k + 1 ≡ h.position = ground arith in
                  ap
                    (λ i.
                      get_elem? (modify o.commands o.undo_tail (λ _. c))
                        (slot o.maxcount o.undo_head i))
                    last
                  ∙ new-entry
                  ∙ sym (get_elem?-snoc_last (drop 1 kept) c)
                  ∙ ap (λ i. get_elem? (drop 1 kept ++ c ∷ []) i) (omega arith)
            ];
      }

  -- Whether the next index is the head says whether the ring is full.
  next-full : (next_index o.maxcount o.undo_tail == o.undo_head) ≡ (h.position + 1 == o.maxcount)
  next-full =
      let lt = r.head_lt in
      let small = position-lt in let undo_at = r.undo_at in rw undo_at (ground arith)

  pub push-Refines :
      (fuel : ℕ)
      → length h.items < fuel
      → (o.redo_tail ≢ 0) ⊎ (h.position ≡ length h.items)
      → Refines (push_command fuel o c) (act_history (o.maxcount - 1) h (push c))
  unfolding push_command
  push-Refines fuel room ok = elim (Bool-cases (c == 0)) [
    | inl null ↦ (o, rw null refl, rw null r)
    | inr command ↦
        let emptied = empty_redo-drop o h r fuel room ok in
        elim (Bool-cases (h.position + 1 == o.maxcount)) [
          | inr more ↦
              let small = position-lt in
              let space : h.position + 1 < o.maxcount = ground arith in
              let not_full : (h.position == o.maxcount - 1) ≡ false = ground arith in
              (
                stored o c,
                rw (command, emptied, next-full, more, not_full) refl,
                rw (command, not_full) (stored-Represents space),
              )
          | inl last ↦
              let big = r.big in
              let inside = r.inside in
              let len = kept-length in
              let lt = r.head_lt in
              let no_more : h.position + 1 ≡ o.maxcount = ground arith in
              let full : (h.position == o.maxcount - 1) ≡ true = ground arith in
              let first : o.undo_head ≡ slot o.maxcount o.undo_head 0 = ground arith in
              let oldest : get_elem? o.commands o.undo_head ≡ some (get_or kept 0 0) =
                ap (λ i. get_elem? o.commands i) first
                ∙ r.entries 0 (omega arith)
                ∙ sym (get_elem?-take h.position h.items 0 (omega arith))
                ∙ get_elem?-get_or kept 0 (omega arith) in
              (
                stored moved c,
                rw (command, emptied, next-full, last, full, oldest) refl,
                rw (command, full) (moved-Represents no_more),
              )
        ]
  ]
