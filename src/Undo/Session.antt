-- ===== src/Undo/Session.antt =====
-- Sessions with the observer of common/defundo-redo-observer.cpp.
use ministudo_guibuilder.Prelude.{
  ℕ, zero, suc, ◌+◌, ◌-◌, ◌<◌, ◌≡◌, ◌≢◌, refl, ◌⊎◌, false, Option, none, some, List, [], arith,
  ◌==◌, get_elem?, length, length-replicate,
}
use ministudo_guibuilder.Prelude.Run.{Run, done, crash, out_of_fuel, then_run, element}
use ministudo_guibuilder.Undo.Observer.{
  Observer, Event, delete_event, prepend, wrapped, create, min_count, delete_loop, empty_redo,
  destroy, store_command, push_command,
}
use ministudo_guibuilder.Undo.Observer
use ministudo_guibuilder.Undo.History.{History, Action, push, undo, redo, act_history}
use ministudo_guibuilder.Undo.Refine.{Represents}
use ministudo_guibuilder.Undo.Refine.Actions.{undo-Refines, redo-Refines}
use ministudo_guibuilder.Undo.Refine.Push.{push-Refines}

-- What an action calls.
abbrev pub act : ℕ → Observer → Action → Run (Observer × List Event)
act fuel o (push c) = push_command fuel o c
act fuel o undo = Observer.undo o
act fuel o redo = Observer.redo o

-- A new command finds nothing to redo, or the end of what can be redone is not index 0.
abbrev pub Clear : Observer → History → Action → Type 0
Clear o h (push c) = (o.redo_tail ≢ 0) ⊎ (h.position ≡ length h.items)
Clear o h undo = Unit
Clear o h redo = Unit

-- With fuel for the commands that are kept, each action on a ring that holds a history ends and does
-- what it promises of the history: the same commands are executed, deleted and returned, in the same
-- order, and the ring holds the new history. For a new command, there is nothing to redo or the end
-- of what can be redone is not index 0.
pub act-Refines :
    (fuel : ℕ) (o : Observer) (h : History) (a : Action)
    → Represents o h
    → length h.items < fuel
    → Clear o h a
    → (o' : Observer) × (act fuel o a ≡ done (o', (act_history (o.maxcount - 1) h a).1))
      × Represents o' (act_history (o.maxcount - 1) h a).0
act-Refines fuel o h (push c) r room clear = push-Refines o h r c fuel room clear
act-Refines fuel o h undo r room clear = undo-Refines o h r (o.maxcount - 1)
act-Refines fuel o h redo r room clear = redo-Refines o h r (o.maxcount - 1)

-- A new ring holds no history, and it has room for seven commands at least.
pub create-Represents :
    (count : ℕ) → Represents (create count) (record { items = []; position = 0 })
unfolding create
create-Represents count = record {
  size = length-replicate _ 0;
  big = ground arith;
  head_lt = ground arith;
  few = ground arith;
  inside = omega arith;
  undo_at = ground arith;
  redo_at = ground arith;
  entries = λ k h. absurd (omega arith);
}

-- From an index that is not 0 the loop never stops at 0: it puts the index back to 0 only to leave
-- it at once.
delete_loop-wrapped :
    (fuel : ℕ) (o : Observer) (i : ℕ) (es : List Event)
    → o.redo_tail ≡ 0
    → i ≢ 0
    → delete_loop fuel o i ≢ done es
unfolding delete_loop
delete_loop-wrapped zero o i es end ne e = cc e
delete_loop-wrapped (suc fuel) o i es end ne e =
    step (get_elem? o.commands (wrapped o.maxcount i))
      (delete_loop fuel o (wrapped o.maxcount i + 1))
      (λ more. delete_loop-wrapped fuel o (wrapped o.maxcount i + 1) more end (omega arith))
      (rw differ at e)
  where
    differ : (i == o.redo_tail) ≡ false
    differ = ground arith

    step :
        (x : Option ℕ) (later : Run (List Event))
        → ((more : List Event) → later ≢ done more)
        → element x (λ c. then_run later (prepend (delete_event c))) ≡ done es
        → ⊥
    step none later endless f = cc f
    step (some c) (done more) endless f = endless more refl
    step (some c) crash endless f = cc f
    step (some c) out_of_fuel endless f = cc f

-- If what can be redone ends just before index 0 and there is something to redo, storing a new
-- command never comes to its end.
pub push_wrapped :
    (fuel : ℕ) (o : Observer) (c : ℕ) (r : Observer × List Event)
    → o.redo_tail ≡ 0
    → o.undo_tail ≢ 0
    → c ≢ 0
    → push_command fuel o c ≢ done r
unfolding push_command empty_redo
push_wrapped fuel o c r end apart ne e =
    step (delete_loop fuel o o.undo_tail)
      (λ es. delete_loop-wrapped fuel o o.undo_tail es end apart) (rw command at e)
  where
    command : (c == 0) ≡ false
    command = ground arith

    step :
        (run : Run (List Event))
        → ((es : List Event) → run ≢ done es)
        → then_run run (store_command o c) ≡ done r
        → ⊥
    step (done es) endless f = endless es refl
    step crash endless f = cc f
    step out_of_fuel endless f = cc f

-- If the commands end just before index 0 and the oldest one is elsewhere, neither does the
-- destructor.
pub destroy_wrapped :
    (fuel : ℕ) (o : Observer) (es : List Event)
    → o.redo_tail ≡ 0
    → o.undo_head ≢ 0
    → destroy fuel o ≢ done es
unfolding destroy
destroy_wrapped fuel o es end apart = delete_loop-wrapped fuel o o.undo_head es end apart
