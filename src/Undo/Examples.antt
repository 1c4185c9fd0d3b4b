-- ===== src/Undo/Examples.antt =====
-- Sessions with a ring of eight, and the theorems there.
use ministudo_guibuilder.Prelude.{
  ◌-◌, ◌≡◌, ◌≢◌, refl, inr, Option, none, some, List, [], ◌∷◌, ◌++◌, arith,
}
use ministudo_guibuilder.Prelude.Run.{Run, done, crash, out_of_fuel, then_run}
use ministudo_guibuilder.Undo.Observer.{
  Observer, Event, executed, deleted, returned, create, delete_loop, empty_redo, destroy,
  push_command,
}
use ministudo_guibuilder.Undo.Observer
use ministudo_guibuilder.Undo.History.{Action, push, undo, redo, act_history}
use ministudo_guibuilder.Undo.Refine.{Represents}
use ministudo_guibuilder.Undo.Object.{Object, object_empty_redo, push_undo_redo_command}
use ministudo_guibuilder.Undo.Session.{act, act-Refines, create-Represents, push_wrapped}

program : Unit {0}
unfolding create delete_loop empty_redo destroy push_command Observer.undo Observer.redo
program = tt

abbrev prepend_events : List Event → Observer × List Event → Run (Observer × List Event)
prepend_events es (o, more) = done (o, es ++ more)

abbrev acts : Observer → List Action → Run (Observer × List Event)
acts o [] = done (o, [])
acts o (a ∷ rest) = then_run (act 10 o a) (λ r. then_run (acts r.0 rest) (prepend_events r.1))

abbrev events : Run (Observer × List Event) → Option (List Event)
events (done r) = some r.1
events crash = none
events out_of_fuel = none

-- Two commands, one undone; a third one replaces it, and is undone and redone.
session_runs :
    events (acts (create 8) (push 3 ∷ push 4 ∷ undo ∷ push 5 ∷ undo ∷ redo ∷ []))
    ≡ some (
        executed 4
        ∷ returned 4
        ∷ deleted 4
        ∷ executed 5
        ∷ returned 5
        ∷ executed 5
        ∷ returned 5
        ∷ [])
unfolding program
session_runs = refl

-- The eighth command pushes out the first, and takes the end of the commands round to index 0.
full_runs :
    events
      (acts (create 8) (push 1 ∷ push 2 ∷ push 3 ∷ push 4 ∷ push 5 ∷ push 6 ∷ push 7 ∷ push 8 ∷ []))
    ≡ some (deleted 1 ∷ [])
unfolding program
full_runs = refl

-- Undoing once now and pushing again is more than the program can do.
wrapped_runs :
    events (
      acts (create 8) (
        push 1 ∷ push 2 ∷ push 3 ∷ push 4 ∷ push 5 ∷ push 6 ∷ push 7 ∷ push 8 ∷ undo ∷ push 9 ∷ []))
    ≡ none
unfolding program
wrapped_runs = refl

act-Refines_example :
    (o' : Observer) × (act 10 (create 8) (push 5)
      ≡ done (
        o',
        (act_history ((create 8).maxcount - 1) (record { items = []; position = 0 }) (push 5)).1,
      ))
    × Represents o'
        (act_history ((create 8).maxcount - 1) (record { items = []; position = 0 }) (push 5)).0
act-Refines_example =
    act-Refines 10 (create 8) (record { items = []; position = 0 }) (push 5) (create-Represents 8)
      (omega arith) (inr refl)

abbrev around : Observer
around = record {
  commands = 1 ∷ 2 ∷ 3 ∷ 4 ∷ 5 ∷ 6 ∷ 7 ∷ 8 ∷ [];
  undo_tail = 7;
  undo_head = 1;
  redo_tail = 0;
  maxcount = 8;
}

push_wrapped_example : push_command 1000 around 9 ≢ done (around, [])
push_wrapped_example = push_wrapped 1000 around 9 (around, []) refl (omega arith) (omega arith)

-- An object with an observer: a command that could be redone is deleted by emptyRedo, and the next redo
-- executes it.
abbrev redone : Run (Object × List Event) → Option (List Event)
redone (done (some o, es)) = events (then_run (Observer.redo o) (prepend_events es))
redone (done (none, es)) = none
redone crash = none
redone out_of_fuel = none

abbrev emptied : Run (Observer × List Event) → Option (List Event)
emptied (done r) = redone (object_empty_redo 10 (some r.0))
emptied crash = none
emptied out_of_fuel = none

empty_redo_runs :
    emptied (acts (create 8) (push 3 ∷ push 4 ∷ undo ∷ []))
    ≡ some (deleted 4 ∷ executed 4 ∷ returned 4 ∷ [])
unfolding program object_empty_redo
empty_redo_runs = refl

object_push_runs : push_undo_redo_command 10 none 5 ≡ done (none, [])
unfolding push_undo_redo_command
object_push_runs = refl
