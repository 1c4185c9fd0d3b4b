-- ===== src/Undo/Object.antt =====
-- `UndoRedoObject` of include/undo-redo.h: an object that may have an observer.
use ministudo_guibuilder.Prelude.{ℕ, Bool, true, false, Option, none, some, List, []}
use ministudo_guibuilder.Prelude.Run.{Run, done, then_run}
use ministudo_guibuilder.Undo.Observer.{
  Observer, Event, can_undo, can_redo, empty_redo, push_command,
}

-- The field `observer`, by what it points to; none is NULL.
abbrev pub Object : Type 0
Object = Option Observer

abbrev pub set_undo_redo_observer : Object → Object → Object
set_undo_redo_observer old observer = observer

abbrev pub have_undo_redo_observer : Object → Bool
have_undo_redo_observer none = false
have_undo_redo_observer (some o) = true

unfoldable pub push_undo_redo_command : ℕ → Object → ℕ → Run (Object × List Event)
push_undo_redo_command fuel none cmd = done (none, [])
push_undo_redo_command fuel (some o) cmd =
    then_run (push_command fuel o cmd) (λ r. done (some r.0, r.1))

abbrev pub object_can_undo : Object → Bool
object_can_undo none = false
object_can_undo (some o) = can_undo o

abbrev pub object_can_redo : Object → Bool
object_can_redo none = false
object_can_redo (some o) = can_redo o

-- `emptyRedo`, which leaves the observer as it is.
unfoldable pub object_empty_redo : ℕ → Object → Run (Object × List Event)
object_empty_redo fuel none = done (none, [])
object_empty_redo fuel (some o) = then_run (empty_redo fuel o) (λ es. done (some o, es))
