-- ===== src/Undo/Observer.antt =====
-- `DefaultUndoRedoObserver` of common/defundo-redo-observer.cpp. Commands are pointers, and 0 is
-- NULL. What happens to them is recorded in order: a call of `execute` or of the destructor, and
-- what `undo` and `redo` return.
use ministudo_guibuilder.Prelude.{
  ℕ, zero, suc, ◌+◌, ◌-◌, Bool, not, List, [], ◌∷◌, ◌++◌, ltb, leb, ◌==◌, if◌then◌else◌, get_elem?,
  modify, replicate,
}
use ministudo_guibuilder.Prelude.Run.{Run, done, out_of_fuel, then_run, element}

pub data Event : Type 0 where
  executed : ℕ → Event
  deleted : ℕ → Event
  returned : ℕ → Event

pub record Observer : Type 0 where
  pub commands : List ℕ
  pub undo_tail : ℕ
  pub undo_head : ℕ
  pub redo_tail : ℕ
  pub maxcount : ℕ

-- `DEF_UNDOREDO_MIN`.
abbrev pub min_count : ℕ
min_count = 8

-- The constructor.
unfoldable pub create : ℕ → Observer
create count =
    let n : ℕ = if ltb count min_count then min_count else count in
    record { commands = replicate n 0; undo_tail = 0; undo_head = 0; redo_tail = 0; maxcount = n }

abbrev pub can_undo : Observer → Bool
can_undo o = not (o.undo_tail == o.undo_head)

abbrev pub can_redo : Observer → Bool
can_redo o = not (o.redo_tail == o.undo_tail)

-- `if(commands[i]) delete commands[i];`, and `if(cmd) cmd->execute(); return cmd;`.
abbrev pub delete_event : ℕ → List Event
delete_event c = if c == 0 then [] else deleted c ∷ []

abbrev pub execute_event : ℕ → List Event
execute_event c = (if c == 0 then [] else executed c ∷ []) ++ returned c ∷ []

abbrev pub prepend : List Event → List Event → Run (List Event)
prepend es more = done (es ++ more)

-- `if(i==maxcount) i = 0;`.
abbrev pub wrapped : ℕ → ℕ → ℕ
wrapped n i = if i == n then 0 else i

-- The loop of `emptyRedo`, and of the destructor with another start.
unfoldable pub delete_loop : ℕ → Observer → ℕ → Run (List Event)
delete_loop zero o i = out_of_fuel
delete_loop (suc fuel) o i =
    let j = wrapped o.maxcount i in
    let later = delete_loop fuel o (j + 1) in
    if i == o.redo_tail
    then done []
    else element (get_elem? o.commands j) (λ c. then_run later (prepend (delete_event c)))

-- `emptyRedo`. It changes no field.
unfoldable pub empty_redo : ℕ → Observer → Run (List Event)
empty_redo fuel o = delete_loop fuel o o.undo_tail

-- `~DefaultUndoRedoObserver`.
unfoldable pub destroy : ℕ → Observer → Run (List Event)
destroy fuel o = delete_loop fuel o o.undo_head

-- `if(next >= maxcount) next = 0;`.
abbrev pub next_index : ℕ → ℕ → ℕ
next_index n i = if leb n (i + 1) then 0 else i + 1

-- The last three assignments of `pushUndoRedoCommand`.
abbrev pub stored : Observer → ℕ → Observer
stored o cmd =
    let next = next_index o.maxcount o.undo_tail in
    record o {
      commands = modify o.commands o.undo_tail (λ _. cmd);
      undo_tail = next;
      redo_tail = next;
    }

-- `if(next == undo_head)`: the oldest command makes room.
abbrev pub store_command : Observer → ℕ → List Event → Run (Observer × List Event)
store_command o cmd es =
    if next_index o.maxcount o.undo_tail == o.undo_head
    then element (get_elem? o.commands o.undo_head) (λ c. done (
      stored (record o { undo_head = wrapped o.maxcount (o.undo_head + 1) }) cmd,
      es ++ delete_event c,
    ))
    else done (stored o cmd, es)

unfoldable pub push_command : ℕ → Observer → ℕ → Run (Observer × List Event)
push_command fuel o cmd =
    if cmd == 0 then done (o, []) else then_run (empty_redo fuel o) (store_command o cmd)

abbrev pub previous_index : ℕ → ℕ → ℕ
previous_index n zero = n - 1
previous_index n (suc i) = i

unfoldable pub undo : Observer → Run (Observer × List Event)
undo o =
    let before = previous_index o.maxcount o.undo_tail in
    if can_undo o
    then element (get_elem? o.commands before)
        (λ c. done (record o { undo_tail = before }, execute_event c))
    else done (o, returned 0 ∷ [])

unfoldable pub redo : Observer → Run (Observer × List Event)
redo o =
    if can_redo o
    then element (get_elem? o.commands o.undo_tail)
        (λ c. done (record o { undo_tail = wrapped o.maxcount (o.undo_tail + 1) }, execute_event c))
    else done (o, returned 0 ∷ [])
