-- ===== src/Undo/History.antt =====
-- What undo and redo promise: a history of commands, oldest first, with a position in it. The
-- commands before the position can be undone, those behind it redone.
use ministudo_guibuilder.Prelude.{
  ℕ, ◌+◌, ◌-◌, List, [], ◌∷◌, ◌++◌, ◌==◌, if◌then◌else◌, get_or, length, take, drop,
}
use ministudo_guibuilder.Undo.Observer.{Event, returned, delete_event, execute_event}

pub record History : Type 0 where
  pub items : List ℕ
  pub position : ℕ

-- Commands deleted one after the other.
abbrev pub delete_events : List ℕ → List Event
delete_events [] = []
delete_events (c ∷ cs) = delete_event c ++ delete_events cs

pub data Action : Type 0 where
  push : ℕ → Action
  undo redo : Action

-- The new history and what happens to commands, where at most `room` commands are kept. A new
-- command replaces those that could be redone, and the oldest one if there is no more room.
abbrev pub act_history : ℕ → History → Action → History × List Event
act_history room h (push c) =
    let kept = take h.position h.items in
    let gone = delete_events (drop h.position h.items) in
    if c == 0
    then (h, [])
    else if h.position == room
    then (
      record { items = drop 1 kept ++ c ∷ []; position = h.position },
      gone ++ delete_event (get_or kept 0 0),
    )
    else (record { items = kept ++ c ∷ []; position = h.position + 1 }, gone)
act_history room h undo =
    if h.position == 0
    then (h, returned 0 ∷ [])
    else (record h { position = h.position - 1 }, execute_event (get_or h.items (h.position - 1) 0))
act_history room h redo =
    if h.position == length h.items
    then (h, returned 0 ∷ [])
    else (record h { position = h.position + 1 }, execute_event (get_or h.items h.position 0))
