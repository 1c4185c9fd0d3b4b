-- ===== src/Undo/Refine.antt =====
-- The ring of common/defundo-redo-observer.cpp holds a history: the oldest command stands at
-- `undo_head`, the others follow it round the ring.
pub mod Lists
pub mod Delete
pub mod Actions
pub mod Push
use ministudo_guibuilder.Prelude.{
  ℕ, zero, suc, ◌+◌, ◌-◌, ◌≤◌, ◌<◌, ◌≡◌, Bool, Option, List, ltb, if◌then◌else◌, get_elem?, length,
}
use ministudo_guibuilder.Undo.Observer.{Observer}
use ministudo_guibuilder.Undo.History.{History}

-- The index of the command `k` places behind the oldest one, in a ring of `n`.
abbrev pub slot : ℕ → ℕ → ℕ → ℕ
slot n head k = if ltb (head + k) n then head + k else head + k - n

pub record Represents (o : Observer) (h : History) : Type 0 where
  pub size : length o.commands ≡ o.maxcount
  pub big : 2 ≤ o.maxcount
  pub head_lt : o.undo_head < o.maxcount
  pub few : length h.items < o.maxcount
  pub inside : h.position ≤ length h.items
  pub undo_at : o.undo_tail ≡ slot o.maxcount o.undo_head h.position
  pub redo_at : o.redo_tail ≡ slot o.maxcount o.undo_head (length h.items)
  pub entries :
      (k : ℕ)
      → k < length h.items
      → get_elem? o.commands (slot o.maxcount o.undo_head k) ≡ get_elem? h.items k
