-- ===== src/Undo.antt =====
-- Undo and redo, include/undo-redo.h, include/defundo-redo-observer.h and
-- common/defundo-redo-observer.cpp: commands in a ring, against a history with a position.
pub mod Observer
pub mod History
pub mod Refine
pub mod Session
pub mod Object
mod Examples
