-- ===== src/GridLayout.antt =====
-- mgfc/gridlayout.c and mgfc/gridlayout.h: the grid that lays out the panels of a window.
pub mod Units
pub mod State
pub mod Cells
pub mod Position
pub mod Visit
pub mod Resize
pub mod Show
pub mod Destroy
pub mod Spliter
pub mod Reach
mod Examples
mod DragExamples
mod ShowExamples
mod DestroyExamples
