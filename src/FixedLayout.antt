-- ===== src/FixedLayout.antt =====
-- The fixed layout, mgfc/fixedlayout.c and mgfc/fixedlayout.h: a list of cells, each with a place of
-- its own in the rectangle of the layout.
pub mod Cells
pub mod Place
pub mod Sizes
pub mod Lists
pub mod Given
pub mod Finishes
mod Examples
