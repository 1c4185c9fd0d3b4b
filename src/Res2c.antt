-- ===== src/Res2c.antt =====
-- The resource compiler, tools/res2c/res2c.c: the names of the arrays that it writes.
pub mod Export
pub mod Names
mod Examples
