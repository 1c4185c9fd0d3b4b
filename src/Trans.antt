-- ===== src/Trans.antt =====
-- Message catalogues, trans/gettext.cpp, trans/read_mo.cpp and trans/read_mo.h: reading a catalogue, and
-- the translation of a message.
pub mod Gettext
pub mod Found
pub mod Order
pub mod Bisect
pub mod Probing
pub mod ReadMo
pub mod Sizes
pub mod Strings
mod Examples
