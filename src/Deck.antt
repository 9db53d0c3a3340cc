-- ===== src/Deck.antt =====
-- The deck: columns, their layout in groups, and the profiles that hold them.
pub mod Layout
pub mod Columns
pub mod Profiles
pub mod Store
pub mod Windows
pub mod WellFormed
mod Examples
