-- ===== src/Notes.antt =====
-- Notes: the lists that timelines show, the store that all columns share, and the events of the stream.
pub mod Sorted
pub mod Updates
pub mod Chat
pub mod Eviction
pub mod Cache
pub mod Messages
mod Examples
