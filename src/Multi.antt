-- ===== src/Multi.antt =====
-- hm4/multi: lists that read through several lists.
pub mod Newest
pub mod DualIterator
pub mod CollectionIterator
