-- ===== src/Delay.antt =====
-- Delay lines: src/include/tdap/Delay.hpp. A buffer is the list of its samples of any type; `null` is
-- the sample that `Array::zero` stores, and `size` the size of a sample in bytes. The source does not
-- check the access of an element, so that an index out of range is undefined there; here such a write
-- does nothing and such a read gives `null`.
pub mod Single
pub mod Multi
pub mod Timed
mod Examples
