-- ===== src/Wire/Reads.antt =====
-- Which bytes a parser reads, and what it makes of them: the relation by which an encoder and its
-- decoder are matched field by field.
mod Basic
mod Fields
pub mod Bounds
pub use Basic.*
pub use Fields.*
