-- ===== src/Other.antt =====
-- other/: the classes that stand apart from the library.
pub mod Stock
pub mod Observer
