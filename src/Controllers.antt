-- ===== src/Controllers.antt =====
-- internal/controllers: the controllers whose logic is modelled.
pub mod Instancegc
pub mod Nodeclass
