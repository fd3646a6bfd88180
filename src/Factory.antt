-- ===== src/Factory.antt =====
-- core/factory: how the servers of a system are made.
pub mod Keys
