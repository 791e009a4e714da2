-- ===== src/Samples.antt =====
-- Concrete instances of the model's parameters and small inputs, for the tests.
pub mod Sql
pub mod Codec
pub mod Redis
pub mod Echo
pub mod Collection
