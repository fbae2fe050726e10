-- ===== src/Wire.antt =====
-- The wire transport of core/src/main/java/io/roastedroot/pglite4j/core/PGLite.java.
pub mod Exports
pub mod Transport
pub mod Engine
pub mod Errors
pub mod Session
pub mod Frame
