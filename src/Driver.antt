-- ===== src/Driver.antt =====
-- jdbc/src/main/java/io/roastedroot/pglite4j/jdbc/PgLiteDriver.java: its instances of PGLite, and the
-- threads that share one.
pub mod State
pub mod Clients
pub mod Registry
