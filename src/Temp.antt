-- ===== src/Temp.antt =====
-- The temporary names of wasm-build/sdk/hotfix/patch.h.
pub mod Letters
pub mod Name
pub mod Tempnam
