-- ===== src/Dlfcn.antt =====
-- The dynamic loading that wasm-build/wasm-build/sdk_port-wasi/sdk_port-wasi-dlfcn.c emulates.
pub mod Dict
pub mod Text
pub mod Loader
pub mod Symbols
