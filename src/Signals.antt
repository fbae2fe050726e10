-- ===== src/Signals.antt =====
-- The emulated signal functions of wasm-build/wasm-build/sdk_port-wasi/sdk_port-wasi.c and the
-- types they use from wasm-build/wasm-build/sdk_port.h.
pub mod Sets
pub mod State
pub mod Mask
