-- ===== src/Wire/Exports.antt =====
-- What PGLite.java calls of the WASM module and of the file that the module may answer by, over an
-- unknown state of the module. None of it is part of the repository, but for the flag of Wire/Errors.
use pglite4j.Prelude.{ℕ, ℤ, Option, List}

-- `interactiveOne` returns, or the module traps and the call throws.
pub data Tick (E : Type 0) : Type 0 where
  ticked trapped : E → Tick E

-- /pgdata/.s.PGSQL.5432.out, which may be there and refuse to be read.
pub data OutFile : Type 0 where
  missing unreadable : OutFile
  holds : List ℕ → OutFile

-- `none` is an access to memory, or a deletion, that throws.
pub record Exports (E : Type 0) : Type 0 where
  pub use_wire : ℤ → E → E
  pub write_memory : (addr : ℕ) → List ℕ → E → Option E
  pub read_memory : (addr len : ℕ) → E → Option (List ℕ)
  pub interactive_write : ℤ → E → E
  pub interactive_read : E → ℤ × E
  pub interactive_one : E → Tick E
  pub get_channel : E → ℤ
  pub pgl_check_error : E → ℤ × E
  pub clear_error : E → E
  pub out_file : E → OutFile
  pub delete_out : E → Option E
  pub pgl_shutdown : E → Tick E
