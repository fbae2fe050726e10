-- ===== src/Wire/Errors.antt =====
-- The flag by which the module tells an ERROR of PostgreSQL from another trap: `pgl_on_error` and
-- `pgl_check_error` of wasm-build/patches/postgresql-pglite/src-backend-utils-error-elog.c.diff.
pub mod Laws
pub mod Calls
use pglite4j.Prelude.{ℕ, ℤ, pos, Bool, Option, none, some, if◌then◌else◌}
use pglite4j.Wire.Exports.{Exports, Tick, ticked, trapped}

-- `rest` is what else the module has.
pub record Flagged (E : Type 0) : Type 0 where
  pub rest : E
  pub pgl_error_flag : ℤ

module _ {E : Type 0} where
  unfoldable pub pgl_on_error : Flagged E → Flagged E
  pgl_on_error s = record s { pgl_error_flag = pos 1 }

  unfoldable pub pgl_check_error : Flagged E → ℤ × Flagged E
  pgl_check_error s = let val = s.pgl_error_flag in (val, record s { pgl_error_flag = pos 0 })

  abbrev pub with_rest : Flagged E → E → Flagged E
  with_rest s e = record s { rest = e }

  abbrev pub with_rest? : Flagged E → Option E → Option (Flagged E)
  with_rest? s none = none
  with_rest? s (some e) = some (with_rest s e)

  -- The end of `errfinish`: an ERROR sets the flag before it traps.
  unfoldable pub errfinish : (is_error : Bool) → Flagged E → Tick E → Tick (Flagged E)
  unfolding pgl_on_error
  errfinish is_error s (ticked e) = ticked (with_rest s e)
  errfinish is_error s (trapped e) =
      trapped (if is_error then pgl_on_error (with_rest s e) else with_rest s e)

-- The exports of a module with the flag. `is_error` says of which states a tick traps by an ERROR.
unfoldable pub flagged : {E : Type 0} → Exports E → (is_error : E → Bool) → Exports (Flagged E)
unfolding pgl_check_error errfinish
flagged x is_error = record {
  use_wire = λ z s. with_rest s (x.use_wire z s.rest);
  write_memory = λ addr msg s. with_rest? s (x.write_memory addr msg s.rest);
  read_memory = λ addr len s. x.read_memory addr len s.rest;
  interactive_write = λ z s. with_rest s (x.interactive_write z s.rest);
  interactive_read = λ s. let r = x.interactive_read s.rest in (r.0, with_rest s r.1);
  interactive_one = λ s. errfinish (is_error s.rest) s (x.interactive_one s.rest);
  get_channel = λ s. x.get_channel s.rest;
  pgl_check_error = pgl_check_error;
  clear_error = λ s. with_rest s (x.clear_error s.rest);
  out_file = λ s. x.out_file s.rest;
  delete_out = λ s. with_rest? s (x.delete_out s.rest);
  pgl_shutdown = λ s. errfinish (is_error s.rest) s (x.pgl_shutdown s.rest);
}
