-- ===== src/Witnesses/Errors.antt =====
-- Calls that meet an ERROR of PostgreSQL, and a trap that is none.
use pglite4j.Prelude.{ℕ, ◌≡◌, refl, pos, Bool, true, false, none, List, [], ◌∷◌}
use pglite4j.Wire.Transport.{
  PgLite, Attempt, returned, thrown, tick_once, tick_loop, exec_protocol_raw,
}
use pglite4j.Wire.Errors.{Flagged, flagged}
use pglite4j.Wire.Errors.Laws.{IsClear}
use pglite4j.Wire.Errors.Calls.{exec_protocol_raw-IsClear, tick_once-errfinish}
use pglite4j.Witnesses.Toy.{Toy, toy, Coming, fails, dies, toy_exports}

-- An error that comes next.
abbrev is_error : Toy → Bool
is_error (toy _ _ (fails _ _ ∷ _) _ _) = true
is_error (toy _ _ _ _ _) = false

abbrev toy_at : List Coming → PgLite (Flagged Toy)
toy_at c = record {
  engine = record { rest = toy 0 none c [] none; pgl_error_flag = pos 0 };
  buffer_addr = 1;
  pending_wire_len = 0;
}

abbrev error_call : Attempt (Flagged Toy) (List ℕ)
error_call = exec_protocol_raw (flagged toy_exports is_error) (b'E' ∷ []) (toy_at [])

abbrev value_of : Attempt (Flagged Toy) (List ℕ) → List ℕ
value_of (returned r _) = r
value_of (thrown _) = []

abbrev state_of : Attempt (Flagged Toy) (List ℕ) → PgLite (Flagged Toy)
state_of (returned _ t) = t
state_of (thrown t) = t

exec_protocol_raw-IsClear_example : IsClear (state_of error_call)
unfolding exec_protocol_raw flagged
exec_protocol_raw-IsClear_example =
    exec_protocol_raw-IsClear toy_exports is_error (b'E' ∷ []) (toy_at []) (state_of error_call)
      (value_of error_call) refl refl

abbrev dying : PgLite (Flagged Toy)
dying = toy_at (dies ∷ [])

tick_once-errfinish_example :
    tick_once
      (flagged toy_exports is_error)
      (tick_loop (flagged toy_exports is_error) 9)
      (false, [])
      dying
    ≡ thrown (toy_at [])
tick_once-errfinish_example =
    tick_once-errfinish toy_exports is_error (tick_loop (flagged toy_exports is_error) 9)
      (false, []) dying (toy 0 none [] [] none) refl refl
