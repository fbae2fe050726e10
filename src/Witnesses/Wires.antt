-- ===== src/Witnesses/Wires.antt =====
-- Calls and sessions with the small module.
use pglite4j.Prelude.{ℕ, ◌≡◌, List, [], ◌∷◌, arith}
use pglite4j.Wire.Transport.{PgLite, returned, exec_protocol_raw}
use pglite4j.Wire.Engine.{IsSettled, transcript, IsAnswer}
use pglite4j.Wire.Session.{exec_protocol_raw-transcript, exec_session-InStep, exec_session, InStep}
use pglite4j.Witnesses.Toy.{Toy, toy_exports, toy_view, toy-IsLawful, toy_host, toy_host-IsSettled}

-- A query with three replies, the second by the file.
exec_protocol_raw-transcript_example :
    (t : PgLite Toy) × (exec_protocol_raw toy_exports (b'Q' ∷ b'1' ∷ []) (toy_host [])
      ≡ returned (b'T' ∷ b'D' ∷ 1 ∷ 2 ∷ 3 ∷ b'Z' ∷ 0 ∷ 0 ∷ 0 ∷ 5 ∷ b'I' ∷ []) t)
    × IsSettled toy_exports toy_view 1 32 [] t
unfolding transcript
exec_protocol_raw-transcript_example =
    exec_protocol_raw-transcript toy_exports toy_view 1 32 toy-IsLawful (b'Q' ∷ b'1' ∷ [])
      (toy_host []) (ground arith) (ground arith) (toy_host-IsSettled [])

-- A query and a message that PostgreSQL answers with an error.
exec_session-InStep_example :
    (rs : List (List ℕ)) × (t : PgLite Toy) × (exec_session toy_exports
        ((b'Q' ∷ []) ∷ (b'E' ∷ []) ∷ [])
        (toy_host [])
      ≡ returned rs t)
    × InStep toy_exports toy_view (toy_host []) ((b'Q' ∷ []) ∷ (b'E' ∷ []) ∷ []) rs t
    × IsSettled toy_exports toy_view 1 32 [] t
unfolding IsAnswer
exec_session-InStep_example =
    exec_session-InStep toy_exports toy_view 1 32 toy-IsLawful ((b'Q' ∷ []) ∷ (b'E' ∷ []) ∷ [])
      (toy_host []) (ground arith, ground arith, (ground arith, ground arith, tt))
      (λ e. tt, (λ e. tt, tt)) (toy_host-IsSettled [])
