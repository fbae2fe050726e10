-- ===== src/Witnesses/Frames.antt =====
-- Messages of the protocol.
use pglite4j.Prelude.{ℕ, ◌≡◌, ◌↔◌, true, some, List, [], ◌∷◌, ◌++◌, arith}
use pglite4j.Wire.Frame.{
  build_simple_query, ends_with_ready_for_query, ready_for_query, read_message,
  ends_with_ready_for_query_iff, read_message-build_simple_query,
}

read_message-build_simple_query_example :
    (msg : List ℕ) × (build_simple_query (b'B' ∷ b';' ∷ []) ≡ some msg)
    × (read_message (msg ++ b'X' ∷ [])
        ≡ some record { kind = b'Q'; body = b'B' ∷ b';' ∷ 0 ∷ []; after = b'X' ∷ [] })
read_message-build_simple_query_example =
    read_message-build_simple_query (b'B' ∷ b';' ∷ []) (b'X' ∷ []) (ground arith)

abbrev one_ready : List ℕ
one_ready = b'C' ∷ b'Z' ∷ 0 ∷ 0 ∷ 0 ∷ 5 ∷ b'T' ∷ []

ends_with_ready_for_query_iff_example :
    (ends_with_ready_for_query one_ready ≡ true)
    ↔ ((before : List ℕ) × (status : ℕ) × (one_ready ≡ before ++ ready_for_query status))
ends_with_ready_for_query_iff_example = ends_with_ready_for_query_iff one_ready
